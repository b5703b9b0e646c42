-- ===== src/Tests/Metrics.antt =====
-- The metrics of the run of "c".
use isotope.Base.{◌≡◌, refl, none, some, [], ◌∷◌}
use isotope.Base.Text.{decimal}
use isotope.Srv.Metrics.{
  handler, must_register, samples, samples_of, record_request_received, record_request_sent,
  record_response_sent,
}
use isotope.Srv.Metrics.Count.{count, is_observe}
use isotope.Tests.Srv.{trace_c}

registered :
    handler []
    ≡ some (
        "service_response_size" ∷ "service_request_duration_seconds"
        ∷ "service_outgoing_request_size" ∷ "service_outgoing_requests_total"
        ∷ "service_incoming_requests_total" ∷ [])
unfolding handler must_register
registered = refl

-- A second registration panics.
registered_twice : handler ("service_outgoing_request_size" ∷ []) ≡ none
unfolding handler must_register
registered_twice = refl

durations_of_500 :
    count
      (is_observe "service_request_duration_seconds" ("500" ∷ []) 3)
      (samples (λ n. n) (λ n. n) 3 trace_c)
    ≡ 1
unfolding samples samples_of record_request_received record_request_sent record_response_sent
    decimal
durations_of_500 = refl
