-- ===== src/Tests/Timing.antt =====
-- How long the services take: "c" calls two services side by side and then sleeps.
use isotope.Base.{
  ℕ, ◌+◌, ◌≤◌, String, ◌==◌, ◌≡◌, ◌⊎◌, refl, none, [], ◌∷◌, ◌++◌, if◌then◌else◌, arith,
}
use isotope.Base.Int.{pos}
use isotope.Graph.ServiceType.{http}
use isotope.Srv.Lookup.{Handler}
use isotope.Srv.Execute.{received, slept, responded, recorded_response, Trace, respond}
use isotope.Srv.Timing.{ServesIn}
use isotope.Srv.Timing.Span.{span_of_steps}
use isotope.Srv.Timing.Bound.{ServesIn-takes}
use isotope.Srv.Timing.Schedule.{Serves-iff}
use isotope.Tests.Srv.{net, incoming, handler_c, trace_c, handler_c-Serves}
use isotope.Tests.GraphTheorems.{service_a, script_c}

abbrev latency : String → ℕ
latency name = if name == "a" then 7000000 else 4000000

-- 7 ms for the longer of the calls, and 10 ms.
span_c : span_of_steps latency script_c ≡ 17000000
span_c = refl

abbrev handler_a : Handler
handler_a = record { service = service_a; service_types = ("a", http) ∷ [] }

abbrev trace_a : Trace
trace_a = received ∷ slept (pos 100000000) ∷ responded 200 ∷ recorded_response 0 200 ∷ []

late_a : ServesIn net latency handler_a incoming 5 100000009 trace_a
late_a = (
  slept (pos 100000000) ∷ [],
  none,
  (
    slept (pos 100000000) ∷ [],
    none,
    100000007,
    (refl, refl, omega arith),
    ([], (refl, refl, omega arith), refl),
  ),
  refl,
)

ServesIn-takes_example :
    (body : Trace) × (status : ℕ) × (trace_a ≡ received ∷ (body ++ respond status))
    × (((status ≡ 200) × (5 + span_of_steps latency handler_a.service.script ≤ 100000009))
        ⊎ ((status ≡ 500) × (5 ≤ 100000009)))
ServesIn-takes_example = ServesIn-takes net latency handler_a incoming 5 100000009 trace_a late_a

timed_c : ServesIn net latency handler_c incoming 5 17000005 trace_c
timed_c = (Serves-iff net latency handler_c incoming 5 trace_c).0 handler_c-Serves
