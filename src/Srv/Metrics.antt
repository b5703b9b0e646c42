-- ===== src/Srv/Metrics.antt =====
-- service/pkg/srv/prometheus/handler.go: the collectors, and what the recorders ask of them. The
-- Prometheus library is not modelled: a sample is a call of one of its methods.
pub mod Agree
pub mod Count
use isotope.Base.{
  ℕ, ◌+◌, String, ◌==◌, Bool, true, false, ◌&&◌, ◌||◌, if◌then◌else◌, Option, none, some, List, [],
  ◌∷◌, ◌++◌,
}
use isotope.Base.Float.{Float64}
use isotope.Base.Text.{decimal}
use isotope.Srv.Execute.{Event, received, recorded_sent, recorded_response, Trace}

-- A collector, with the names of its labels and the bounds of its buckets: in thousandths of a
-- second for durations, in bytes for sizes, and none for a counter.
pub record Collector : Type 0 where
  pub name : String
  pub labels : List String
  pub buckets : List ℕ

abbrev pub duration_buckets : List ℕ
duration_buckets =
    7 ∷ 8 ∷ 9 ∷ 10 ∷ 11 ∷ 12 ∷ 14 ∷ 16 ∷ 18 ∷ 20 ∷ 25 ∷ 30 ∷ 35 ∷ 40 ∷ 45 ∷ 50 ∷ 60 ∷ 70 ∷ 80 ∷ 90
    ∷ 100 ∷ 120 ∷ 140 ∷ 160 ∷ 180 ∷ 200 ∷ 250 ∷ 300 ∷ 350 ∷ 400 ∷ 450 ∷ 500 ∷ []

abbrev pub size_buckets : List ℕ
size_buckets =
    1 ∷ 10 ∷ 100 ∷ 1000 ∷ 10000 ∷ 100000 ∷ 1000000 ∷ 10000000 ∷ 100000000 ∷ 1000000000 ∷ []

abbrev pub service_incoming_requests_total : Collector
service_incoming_requests_total = record {
  name = "service_incoming_requests_total";
  labels = [];
  buckets = [];
}

abbrev pub service_outgoing_requests_total : Collector
service_outgoing_requests_total = record {
  name = "service_outgoing_requests_total";
  labels = "destination_service" ∷ [];
  buckets = [];
}

abbrev pub service_outgoing_request_size : Collector
service_outgoing_request_size = record {
  name = "service_outgoing_request_size";
  labels = "destination_service" ∷ [];
  buckets = size_buckets;
}

abbrev pub service_request_duration_seconds : Collector
service_request_duration_seconds = record {
  name = "service_request_duration_seconds";
  labels = "code" ∷ [];
  buckets = duration_buckets;
}

abbrev pub service_response_size : Collector
service_response_size = record {
  name = "service_response_size";
  labels = "code" ∷ [];
  buckets = size_buckets;
}

contains_name : List String → String → Bool
contains_name [] name = false
contains_name (n ∷ names) name = (n == name) || contains_name names name

-- prom.MustRegister on the names that are registered: it panics at one that is there, which is `none`.
unfoldable pub must_register : List Collector → List String → Option (List String)
unfolding contains_name
must_register [] names = some names
must_register (c ∷ cs) names = elim (contains_name names c.name) [
  | true ↦ none
  | false ↦ must_register cs (c.name ∷ names)
]

-- `Handler`
unfoldable pub handler : List String → Option (List String)
handler = must_register (
    service_incoming_requests_total ∷ service_outgoing_requests_total
    ∷ service_outgoing_request_size ∷ service_request_duration_seconds ∷ service_response_size ∷ [])

-- Inc, or Observe, for the values of the labels.
pub data Sample : Type 0 where
  inc : Collector → List String → Sample
  observe : Collector → List String → Float64 → Sample

-- float64(size), and the Seconds of a duration
module _ (float64 : ℕ → Float64) (seconds : ℕ → Float64) where
  unfoldable pub record_request_received : List Sample
  record_request_received = inc service_incoming_requests_total [] ∷ []

  unfoldable pub record_request_sent : String → ℕ → List Sample
  record_request_sent destination_service size =
      inc service_outgoing_requests_total (destination_service ∷ [])
      ∷ observe service_outgoing_request_size (destination_service ∷ []) (float64 size)
      ∷ []

  unfoldable pub record_response_sent : ℕ → ℕ → ℕ → List Sample
  record_response_sent duration size code =
      let str_code = decimal code in
      observe service_request_duration_seconds (str_code ∷ []) (seconds duration)
      ∷ observe service_response_size (str_code ∷ []) (float64 size)
      ∷ []

  -- The samples of a run of the handler, where `duration` is what its clock gives.
  unfoldable pub samples_of : ℕ → Event → List Sample
  samples_of duration received = record_request_received
  samples_of duration (recorded_sent name size) = record_request_sent name size
  samples_of duration (recorded_response size status) = record_response_sent duration size status
  samples_of duration _ = []

  unfoldable pub samples : ℕ → Trace → List Sample
  samples duration [] = []
  samples duration (e ∷ t) = samples_of duration e ++ samples duration t
