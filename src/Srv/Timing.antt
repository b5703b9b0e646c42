-- ===== src/Srv/Timing.antt =====
-- service/pkg/srv with time: the runs of Runs, with when each command begins and ends. A number is a
-- time in nanoseconds. time.Sleep returns at once for a duration that is not positive, and else after
-- it at the earliest. The clock is not tied to the order of the events of goroutines.
pub mod Span
pub mod Bound
pub mod Schedule
use isotope.Base.{ℕ, ◌+◌, ◌≤◌, String, ◌≡◌, Option, none, some, List, [], ◌∷◌, ◌++◌}
use isotope.Base.Int.{ℤ, pos, negsuc}
use isotope.Base.Dict.{Dict}
use isotope.Graph.Script.Types.{Command, Commands}
use isotope.Graph.ServiceType.{ServiceType}
use isotope.Srv.Header.{Header, extract_forwardable_header}
use isotope.Srv.Lookup.{Handler}
use isotope.Srv.Execute.{
  Net, Event, received, slept, Trace, MakesPayload, execute_request_command, respond, status_of,
}
use isotope.Srv.Runs.{Merge, Race, keep}

abbrev pub wait : ℤ → ℕ
wait (pos n) = n
wait (negsuc n) = 0

-- The network takes at least `latency name` for a call of the service that gets a good response.
module _ (N : Net) (latency : String → ℕ) where
  abbrev pub call_time : String → Option N.Err → ℕ
  call_time name none = latency name
  call_time name (some failed) = 0

  module _ (header : Header) (types : Dict ServiceType) where
    abbrev mutual
      -- `execute`, begun at `start` and back at `stop`
      pub RunsIn : Command → ℕ → ℕ → Trace → Option N.Err → Type 0
      RunsIn (Command.sleep d) start stop t err =
          (t ≡ slept d ∷ []) × (err ≡ none) × (start + wait d ≤ stop)
      RunsIn (Command.request r) start stop t err =
          (answer : Option ℕ) × (execute_request_command N r header types answer ≡ (t, err))
          × MakesPayload N types r
          × (start + call_time r.service_name err ≤ stop)
      RunsIn (Command.concurrent cs) start stop t err =
          (errors : List N.Err) × RunAllIn cs start stop t errors
          × Race N errors err
          × (start ≤ stop)
      RunsIn (Command.other type) start stop t err = ⊥

      -- The goroutines of a concurrent command begin after it, and wg.Wait waits for each to end.
      pub RunAllIn : Commands → ℕ → ℕ → Trace → List N.Err → Type 0
      RunAllIn Commands.nil start stop t errors = (t ≡ []) × (errors ≡ [])
      RunAllIn (Commands.cons c cs) start stop t errors =
          (own : Trace) × (err : Option N.Err) × (rest : Trace) × (rest_errors : List N.Err)
          × (begun : ℕ) × (ended : ℕ) × (start ≤ begun)
          × (ended ≤ stop)
          × RunsIn c begun ended own err
          × RunAllIn cs start stop rest rest_errors
          × Merge own rest t
          × (errors ≡ keep N err rest_errors)

  -- The loop of ServeHTTP over the steps.
  abbrev pub RunScriptIn :
      Header → Dict ServiceType → Commands → ℕ → ℕ → Trace → Option N.Err → Type 0
  RunScriptIn header types Commands.nil start stop t err = (t ≡ []) × (err ≡ none) × (start ≤ stop)
  RunScriptIn header types (Commands.cons c cs) start stop t err =
      (own : Trace) × (failed : Option N.Err) × (middle : ℕ) × RunsIn
        (extract_forwardable_header header) types c start middle own failed
      × elim failed [
        | none ↦
            (rest : Trace) × RunScriptIn header types cs middle stop rest err × (t ≡ own ++ rest)
        | some e ↦ (t ≡ own) × (err ≡ some e) × (middle ≤ stop)
      ]

  -- The handler, with its startTime and its stopTime.
  abbrev pub ServesIn : Handler → Header → ℕ → ℕ → Trace → Type 0
  ServesIn h header start stop t =
      (body : Trace) × (err : Option N.Err) × RunScriptIn header h.service_types h.service.script
        start stop body err
      × (t ≡ received ∷ (body ++ respond (status_of N err)))
