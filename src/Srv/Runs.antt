-- ===== src/Srv/Runs.antt =====
-- service/pkg/srv/executable.go and handler.go as relations: whatever the order in which the
-- goroutines go on, and whatever the services called respond. The goroutines of a concurrent
-- command share the variable `errs`. The order of their events and the order in which they read
-- and write `errs` are chosen apart.
use isotope.Base.{ℕ, ◌≡◌, Option, none, some, List, [], ◌∷◌, ◌++◌}
use isotope.Base.Dict.{Dict}
use isotope.Graph.Script.Types.{Command, Commands}
use isotope.Graph.ServiceType.{ServiceType}
use isotope.Srv.Header.{Header, extract_forwardable_header}
use isotope.Srv.Lookup.{Handler}
use isotope.Srv.Execute.{
  Net, Event, received, slept, Trace, MakesPayload, execute_request_command, respond, status_of,
}

-- The events of two goroutines, or of more, in an order in which they may happen.
pub data Merge : Trace → Trace → Trace → Type 0 where
  done : Merge [] [] []
  left : (e : Event) {xs ys zs : Trace} → Merge xs ys zs → Merge (e ∷ xs) ys (e ∷ zs)
  right : (e : Event) {xs ys zs : Trace} → Merge xs ys zs → Merge xs (e ∷ ys) (e ∷ zs)

module _ (N : Net) where
  -- `multierror.Append` is a function of what was read here. It also appends in place to an error that
  -- is there, so of three errors and more it may keep others; whether `errs` is nil is the same.
  --
  -- The goroutines of a concurrent command that got an error, while they run
  -- `errs = multierror.Append(errs, err)`, which reads `errs` and later writes it: those that
  -- are still to read it, those that have read it, with what they read, and `errs` itself.
  pub record Racing : Type 0 where
    pub to_read : List N.Err
    pub to_write : List (N.Err × Option N.Err)
    pub errs : Option N.Err

  -- One of the goroutines goes on.
  pub data RaceStep : Racing → Racing → Type 0 where
    reads :
        (before after : List N.Err) (err : N.Err) (to_write : List (N.Err × Option N.Err))
        (errs : Option N.Err)
        → RaceStep
            (record { to_read = before ++ (err ∷ after); to_write = to_write; errs = errs })
            (record { to_read = before ++ after; to_write = (err, errs) ∷ to_write; errs = errs })
    writes :
        (to_read : List N.Err) (before after : List (N.Err × Option N.Err)) (err : N.Err)
        (old errs : Option N.Err)
        → RaceStep
            (record { to_read = to_read; to_write = before ++ ((err, old) ∷ after); errs = errs })
            (record {
              to_read = to_read;
              to_write = before ++ after;
              errs = some (N.append old err);
            })

  pub data RaceSteps : Racing → Racing → Type 0 where
    stop : (s : Racing) → RaceSteps s s
    step : (s : Racing) {t u : Racing} → RaceStep s t → RaceSteps t u → RaceSteps s u

  -- What `errs` may be once all of them are done.
  abbrev pub Race : List N.Err → Option N.Err → Type 0
  Race errors errs =
      RaceSteps (record { to_read = errors; to_write = []; errs = none })
        (record { to_read = []; to_write = []; errs = errs })

  abbrev pub keep : Option N.Err → List N.Err → List N.Err
  keep none errors = errors
  keep (some err) errors = err ∷ errors

  module _ (header : Header) (types : Dict ServiceType) where
    abbrev mutual
      -- `execute`: a command may do the events of the trace, and return the error. A command
      -- of another type ends the program, and does not return. Nor does a call that panics as its
      -- payload is too large: net/http then sends no response, or, from a goroutine, the process ends.
      pub Runs : Command → Trace → Option N.Err → Type 0
      Runs (Command.sleep d) t err = (t ≡ slept d ∷ []) × (err ≡ none)
      Runs (Command.request r) t err =
          (answer : Option ℕ) × (execute_request_command N r header types answer ≡ (t, err))
          × MakesPayload N types r
      Runs (Command.concurrent cs) t err =
          (errors : List N.Err) × RunAll cs t errors × Race errors err
      Runs (Command.other type) t err = ⊥

      -- The goroutines of a concurrent command, with the errors of those that fail.
      pub RunAll : Commands → Trace → List N.Err → Type 0
      RunAll Commands.nil t errors = (t ≡ []) × (errors ≡ [])
      RunAll (Commands.cons c cs) t errors =
          (own : Trace) × (err : Option N.Err) × (rest : Trace) × (rest_errors : List N.Err) × Runs
            c own err
          × RunAll cs rest rest_errors
          × Merge own rest t
          × (errors ≡ keep err rest_errors)

  -- ServeHTTP: the steps of the script, up to the first that returns an error.
  abbrev pub RunScript : Header → Dict ServiceType → Commands → Trace → Option N.Err → Type 0
  RunScript header types Commands.nil t err = (t ≡ []) × (err ≡ none)
  RunScript header types (Commands.cons c cs) t err =
      (own : Trace) × (failed : Option N.Err) × Runs (extract_forwardable_header header) types c own
        failed
      × elim failed [
        | none ↦ (rest : Trace) × RunScript header types cs rest err × (t ≡ own ++ rest)
        | some e ↦ (t ≡ own) × (err ≡ some e)
      ]

  -- The handler for a request with the header.
  abbrev pub Serves : Handler → Header → Trace → Type 0
  Serves h header t =
      (body : Trace) × (err : Option N.Err) × RunScript header h.service_types h.service.script body
        err
      × (t ≡ received ∷ (body ++ respond (status_of N err)))
