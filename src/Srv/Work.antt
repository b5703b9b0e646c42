-- ===== src/Srv/Work.antt =====
-- How many calls of its script a handler makes.
pub mod Sums
use mathlib.Core.Path.{subst}
use isotope.Base.{
  ℕ, ◌+◌, ◌≤◌, String, ◌==◌, if◌then◌else◌, ◌≡◌, ◌⊎◌, refl, sym, ap, ◌∙◌, Option, Option-cases,
  none, some, List, [], ◌∷◌, ◌++◌, inl, inr, arith,
}
use isotope.Base.Int.{ℤ}
use isotope.Base.Dict.{Dict, lookup}
use isotope.Graph.Script.Types.{Command, Commands, RequestCommand}
use isotope.Graph.ServiceType.{ServiceType}
use isotope.Srv.Header.{Header, extract_forwardable_header}
use isotope.Srv.Lookup.{Handler}
use isotope.Srv.Request.{Request, build_request, url_of}
use isotope.Srv.Execute.{
  Net, Event, CallError, no_service, bad_request, received, sent, Trace, receive, refuse,
  send_request, execute_request_command, respond, status_of,
}
use isotope.Srv.Runs.{Runs, RunAll, RunScript, Serves, keep}
use isotope.Srv.Race.{Race-iff}
use isotope.Srv.Closed.{total, total-append, total-Merge}
use isotope.Srv.Metrics.Count.{is_answer}
use isotope.Srv.Work.Sums.{work_all, Does, DoesPair, RunScript-Does}

-- A request sent.
abbrev pub is_sent : Event → ℕ
is_sent (Event.sent q) = 1
is_sent _ = 0

abbrev pub calls_to : String → RequestCommand → ℕ
calls_to dest r = if r.service_name == dest then 1 else 0

abbrev pub one_call : RequestCommand → ℕ
one_call r = 1

module _ (N : Net) (f : Event → ℕ) (g : RequestCommand → ℕ) (header : Header)
    (types : Dict ServiceType) where
  -- One call, of a number that is at most its own if it fails, and its own if it gets a response.
  pub request-Does :
      (r : RequestCommand) (answer : Option ℕ)
      → ((e : CallError) → f (Event.refused e) ≡ 0)
      → ((q : Request)
          → build_request N.new_request (url_of r.service_name) r.size header ≡ some q
          → total f (sent q ∷ Event.unanswered r.service_name ∷ []) ≤ g r)
      → ((q : Request) (status : ℕ)
          → build_request N.new_request (url_of r.service_name) r.size header ≡ some q
          → total f (
              sent q
              ∷ Event.answered r.service_name status
              ∷ Event.recorded_sent r.service_name r.size
              ∷ Event.drained r.service_name
              ∷ [])
            ≡ g r)
      → DoesPair N f (g r) (execute_request_command N r header types answer)
  unfolding execute_request_command send_request refuse receive
  request-Does r answer refused unanswered answered =
      elim (Option-cases (lookup types r.service_name)) [
        | inl missing ↦
            rw (missing, execute_request_command, refuse)
              (omega (arith, refused (no_service r.service_name)), λ k. cc)
        | inr (type, found) ↦
            rw (found, execute_request_command)
              (elim (Option-cases
                (build_request N.new_request (url_of r.service_name) r.size header)) [
                  | inl bad ↦
                      rw (bad, send_request, refuse)
                        (omega (arith, refused (bad_request r.service_name)), λ k. cc)
                  | inr (q, built) ↦ rw (built, send_request) (received_answer q built answer)
                ])
      ]
    where
      received_answer :
          (q : Request)
          → build_request N.new_request (url_of r.service_name) r.size header ≡ some q
          → (answer : Option ℕ) → DoesPair N f (g r) (receive N r.service_name r.size q answer)
      received_answer q built none = (unanswered q built, λ k. cc)
      received_answer q built (some status) =
          (omega (arith, answered q status built), λ k. answered q status built)

-- The responses of a service in the run of a script, beside the calls of it.
pub RunScript-answers :
    (N : Net) (h : Handler) (header : Header) (body : Trace) (err : Option N.Err) (dest : String)
    → RunScript N header h.service_types h.service.script body err
    → Does N (is_answer dest) (work_all (calls_to dest) h.service.script) body err
RunScript-answers N h header body err dest runs =
    RunScript-Does N (is_answer dest) (calls_to dest) header h.service_types (λ d. refl)
      (λ r answer.
        request-Does N (is_answer dest) (calls_to dest) (extract_forwardable_header header)
          h.service_types r answer (λ e. refl) (λ q built. omega arith)
          (λ q status built. omega arith))
      h.service.script body err runs

-- In every run of the handler that responds with 200, all calls of the script have been sent, and each
-- service has responded to all calls of it. Every other run responds with 500, and then no more calls
-- have been sent than the script has, and no service has responded to more than the script has of it.
pub Serves-Does :
    (N : Net) (h : Handler) (header : Header) (t : Trace)
    → Serves N h header t
    → (body : Trace) × (status : ℕ) × (t ≡ received ∷ (body ++ respond status))
      × (((status ≡ 200)
            × (total is_sent body ≡ work_all one_call h.service.script)
            × ((dest : String)
                → total (is_answer dest) body ≡ work_all (calls_to dest) h.service.script))
          ⊎ ((status ≡ 500)
              × (total is_sent body ≤ work_all one_call h.service.script)
              × ((dest : String)
                  → total (is_answer dest) body ≤ work_all (calls_to dest) h.service.script)))
Serves-Does N h header t (body, err, runs, e) = (
  body,
  status_of N err,
  e,
  by_status err (sends err runs) (λ dest. RunScript-answers N h header body err dest runs),
)
  where
    sends :
        (err : Option N.Err)
        → RunScript N header h.service_types h.service.script body err
        → Does N is_sent (work_all one_call h.service.script) body err
    sends err runs =
        RunScript-Does N is_sent one_call header h.service_types (λ d. refl)
          (λ r answer.
            request-Does N is_sent one_call (extract_forwardable_header header) h.service_types r
              answer (λ e. refl) (λ q built. omega arith) (λ q status built. refl))
          h.service.script body err runs

    by_status :
        (err : Option N.Err)
        → Does N is_sent (work_all one_call h.service.script) body err
        → ((dest : String)
            → Does N (is_answer dest) (work_all (calls_to dest) h.service.script) body err)
        → ((status_of N err ≡ 200)
            × (total is_sent body ≡ work_all one_call h.service.script)
            × ((dest : String)
                → total (is_answer dest) body ≡ work_all (calls_to dest) h.service.script))
          ⊎ ((status_of N err ≡ 500)
              × (total is_sent body ≤ work_all one_call h.service.script)
              × ((dest : String)
                  → total (is_answer dest) body ≤ work_all (calls_to dest) h.service.script))
    by_status none calls answered = inl (refl, calls.1 refl, λ dest. (answered dest).1 refl)
    by_status (some x) calls answered = inr (refl, calls.0, λ dest. (answered dest).0)
