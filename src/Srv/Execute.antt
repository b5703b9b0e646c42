-- ===== src/Srv/Execute.antt =====
-- service/pkg/srv/executable.go and handler.go: what a handler does for one incoming request.
use isotope.Base.{
  ℕ, String, ◌<>◌, Option, none, some, List, [], ◌∷◌, ◌++◌, ◌⊎◌, ◌≤◌, ◌≡◌, Bool, true, leb, nat_eq,
  if◌then◌else◌,
}
use isotope.Base.Int.{ℤ}
use isotope.Base.Dict.{Dict, lookup}
use isotope.Base.Result.{Result, ok, err, ◌>>=◌}
use isotope.Graph.Script.Types.{Command, Commands, RequestCommand}
use isotope.Graph.Size.{ByteSize}
use isotope.Graph.ServiceType.{ServiceType}
use isotope.Srv.Header.{Header, extract_forwardable_header}
use isotope.Srv.Lookup.{Handler}
use isotope.Srv.Request.{Request, NewRequest, build_request, url_of}

-- Why a call failed.
pub data CallError : Type 0 where
  no_service : String → CallError
  bad_request : String → CallError
  no_answer : String → CallError
  responded_with : String → ℕ → CallError

-- What the code calls: `http.NewRequest`, and errors, where `append errs err` is
-- `multierror.Append(errs, err)`, which never returns nil.
pub record Net : Type 1 where
  pub new_request : NewRequest
  -- the largest n for which `make([]byte, n)` does not panic
  pub max_slice : ℕ
  pub Err : Type 0
  pub call_error : CallError → Err
  pub append : Option Err → Err → Err

-- What can be seen of a handler from outside, in the order of time.
pub data Event : Type 0 where
  -- prometheus.RecordRequestReceived
  received : Event
  slept : ℤ → Event
  -- a call that the code itself refuses, as the service or the url is no good
  refused : CallError → Event
  sent : Request → Event
  -- the client returns an error in place of a response
  unanswered : String → Event
  -- prometheus.RecordRequestSent
  recorded_sent : String → ℕ → Event
  answered : String → ℕ → Event
  -- the body of a response is read to its end and closed
  drained : String → Event
  -- writer.WriteHeader, and the request written back
  responded : ℕ → Event
  -- prometheus.RecordResponseSent, with the size and the status
  recorded_response : ℕ → ℕ → Event

abbrev pub Trace : Type 0
Trace = List Event

-- `respond` in ServeHTTP
abbrev pub respond : ℕ → Trace
respond status = responded status ∷ recorded_response 0 status ∷ []

module _ (N : Net) where
  abbrev pub status_of : Option N.Err → ℕ
  status_of none = 200
  status_of (some failed) = 500

  -- The response of the client: `none` is an error, and a number is a status.
  unfoldable pub receive : String → ByteSize → Request → Option ℕ → Trace × Option N.Err
  receive name size q none = (sent q ∷ unanswered name ∷ [], some (N.call_error (no_answer name)))
  receive name size q (some status) = (
    sent q ∷ answered name status ∷ recorded_sent name size ∷ drained name ∷ [],
    if nat_eq status 500 then some (N.call_error (responded_with name status)) else none,
  )

  unfoldable pub refuse : CallError → Trace × Option N.Err
  refuse e = (refused e ∷ [], some (N.call_error e))

  -- sendRequest, and what is made of its results.
  unfoldable pub send_request : String → ByteSize → Header → Option ℕ → Trace × Option N.Err
  unfolding receive refuse
  send_request name size header answer =
      elim (build_request N.new_request (url_of name) size header) [
        | none ↦ refuse (bad_request name)
        | some q ↦ receive name size q answer
      ]

  unfoldable pub execute_request_command :
      RequestCommand → Header → Dict ServiceType → Option ℕ → Trace × Option N.Err
  unfolding send_request refuse
  execute_request_command cmd header types answer = elim (lookup types cmd.service_name) [
    | none ↦ refuse (no_service cmd.service_name)
    | some dest_type ↦ send_request cmd.service_name cmd.size header answer
  ]

  -- `make([]byte, size)` for the payload does not panic, or is not reached as the service is unknown.
  abbrev pub MakesPayload : Dict ServiceType → RequestCommand → Type 0
  MakesPayload types cmd = (lookup types cmd.service_name ≡ none) ⊎ (cmd.size ≤ N.max_slice)

  -- The same as a test.
  unfoldable pub makes_payload : Dict ServiceType → RequestCommand → Bool
  makes_payload types cmd = elim (lookup types cmd.service_name) [
    | none ↦ true
    | some dest_type ↦ leb cmd.size N.max_slice
  ]

  unfoldable pub append_error : Option N.Err → Option N.Err → Option N.Err
  append_error errs none = errs
  append_error errs (some failed) = some (N.append errs failed)

  -- `execute`, run with the goroutines of a concurrent command one after the other, where `ask`
  -- gives the response of a service. `Runs` has every other order too. A command of another
  -- type ends the program, as log.Fatalf does, and a call whose payload is too large panics.
  module _ (ask : String → Option ℕ) (header : Header) (types : Dict ServiceType) where
    unfoldable mutual
      unfolding append_error makes_payload

      pub execute : Command → Result String (Trace × Option N.Err)
      execute (Command.sleep d) = ok (slept d ∷ [], none)
      execute (Command.request r) =
          if makes_payload types r
          then ok (execute_request_command r header types (ask r.service_name))
          else err "makeslice: len out of range"
      execute (Command.concurrent cs) = execute_all cs none
      execute (Command.other type) = err ("unknown command type in script: " <> type)

      -- With what `errs` is before.
      pub execute_all : Commands → Option N.Err → Result String (Trace × Option N.Err)
      execute_all Commands.nil errs = ok ([], errs)
      execute_all (Commands.cons c cs) errs = do
        (own, failed) ← execute c
        (rest, errs') ← execute_all cs (append_error errs failed)
        ok (own ++ rest, errs')

  -- The loop of ServeHTTP over the steps of the script, up to the first that returns an error.
  module _ (ask : String → Option ℕ) (header : Header) (types : Dict ServiceType) where
    unfoldable pub run_script : Commands → Result String (Trace × Option N.Err)
    run_script Commands.nil = ok ([], none)
    run_script (Commands.cons c cs) = do
      (own, failed) ← execute ask (extract_forwardable_header header) types c
      elim failed [
        | some e ↦ ok (own, some e)
        | none ↦ do (rest, failed') ← run_script cs; ok (own ++ rest, failed')
      ]

  unfoldable pub serve_http : (String → Option ℕ) → Handler → Header → Result String Trace
  serve_http ask h header = do
    (body, failed) ← run_script ask header h.service_types h.service.script
    ok (received ∷ (body ++ respond (status_of failed)))
