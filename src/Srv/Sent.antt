-- ===== src/Srv/Sent.antt =====
-- The events of the commands, and what is true of each: for the requests sent, what they are.
use mathlib.Core.Path.{subst}
use isotope.Base.{ℕ, ◌≡◌, refl, sym, Option, none, some, List, All, All-append}
use isotope.Base.Int.{ℤ}
use isotope.Base.Dict.{Dict, lookup}
use isotope.Graph.Script.Types.{Command, Commands, RequestCommand}
use isotope.Graph.ServiceType.{ServiceType}
use isotope.Srv.Header.{Header, extract_forwardable_header}
use isotope.Srv.Execute.{
  Net, Event, Trace, no_service, bad_request, receive, refuse, send_request,
  execute_request_command, respond, status_of,
}
use isotope.Srv.Lookup.{Handler}
use isotope.Srv.Request.{Request, build_request, url_of}
use isotope.Srv.Runs.{Runs, RunAll, RunScript, Serves}
use isotope.Srv.Failures.{Merge-All}

-- A property of each request of a command, at any depth.
module _ (Q : RequestCommand → Type 0) where
  abbrev mutual
    pub AllRequests : Command → Type 0
    AllRequests (Command.request r) = Q r
    AllRequests (Command.concurrent cs) = AllRequestsOf cs
    AllRequests (Command.sleep d) = Unit
    AllRequests (Command.other type) = Unit

    pub AllRequestsOf : Commands → Type 0
    AllRequestsOf Commands.nil = Unit
    AllRequestsOf (Commands.cons c cs) = AllRequests c × AllRequestsOf cs

module _ (N : Net) (P : Event → Type 0) (Q : RequestCommand → Type 0)
    (types : Dict ServiceType) where
  abbrev Holds : Header → Type 0
  Holds header =
      (r : RequestCommand) (answer : Option ℕ)
      → Q r
      → All P (execute_request_command N r header types answer).0

  module _ (header : Header) (sleeps : (d : ℤ) → P (Event.slept d)) (requests : Holds header) where
    mutual
      Runs-All :
          (c : Command) (t : Trace) (err : Option N.Err)
          → AllRequests Q c
          → Runs N header types c t err
          → All P t
      Runs-All (Command.sleep d) t err q (e, f) = subst (All P) (sym e) (sleeps d, tt)
      Runs-All (Command.request r) t err q (answer, e, _) =
          subst (λ x. All P (x.0)) e (requests r answer q)
      Runs-All (Command.concurrent cs) t err q (errors, all, race) = RunAll-All cs t errors q all
      Runs-All (Command.other type) t err q h = absurd h

      RunAll-All :
          (cs : Commands) (t : Trace) (errors : List N.Err)
          → AllRequestsOf Q cs
          → RunAll N header types cs t errors
          → All P t
      RunAll-All Commands.nil t errors q (e, f) = subst (All P) (sym e) tt
      RunAll-All (Commands.cons c cs) t errors q (own, err, rest, rest_errors, one, others, m, e) =
          Merge-All P m (Runs-All c own err q.0 one) (RunAll-All cs rest rest_errors q.1 others)

  module _ (header : Header) (sleeps : (d : ℤ) → P (Event.slept d))
      (requests : Holds (extract_forwardable_header header)) where
    pub script-All :
        (cs : Commands) (t : Trace) (err : Option N.Err)
        → AllRequestsOf Q cs
        → RunScript N header types cs t err
        → All P t
    script-All Commands.nil t err q (e, f) = subst (All P) (sym e) tt
    script-All (Commands.cons c cs) t err q (own, some x, runs, (e, f)) =
        subst (All P) (sym e)
          (Runs-All (extract_forwardable_header header) sleeps requests c own (some x) q.0 runs)
    script-All (Commands.cons c cs) t err q (own, none, runs, (rest, others, e)) =
        subst (All P) (sym e) (
          All-append P own rest
            (Runs-All (extract_forwardable_header header) sleeps requests c own none q.0 runs)
            (script-All cs rest err q.1 others))

  -- The events of one request, each with what is known where it happens.
  pub request-All :
      (header : Header) (r : RequestCommand) (answer : Option ℕ)
      → (lookup types r.service_name ≡ none → P (Event.refused (no_service r.service_name)))
      → P (Event.refused (bad_request r.service_name))
      → ((q : Request)
          → build_request N.new_request (url_of r.service_name) r.size header ≡ some q
          → P (Event.sent q))
      → P (Event.unanswered r.service_name)
      → ((status : ℕ) → P (Event.answered r.service_name status))
      → P (Event.recorded_sent r.service_name r.size)
      → P (Event.drained r.service_name)
      → All P (execute_request_command N r header types answer).0
  unfolding execute_request_command send_request refuse receive
  request-All header r answer missing bad sent unanswered answered recorded drained =
      from_type (lookup types r.service_name) refl
    where
      from_answer :
          (q : Request) (answer : Option ℕ)
          → P (Event.sent q)
          → All P (receive N r.service_name r.size q answer).0
      from_answer q none h = (h, (unanswered, tt))
      from_answer q (some status) h = (h, (answered status, (recorded, (drained, tt))))

      from_request :
          (o : Option Request)
          → build_request N.new_request (url_of r.service_name) r.size header ≡ o
          → All P (send_request N r.service_name r.size header answer).0
      from_request none e = rw (e, send_request, refuse) (bad, tt)
      from_request (some q) e = rw (e, send_request) (from_answer q answer (sent q e))

      from_type :
          (o : Option ServiceType)
          → lookup types r.service_name ≡ o
          → All P (execute_request_command N r header types answer).0
      from_type none e = rw (e, execute_request_command, refuse) (missing e, tt)
      from_type (some type) e =
          rw (e, execute_request_command)
            (from_request (build_request N.new_request (url_of r.service_name) r.size header) refl)

  -- The events of the handler: its own, and those of the script.
  pub Serves-All :
      (h : Handler) (header : Header) (t : Trace)
      → types ≡ h.service_types
      → ((d : ℤ) → P (Event.slept d))
      → Holds (extract_forwardable_header header)
      → P Event.received
      → ((status : ℕ) → P (Event.responded status) × P (Event.recorded_response 0 status))
      → AllRequestsOf Q h.service.script
      → Serves N h header t
      → All P t
  Serves-All h header t e sleeps requests received responded q (body, err, runs, e') =
      subst (All P) (sym e') (
        received,
        All-append P body (respond (status_of N err))
            (script-All header sleeps requests h.service.script body err q
              (subst (λ x. RunScript N header x h.service.script body err) (sym e) runs))
            ((responded (status_of N err)).0, ((responded (status_of N err)).1, tt)),
      )

module _ {Q : RequestCommand → Type 0} (all : (r : RequestCommand) → Q r) where
  mutual
    AllRequests-const : (c : Command) → AllRequests Q c
    AllRequests-const (Command.request r) = all r
    AllRequests-const (Command.concurrent cs) = AllRequestsOf-const cs
    AllRequests-const (Command.sleep d) = tt
    AllRequests-const (Command.other type) = tt

    pub AllRequestsOf-const : (cs : Commands) → AllRequestsOf Q cs
    AllRequestsOf-const Commands.nil = tt
    AllRequestsOf-const (Commands.cons c cs) = (AllRequests-const c, AllRequestsOf-const cs)
