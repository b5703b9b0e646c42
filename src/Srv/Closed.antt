-- ===== src/Srv/Closed.antt =====
-- Properties of traces that hold of all runs, as they hold of single events and of what is put together.
use mathlib.Core.Path.{subst}
use isotope.Base.{ℕ, String, ◌+◌, ◌≡◌, refl, sym, Option, none, some, List, [], ◌∷◌, ◌++◌, arith}
use isotope.Base.Int.{ℤ}
use isotope.Base.Dict.{Dict, lookup}
use isotope.Graph.Script.Types.{Command, Commands, RequestCommand}
use isotope.Graph.ServiceType.{ServiceType}
use isotope.Srv.Header.{Header, extract_forwardable_header}
use isotope.Srv.Request.{Request, build_request, url_of}
use isotope.Srv.Execute.{
  Net, Event, slept, refused, sent, unanswered, answered, recorded_sent, drained, Trace, no_service,
  bad_request, receive, refuse, send_request, execute_request_command,
}
use isotope.Srv.Runs.{Merge, done, left, right, Runs, RunAll, RunScript}

pub record IsClosed (T : Trace → Type 0) : Type 0 where
  pub nil : T []
  pub append : (xs ys : Trace) → T xs → T ys → T (xs ++ ys)
  pub merge : {xs ys zs : Trace} → Merge xs ys zs → T xs → T ys → T zs
  pub sleeps : (d : ℤ) → T (slept d ∷ [])
  pub missing : (name : String) → T (refused (no_service name) ∷ [])
  pub bad : (name : String) → T (refused (bad_request name) ∷ [])
  pub failed : (name : String) (q : Request) → T (sent q ∷ unanswered name ∷ [])
  pub returned :
      (name : String) (size status : ℕ) (q : Request)
      → T (sent q ∷ answered name status ∷ recorded_sent name size ∷ drained name ∷ [])

module _ (N : Net) (T : Trace → Type 0) (closed : IsClosed T) (types : Dict ServiceType) where
  request-closed :
      (header : Header) (r : RequestCommand) (answer : Option ℕ)
      → T (execute_request_command N r header types answer).0
  unfolding execute_request_command send_request refuse receive
  request-closed header r answer = from_type (lookup types r.service_name) refl
    where
      from_answer :
          (q : Request) (answer : Option ℕ) → T (receive N r.service_name r.size q answer).0
      from_answer q none = closed.failed r.service_name q
      from_answer q (some status) = closed.returned r.service_name r.size status q

      from_request :
          (o : Option Request)
          → build_request N.new_request (url_of r.service_name) r.size header ≡ o
          → T (send_request N r.service_name r.size header answer).0
      from_request none e = rw (e, send_request, refuse) (closed.bad r.service_name)
      from_request (some q) e = rw (e, send_request) (from_answer q answer)

      from_type :
          (o : Option ServiceType)
          → lookup types r.service_name ≡ o
          → T (execute_request_command N r header types answer).0
      from_type none e = rw (e, execute_request_command, refuse) (closed.missing r.service_name)
      from_type (some type) e =
          rw (e, execute_request_command)
            (from_request (build_request N.new_request (url_of r.service_name) r.size header) refl)

  module _ (header : Header) where
    mutual
      Runs-closed :
          (c : Command) (t : Trace) (err : Option N.Err) → Runs N header types c t err → T t
      Runs-closed (Command.sleep d) t err (e, f) = subst T (sym e) (closed.sleeps d)
      Runs-closed (Command.request r) t err (answer, e, _) =
          subst (λ x. T x.0) e (request-closed header r answer)
      Runs-closed (Command.concurrent cs) t err (errors, all, race) = RunAll-closed cs t errors all
      Runs-closed (Command.other type) t err h = absurd h

      RunAll-closed :
          (cs : Commands) (t : Trace) (errors : List N.Err)
          → RunAll N header types cs t errors
          → T t
      RunAll-closed Commands.nil t errors (e, f) = subst T (sym e) closed.nil
      RunAll-closed (Commands.cons c cs) t errors (own, err, rest, rest_errors, one, others, m, e) =
          closed.merge m (Runs-closed c own err one) (RunAll-closed cs rest rest_errors others)

  pub RunScript-closed :
      (header : Header) (cs : Commands) (t : Trace) (err : Option N.Err)
      → RunScript N header types cs t err
      → T t
  RunScript-closed header Commands.nil t err (e, f) = subst T (sym e) closed.nil
  RunScript-closed header (Commands.cons c cs) t err (own, some x, runs, (e, f)) =
      subst T (sym e) (Runs-closed (extract_forwardable_header header) c own (some x) runs)
  RunScript-closed header (Commands.cons c cs) t err (own, none, runs, (rest, others, e)) =
      subst T (sym e) (
        closed.append own rest (Runs-closed (extract_forwardable_header header) c own none runs)
          (RunScript-closed header cs rest err others))

-- The sum of a number for each event.
abbrev pub total : (Event → ℕ) → Trace → ℕ
total f [] = 0
total f (e ∷ t) = f e + total f t

pub total-append : (f : Event → ℕ) (xs ys : Trace) → total f (xs ++ ys) ≡ total f xs + total f ys
total-append f [] ys = omega arith
total-append f (e ∷ xs) ys = omega (arith, total-append f xs ys)

pub total-Merge :
    (f : Event → ℕ) {xs ys zs : Trace} → Merge xs ys zs → total f zs ≡ total f xs + total f ys
total-Merge f done = omega arith
total-Merge f (left e m) = omega (arith, total-Merge f m)
total-Merge f (right e m) = omega (arith, total-Merge f m)
