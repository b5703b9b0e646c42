-- ===== src/Srv/Failures.antt =====
-- The error that a command returns, and the failures seen on the way.
use mathlib.Core.Path.{subst}
use isotope.Base.{
  Bool, true, false, ℕ, String, nat_eq, Option-cases, if◌then◌else◌, ◌≡◌, refl, sym, ◌⊎◌, inl, inr,
  Option, none, some, List, [], ◌∷◌, Any, All, arith,
}
use isotope.Base.Dict.{Dict, lookup}
use isotope.Graph.Script.Types.{Command, Commands, RequestCommand}
use isotope.Graph.ServiceType.{ServiceType}
use isotope.Srv.Header.{Header}
use isotope.Srv.Execute.{
  Net, Event, Trace, execute_request_command, responded_with, receive, refuse, send_request,
}
use isotope.Graph.Size.{ByteSize}
use isotope.Srv.Request.{Request, build_request, url_of}
use isotope.Srv.Runs.{Merge, done, left, right, Runs, RunAll, keep, Race}
use isotope.Srv.Race.{Race-iff}

-- A call that the code refuses, that gets no response, or one with status 500.
abbrev pub IsFailure : Event → Type 0
IsFailure (Event.refused e) = Unit
IsFailure (Event.unanswered name) = Unit
IsFailure (Event.answered name status) = status ≡ 500
IsFailure _ = ⊥

module _ (P : Event → Type 0) where
  pub Merge-All : {xs ys zs : Trace} → Merge xs ys zs → All P xs → All P ys → All P zs
  Merge-All done h k = tt
  Merge-All (left e m) h k = (h.0, Merge-All m h.1 k)
  Merge-All (right e m) h k = (k.0, Merge-All m h k.1)

  pub Merge-Any_cases : {xs ys zs : Trace} → Merge xs ys zs → Any P zs → Any P xs ⊎ Any P ys
  Merge-Any_cases done h = absurd h
  Merge-Any_cases (left e m) (inl h) = inl (inl h)
  Merge-Any_cases (left e m) (inr h) = elim (Merge-Any_cases m h) [
    | inl a ↦ inl (inr a)
    | inr b ↦ inr b
  ]
  Merge-Any_cases (right e m) (inl h) = inr (inl h)
  Merge-Any_cases (right e m) (inr h) = elim (Merge-Any_cases m h) [
    | inl a ↦ inl a
    | inr b ↦ inr (inr b)
  ]

  pub Merge-Any_left : {xs ys zs : Trace} → Merge xs ys zs → Any P xs → Any P zs
  Merge-Any_left done h = elim h [ ]
  Merge-Any_left (left e m) (inl h) = inl h
  Merge-Any_left (left e m) (inr h) = inr (Merge-Any_left m h)
  Merge-Any_left (right e m) h = inr (Merge-Any_left m h)

  pub Merge-Any_right : {xs ys zs : Trace} → Merge xs ys zs → Any P ys → Any P zs
  Merge-Any_right done h = elim h [ ]
  Merge-Any_right (right e m) (inl h) = inl h
  Merge-Any_right (right e m) (inr h) = inr (Merge-Any_right m h)
  Merge-Any_right (left e m) h = inr (Merge-Any_right m h)

module _ (N : Net) where
  -- An error stands for a failure, and no error for none.
  abbrev pub Tells : Trace → Option N.Err → Type 0
  Tells t none = Any IsFailure t → ⊥
  Tells t (some err) = Any IsFailure t

  abbrev TellsAll : Trace → List N.Err → Type 0
  TellsAll t [] = Any IsFailure t → ⊥
  TellsAll t (err ∷ errors) = Any IsFailure t

  BothTell : Trace × Option N.Err → Type 0
  BothTell x = Tells x.0 x.1

  answered-Tells :
      (name : String) (size : ByteSize) (q : Request) (status : ℕ) (failed : Bool)
      → nat_eq status 500 ≡ failed
      → Tells
          (Event.sent q
            ∷ Event.answered name status
            ∷ Event.recorded_sent name size
            ∷ Event.drained name
            ∷ [])
          (if failed then some (N.call_error (responded_with name status)) else none)
  answered-Tells name size q status true h = inr (inl (ground (arith, h)))
  answered-Tells name size q status false h = no_failure
    where
      no_failure :
          Any IsFailure (
            Event.sent q
            ∷ Event.answered name status
            ∷ Event.recorded_sent name size
            ∷ Event.drained name
            ∷ [])
          → ⊥
      no_failure (inl k) = k
      no_failure (inr (inl k)) = ground (arith, h, k)
      no_failure (inr (inr (inl k))) = k
      no_failure (inr (inr (inr (inl k)))) = k
      no_failure (inr (inr (inr (inr k)))) = k

  receive-Tells :
      (name : String) (size : ByteSize) (q : Request) (answer : Option ℕ)
      → BothTell (receive N name size q answer)
  unfolding BothTell receive
  receive-Tells name size q none = inr (inl tt)
  receive-Tells name size q (some status) =
      answered-Tells name size q status (nat_eq status 500) refl

  send_request-Tells :
      (name : String) (size : ByteSize) (header : Header) (answer : Option ℕ)
      → BothTell (send_request N name size header answer)
  unfolding send_request BothTell
  send_request-Tells name size header answer =
      elim (Option-cases (build_request N.new_request (url_of name) size header)) [
        | inl bad ↦ rw (bad, send_request, refuse, BothTell) (inl tt)
        | inr (q, built) ↦ rw (built, send_request) (receive-Tells name size q answer)
      ]

  request-Tells :
      (header : Header) (types : Dict ServiceType) (r : RequestCommand) (answer : Option ℕ)
      → BothTell (execute_request_command N r header types answer)
  unfolding execute_request_command BothTell
  request-Tells header types r answer = elim (Option-cases (lookup types r.service_name)) [
    | inl missing ↦ rw (missing, execute_request_command, refuse, BothTell) (inl tt)
    | inr (type, found) ↦
        rw (found, execute_request_command) (send_request-Tells r.service_name r.size header answer)
  ]

  Race-Tells :
      (t : Trace) (errors : List N.Err) (err : Option N.Err)
      → Race N errors err
      → TellsAll t errors
      → Tells t err
  Race-Tells t [] none race h = h
  Race-Tells t [] (some e) race h = absurd (ground (arith, Race-iff N [] (some e) race))
  Race-Tells t (x ∷ errors) none race h = absurd (ground (arith, Race-iff N (x ∷ errors) none race))
  Race-Tells t (x ∷ errors) (some e) race h = h

  Merge-TellsAll :
      (own rest t : Trace) (err : Option N.Err) (errors : List N.Err)
      → Merge own rest t
      → Tells own err
      → TellsAll rest errors
      → TellsAll t (keep N err errors)
  Merge-TellsAll own rest t (some e) errors m h k = Merge-Any_left IsFailure m h
  Merge-TellsAll own rest t none (e ∷ errors) m h k = Merge-Any_right IsFailure m k
  Merge-TellsAll own rest t none [] m h k =
      λ a. elim (Merge-Any_cases IsFailure m a) [ inl b ↦ h b | inr b ↦ k b ]

  module _ (header : Header) (types : Dict ServiceType) where
    mutual
      unfolding BothTell

      command-Tells :
          (c : Command) (t : Trace) (err : Option N.Err) → Runs N header types c t err → Tells t err
      command-Tells (Command.sleep d) t err (e, f) =
          subst (λ x. Tells x err) (sym e)
            (subst (λ y. Tells (Event.slept d ∷ []) y) (sym f)
              (λ a. elim a [ inl k ↦ k | inr k ↦ k ]))
      command-Tells (Command.request r) t err (answer, e, _) =
          subst BothTell e (request-Tells header types r answer)
      command-Tells (Command.concurrent cs) t err (errors, all, race) =
          Race-Tells t errors err race (RunAll-TellsAll cs t errors all)
      command-Tells (Command.other type) t err h = absurd h

      RunAll-TellsAll :
          (cs : Commands) (t : Trace) (errors : List N.Err)
          → RunAll N header types cs t errors
          → TellsAll t errors
      RunAll-TellsAll Commands.nil t errors (e, f) =
          subst (λ x. TellsAll x errors) (sym e) (subst (TellsAll []) (sym f) (λ k. k))
      RunAll-TellsAll (Commands.cons c cs) t errors
            (own, err, rest, rest_errors, one, others, m, e) =
          subst (TellsAll t) (sym e) (
            Merge-TellsAll own rest t err rest_errors m (command-Tells c own err one)
              (RunAll-TellsAll cs rest rest_errors others))

    -- A command that returns an error has met a failed call, and one that returns none has met
    -- no failed call, whatever the order of the goroutines and of their accesses to `errs`.
    pub Runs-Tells :
        (c : Command) (t : Trace) (err : Option N.Err) → Runs N header types c t err → Tells t err
    Runs-Tells c t err h = command-Tells c t err h
