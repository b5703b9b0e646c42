-- ===== src/Srv/Metrics/Agree.antt =====
-- Numbers that are summed alike over the events of every run of the handler.
use mathlib.Core.Path.{subst}
use isotope.Base.{ℕ, String, ◌≡◌, refl, sym, [], ◌∷◌, ◌++◌, arith}
use isotope.Base.Int.{ℤ}
use isotope.Srv.Request.{Request}
use isotope.Srv.Lookup.{Handler}
use isotope.Srv.Header.{Header}
use isotope.Srv.Execute.{
  Net, Event, received, slept, refused, sent, unanswered, answered, recorded_sent, drained,
  no_service, bad_request, Trace, respond, status_of,
}
use isotope.Srv.Runs.{Merge, Serves}
use isotope.Srv.Closed.{IsClosed, RunScript-closed, total, total-append, total-Merge}

-- The events of the script that two numbers are summed over alike.
abbrev pub Alike : (Event → ℕ) → (Event → ℕ) → Trace → Type 0
Alike f g t = total f t ≡ total g t

module _ (f g : Event → ℕ) where
  Alike-append : (xs ys : Trace) → Alike f g xs → Alike f g ys → Alike f g (xs ++ ys)
  Alike-append xs ys h k = omega (arith, total-append f xs ys, total-append g xs ys, h, k)

  Alike-Merge : {xs ys zs : Trace} → Merge xs ys zs → Alike f g xs → Alike f g ys → Alike f g zs
  Alike-Merge m h k = omega (arith, total-Merge f m, total-Merge g m, h, k)

  -- Two numbers that agree on what a run is put together of agree on the run.
  pub record Agree : Type 0 where
    pub sleeps : (d : ℤ) → Alike f g (slept d ∷ [])
    pub missing : (name : String) → Alike f g (refused (no_service name) ∷ [])
    pub bad : (name : String) → Alike f g (refused (bad_request name) ∷ [])
    pub failed : (name : String) (q : Request) → Alike f g (sent q ∷ unanswered name ∷ [])
    pub returned :
        (name : String) (size status : ℕ) (q : Request)
        → Alike f g (sent q ∷ answered name status ∷ recorded_sent name size ∷ drained name ∷ [])
    pub first : f received ≡ g received
    pub last : (status : ℕ) → Alike f g (respond status)

  Agree-IsClosed : Agree → IsClosed (Alike f g)
  Agree-IsClosed a = record {
    nil = refl;
    append = Alike-append;
    merge = Alike-Merge;
    sleeps = a.sleeps;
    missing = a.missing;
    bad = a.bad;
    failed = a.failed;
    returned = a.returned;
  }

  pub Agree-Serves :
      (N : Net) (h : Handler) (header : Header) (t : Trace)
      → Agree
      → Serves N h header t
      → Alike f g t
  Agree-Serves N h header t a (body, err, runs, e) = subst (Alike f g) (sym e) (
      omega (
        arith,
        a.first,
        Alike-append body (respond (status_of N err))
            (RunScript-closed N (Alike f g) (Agree-IsClosed a) h.service_types header
              h.service.script body err runs)
            (a.last (status_of N err)),
      ))
