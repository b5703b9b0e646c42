-- ===== src/Srv/Race.antt =====
-- The variable `errs` that the goroutines of a concurrent command share.
use mathlib.Core.Path.{subst}
use isotope.Base.{
  ℕ, ◌+◌, ◌≡◌, ◌↔◌, refl, ap, sym, Option, none, some, List, [], ◌∷◌, length, length-append, arith,
}
use isotope.Srv.Execute.{Net}
use isotope.Srv.Runs.{Racing, reads, writes, RaceSteps, stop, step, Race, keep}

module _ (N : Net) where
  abbrev IsNonNil : Option N.Err → Type 0
  IsNonNil none = ⊥
  IsNonNil (some err) = Unit

  waiting : Racing N → ℕ
  waiting s = length s.to_read + length s.to_write

  -- Once set, `errs` stays set.
  steps-IsNonNil : {s t : Racing N} → RaceSteps N s t → IsNonNil s.errs → IsNonNil t.errs
  steps-IsNonNil (stop s) h = h
  steps-IsNonNil (step _ (reads before after err to_write errs) steps) h = steps-IsNonNil steps h
  steps-IsNonNil (step _ (writes to_read before after err old errs) steps) h =
      steps-IsNonNil steps tt

  -- While it is not set, nobody has written.
  steps-waiting : {s t : Racing N} → RaceSteps N s t → t.errs ≡ none → waiting s ≡ waiting t
  unfolding waiting
  steps-waiting (stop s) h = refl
  steps-waiting (step _ (reads before after err to_write errs) steps) h =
      omega (
        arith,
        steps-waiting steps h,
        length-append before after,
        length-append before (err ∷ after),
      )
  steps-waiting (step _ (writes to_read before after err old errs) steps) h =
      absurd (subst IsNonNil h (steps-IsNonNil steps tt))

  -- With nobody waiting, nothing happens.
  steps_of_none : {s t : Racing N} → RaceSteps N s t → waiting s ≡ 0 → s.errs ≡ t.errs
  unfolding waiting
  steps_of_none (stop s) h = refl
  steps_of_none (step _ (reads before after err to_write errs) steps) h =
      absurd (omega (arith, length-append before (err ∷ after)))
  steps_of_none (step _ (writes to_read before after err old errs) steps) h =
      absurd (omega (arith, length-append before ((err, old) ∷ after)))

  -- Whatever the order, no error is left exactly if no goroutine failed.
  pub Race-iff :
      (errors : List N.Err) (err : Option N.Err) → Race N errors err → (err ≡ none) ↔ (errors ≡ [])
  unfolding waiting
  Race-iff [] err h = (λ e. refl, λ e. sym (steps_of_none h refl))
  Race-iff (e ∷ errors) err h =
      (λ k. absurd (omega (arith, steps-waiting h k)), λ k. absurd (omega (arith, ap length k)))

  -- Of two goroutines that fail, both may read `errs` before one of them writes it. The error of
  -- the first to write is then lost.
  pub Race-loses : (e f : N.Err) → Race N (e ∷ f ∷ []) (some (N.append none f))
  Race-loses e f = step _ (reads [] (f ∷ []) e [] none) (
      step _ (reads [] [] f ((e, none) ∷ []) none) (
        step _ (writes [] ((f, none) ∷ []) [] e none none)
          (step _ (writes [] [] [] f none (some (N.append none e))) (stop _))))

  -- No goroutine failed.
  pub keep-nil :
      (err : Option N.Err) (errors : List N.Err)
      → keep N err errors ≡ []
      → (err ≡ none) × (errors ≡ [])
  keep-nil none errors h = (refl, h)
  keep-nil (some e) errors h = cc
