-- ===== src/Graph/Lock/Atomic.antt =====
-- Reading graphs at the same time, beside reading each of them at one go.
use mathlib.Core.Path.{subst, fun_ext}
use isotope.Base.{
  ℕ, nat_eq, if◌then◌else◌, Bool, true, false, Option, none, some, ◌≡◌, ◌⊎◌, inl, inr, refl, sym,
  ap, ◌∙◌, arith,
}
use isotope.Runtime.{Runtime}
use isotope.Json.{Json}
use isotope.Graph.Svc.Unmarshal.{Globals, initial}
use isotope.Graph.Unmarshal.{
  unmarshal_metadata, unmarshal_json, parse_with_defaults, with_global_defaults,
}
use isotope.Graph.Lock.{
  Graph, Shared, Pc, start, waiting, locked, half_set, running, ran, half_restored, restored,
  parsed, returned, holding, System, update, Move, read_defaults, refuse, acquire, set_service,
  set_request, run, restore_service, restore_request, release, check, pick, Reach, begin, next,
}
use isotope.Graph.Lock.Local.{Holds-holding, update-cases, Local}
use isotope.Graph.Lock.Invariant.{Reach-Inv}

-- What a goroutine has returned.
abbrev result_of : Pc → Option Graph
result_of (returned sg) = some sg
result_of start = none
result_of (waiting _) = none
result_of (locked _) = none
result_of (half_set _ _) = none
result_of (running _ _ _) = none
result_of (ran _ _ _ _) = none
result_of (half_restored _ _ _) = none
result_of (restored _) = none
result_of (parsed _) = none

-- The results so far.
abbrev pub View : Type 0
View = ℕ → Option Graph

abbrev pub view : System → View
view s i = result_of (s.pc i)

abbrev pub answer : View → ℕ → Graph → View
answer v i sg k = if nat_eq k i then some sg else v k

module _ (R : Runtime) where
  -- The specification: each goroutine returns at one go what it returns when it runs alone.
  pub data AtomicReach (jobs : ℕ → Json) : View → Type 0 where
    none_yet : AtomicReach jobs (λ _. none)
    one_more :
        {v : View} (i : ℕ)
        → v i ≡ none
        → AtomicReach jobs v
        → AtomicReach jobs (answer v i (unmarshal_json R (jobs i) initial).0)

  -- The defaults of the value do not depend on the package variables.
  abbrev pub IsSteady : Json → Type 0
  IsSteady j = (g : Globals) → unmarshal_metadata R g j ≡ unmarshal_metadata R initial j

  -- Two goroutines are never between Lock and Unlock together.
  pub mutual_exclusion :
      {jobs : ℕ → Json} {s : System}
      → Reach R jobs s
      → (i k : ℕ) → holding (s.pc i) ≡ true
      → holding (s.pc k) ≡ true
      → i ≡ k
  mutual_exclusion r i k hi hk =
      ground (arith, (Reach-Inv R r).owner i hi, (Reach-Inv R r).owner k hk)

  -- While nobody is, the package variables are those that the program starts with.
  pub quiet_globals :
      {jobs : ℕ → Json} {s : System}
      → Reach R jobs s
      → ((i : ℕ) → holding (s.pc i) ≡ false)
      → s.shared.globals ≡ initial
  quiet_globals {s} r quiet = by_lock s.shared.lock refl
    where
      by_lock : (o : Option ℕ) → s.shared.lock ≡ o → s.shared.globals ≡ initial
      by_lock none e = (Reach-Inv R r).free e
      by_lock (some k) e = absurd (
          ground
            (arith, quiet k, Holds-holding s.shared.globals (s.pc k) ((Reach-Inv R r).held k e)))

  steady_result :
      (j : Json) (g : Globals)
      → IsSteady j
      → (unmarshal_json R j g).0 ≡ (unmarshal_json R j initial).0
  unfolding unmarshal_json parse_with_defaults with_global_defaults
  steady_result j g h = ground (arith, h g)

  -- A step returns nothing new, or returns for the goroutine that moves.
  move-result :
      {i : ℕ} {j : Json} {s s' : Shared} {p p' : Pc}
      → Move R i j s p s' p'
      → (result_of p ≡ none) × ((result_of p' ≡ none) ⊎ ((sg : Graph) × (p' ≡ returned sg)))
  move-result (read_defaults e) = (refl, inl refl)
  move-result (refuse e) = (refl, inr (_, refl))
  move-result (acquire e) = (refl, inl refl)
  move-result set_service = (refl, inl refl)
  move-result set_request = (refl, inl refl)
  move-result run = (refl, inl refl)
  move-result restore_service = (refl, inl refl)
  move-result restore_request = (refl, inl refl)
  move-result release = (refl, inl refl)
  move-result check = (refl, inr (_, refl))

  -- The views before and after the step of `i`.
  view-same :
      (s : System) (i : ℕ) (shared : Shared) (p : Pc)
      → result_of (s.pc i) ≡ none
      → result_of p ≡ none
      → view (record { shared = shared; pc = update s.pc i p }) ≡ view s
  view-same s i shared p before after = fun_ext λ k.
      update-cases (λ x. result_of x ≡ result_of (s.pc k)) s.pc i p k
        (λ e. after ∙ sym (ap (λ x. result_of (s.pc x)) e ∙ before)) (λ d. refl)

  view-answer :
      (s : System) (i : ℕ) (shared : Shared) (sg : Graph)
      → view (record { shared = shared; pc = update s.pc i (returned sg) }) ≡ answer (view s) i sg
  view-answer s i shared sg = fun_ext λ k. by_test k (nat_eq k i) refl
    where
      by_test :
          (k : ℕ) (b : Bool)
          → nat_eq k i ≡ b
          → result_of (update s.pc i (returned sg) k) ≡ answer (view s) i sg k
      by_test k true e = rw e refl
      by_test k false e = rw e refl

  update_self : (pc : ℕ → Pc) (i : ℕ) (p : Pc) → update pc i p i ≡ p
  update_self pc i p = update-cases (λ x. x ≡ p) pc i p i (λ _. refl) (λ d. absurd (d refl))

  -- A return adds the result that the goroutine has when it runs alone.
  return-AtomicReach :
      {jobs : ℕ → Json} (s : System) (i : ℕ) (shared : Shared) (p : Pc) (sg : Graph)
      → IsSteady (jobs i)
      → p ≡ returned sg
      → result_of (s.pc i) ≡ none
      → Local R (jobs i) (update s.pc i p i)
      → AtomicReach jobs (view s)
      → AtomicReach jobs (view (record { shared = shared; pc = update s.pc i p }))
  return-AtomicReach {jobs} s i shared p sg steady e before l a =
      let (g, u) = subst (Local R (jobs i)) (update_self s.pc i p ∙ e) l in
      subst (λ x. AtomicReach jobs (view (record { shared = shared; pc = update s.pc i x })))
        (sym e)
        (subst (AtomicReach jobs) (sym (view-answer s i shared sg)) (
          subst (λ x. AtomicReach jobs (answer (view s) i x))
            (sym (u ∙ steady_result (jobs i) g steady)) (one_more i before a)))

  -- Whatever the order of the steps, the results are those of goroutines that return one after
  -- another and each at one go, if the defaults of the values do not depend on the package variables.
  pub view-AtomicReach :
      {jobs : ℕ → Json} {s : System}
      → ((i : ℕ) → IsSteady (jobs i))
      → Reach R jobs s
      → AtomicReach jobs (view s)
  view-AtomicReach steady begin = none_yet
  view-AtomicReach {jobs} steady (next {s} r (pick i {shared} {p} move)) =
      let (before, after) = move-result move in
      of_result before after (view-AtomicReach steady r)
        ((Reach-Inv R (next r (pick i move))).local i)
    where
      of_result :
          result_of (s.pc i) ≡ none
          → (result_of p ≡ none) ⊎ ((sg : Graph) × (p ≡ returned sg))
          → AtomicReach jobs (view s)
          → Local R (jobs i) (update s.pc i p i)
          → AtomicReach jobs (view (record { shared = shared; pc = update s.pc i p }))
      of_result before (inl after) a l =
          subst (AtomicReach jobs) (sym (view-same s i shared p before after)) a
      of_result before (inr (sg, e)) a l =
          return-AtomicReach s i shared p sg (steady i) e before l a

  -- Without that condition, a goroutine returns what it returns alone under some package variables.
  pub returned_result :
      {jobs : ℕ → Json} {s : System}
      → Reach R jobs s
      → (i : ℕ) (sg : Graph) → s.pc i ≡ returned sg
      → (g : Globals) × (sg ≡ (unmarshal_json R (jobs i) g).0)
  returned_result {jobs} r i sg e = subst (Local R (jobs i)) e ((Reach-Inv R r).local i)
