-- ===== src/Graph/Lock/Progress.antt =====
-- That goroutines which read graphs go on until all have returned.
use mathlib.Core.Path.{subst}
use isotope.Base.{
  ℕ, suc, ◌+◌, ◌<◌, ◌≤◌, zero, nat_eq, if◌then◌else◌, Bool, Bool-cases, true, false, Option, none,
  some, ◌≡◌, ◌≢◌, ◌⊎◌, inl, inr, refl, arith,
}
use isotope.Base.Result.{err, Result-cases}
use isotope.Runtime.{Runtime}
use isotope.Json.{Json}
use isotope.Graph.Unmarshal.{unmarshal_metadata}
use isotope.Graph.Lock.{
  Graph, Shared, Pc, start, waiting, locked, half_set, running, ran, half_restored, restored,
  parsed, returned, holding, System, update, Move, read_defaults, refuse, acquire, set_service,
  set_request, run, restore_service, restore_request, release, check, Step, pick, Reach, next,
}
use isotope.Graph.Lock.Local.{Holds-holding, update-cases}
use isotope.Graph.Lock.Invariant.{Reach-Inv}

-- How many steps a goroutine still makes at most.
abbrev pub steps_left : Pc → ℕ
steps_left start = 9
steps_left (waiting _) = 8
steps_left (locked _) = 7
steps_left (half_set _ _) = 6
steps_left (running _ _ _) = 5
steps_left (ran _ _ _ _) = 4
steps_left (half_restored _ _ _) = 3
steps_left (restored _) = 2
steps_left (parsed _) = 1
steps_left (returned _) = 0

-- The steps that the first `n` goroutines still make at most.
abbrev pub total_left : ℕ → (ℕ → Pc) → ℕ
total_left zero pc = 0
total_left (suc n) pc = steps_left (pc n) + total_left n pc

steps_left-update :
    (pc : ℕ → Pc) (i : ℕ) (p : Pc) (k : ℕ)
    → steps_left (update pc i p k) ≡ (if nat_eq k i then steps_left p else steps_left (pc k))
steps_left-update pc i p k = by_test (nat_eq k i)
  where
    by_test :
        (b : Bool)
        → steps_left (if b then p else pc k) ≡ (if b then steps_left p else steps_left (pc k))
    by_test true = refl
    by_test false = refl

total_left-update_beyond :
    (n : ℕ) (pc : ℕ → Pc) (i : ℕ) (p : Pc) → n ≤ i → total_left n (update pc i p) ≡ total_left n pc
total_left-update_beyond zero pc i p h = refl
total_left-update_beyond (suc n) pc i p h =
    ground (arith, steps_left-update pc i p n, total_left-update_beyond n pc i p)

total_left-update :
    (n : ℕ) (pc : ℕ → Pc) (i : ℕ) (p : Pc)
    → i < n
    → steps_left p < steps_left (pc i)
    → total_left n (update pc i p) < total_left n pc
total_left-update zero pc i p h k = absurd (omega arith)
total_left-update (suc n) pc i p h k = ground (
  arith,
  steps_left-update pc i p n,
  total_left-update_beyond n pc i p,
  total_left-update n pc i p,
)

holding-steps_left : (p : Pc) → holding p ≡ true → steps_left p ≢ 0
holding-steps_left start h = absurd (ground (arith, h))
holding-steps_left (waiting d) h = absurd (ground (arith, h))
holding-steps_left (locked d) h = λ e. omega arith
holding-steps_left (half_set d os) h = λ e. omega arith
holding-steps_left (running d os oq) h = λ e. omega arith
holding-steps_left (ran d os oq sg) h = λ e. omega arith
holding-steps_left (half_restored d oq sg) h = λ e. omega arith
holding-steps_left (restored sg) h = λ e. omega arith
holding-steps_left (parsed sg) h = absurd (ground (arith, h))
holding-steps_left (returned sg) h = absurd (ground (arith, h))

-- Only the first `n` goroutines have begun.
abbrev pub Only : ℕ → System → Type 0
Only n s = (i : ℕ) → n ≤ i → s.pc i ≡ start

module _ (R : Runtime) where
  Move-steps_left :
      {i : ℕ} {j : Json} {s s' : Shared} {p p' : Pc}
      → Move R i j s p s' p'
      → steps_left p' < steps_left p
  Move-steps_left (read_defaults e) = omega arith
  Move-steps_left (refuse e) = omega arith
  Move-steps_left (acquire e) = omega arith
  Move-steps_left set_service = omega arith
  Move-steps_left set_request = omega arith
  Move-steps_left run = omega arith
  Move-steps_left restore_service = omega arith
  Move-steps_left restore_request = omega arith
  Move-steps_left release = omega arith
  Move-steps_left check = omega arith

  -- A goroutine that has not returned can go on, if it holds the lock or the lock is free.
  can_move :
      (i : ℕ) (j : Json) (s : Shared) (p : Pc)
      → (holding p ≡ true) ⊎ (s.lock ≡ none)
      → steps_left p ≢ 0
      → (s' : Shared) × (p' : Pc) × Move R i j s p s' p'
  can_move i j s start h n = elim (Result-cases (unmarshal_metadata R s.globals j)) [
    | inl (d, e) ↦ (s, waiting d, read_defaults e)
    | inr (x, e) ↦ (s, returned (err x), refuse e)
  ]
  can_move i j s (waiting d) (inl h) n = absurd (ground (arith, h))
  can_move i j s (waiting d) (inr h) n = (_, _, acquire h)
  can_move i j s (locked d) h n = (_, _, set_service)
  can_move i j s (half_set d os) h n = (_, _, set_request)
  can_move i j s (running d os oq) h n = (_, _, run)
  can_move i j s (ran d os oq sg) h n = (_, _, restore_service)
  can_move i j s (half_restored d oq sg) h n = (_, _, restore_request)
  can_move i j s (restored sg) h n = (_, _, release)
  can_move i j s (parsed sg) h n = (_, _, check)
  can_move i j s (returned sg) h n = absurd (n refl)

  -- Some goroutine goes on, while one of them has not returned.
  progress :
      {jobs : ℕ → Json} {s : System} (n : ℕ)
      → Reach R jobs s
      → Only n s
      → (i : ℕ) → i < n
      → steps_left (s.pc i) ≢ 0
      → (t : System) × Step R jobs s t × Only n t × (total_left n t.pc < total_left n s.pc)
  progress {jobs} {s} n r only i lt more = by_lock s.shared.lock refl
    where
      go :
          (k : ℕ)
          → k < n
          → (holding (s.pc k) ≡ true) ⊎ (s.shared.lock ≡ none)
          → steps_left (s.pc k) ≢ 0
          → (t : System) × Step R jobs s t × Only n t × (total_left n t.pc < total_left n s.pc)
      go k in_range h left =
          let (shared, p, move) = can_move k (jobs k) s.shared (s.pc k) h left in
          (
            record { shared = shared; pc = update s.pc k p },
            pick k move,
            (λ j beyond.
                update-cases (λ x. x ≡ start) s.pc k p j (λ e. absurd (omega (arith, e, in_range)))
                  (λ d. only j beyond)),
            total_left-update n s.pc k p in_range (Move-steps_left move),
          )

      by_lock :
          (o : Option ℕ)
          → s.shared.lock ≡ o
          → (t : System) × Step R jobs s t × Only n t × (total_left n t.pc < total_left n s.pc)
      by_lock none e = go i lt (inr e) more
      by_lock (some k) e =
          let held = Holds-holding s.shared.globals (s.pc k) ((Reach-Inv R r).held k e) in
          go k (ground (arith, held, only k)) (inl held) (holding-steps_left (s.pc k) held)

  none_left : (p : Pc) → steps_left p ≡ 0 → (sg : Graph) × (p ≡ returned sg)
  none_left start h = absurd (omega arith)
  none_left (waiting d) h = absurd (omega arith)
  none_left (locked d) h = absurd (omega arith)
  none_left (half_set d os) h = absurd (omega arith)
  none_left (running d os oq) h = absurd (omega arith)
  none_left (ran d os oq sg) h = absurd (omega arith)
  none_left (half_restored d oq sg) h = absurd (omega arith)
  none_left (restored sg) h = absurd (omega arith)
  none_left (parsed sg) h = absurd (omega arith)
  none_left (returned sg) h = (sg, refl)

  abbrev pub HaveReturned : ℕ → System → Type 0
  HaveReturned n s = (i : ℕ) → i < n → (sg : Graph) × (s.pc i ≡ returned sg)

  -- Either all of the first `m` have returned, or one of them has not.
  find_unfinished :
      (m : ℕ) (s : System) → HaveReturned m s ⊎ ((i : ℕ) × (i < m) × (steps_left (s.pc i) ≢ 0))
  find_unfinished zero s = inl (λ i h. absurd (omega arith))
  find_unfinished (suc m) s = by_steps (steps_left (s.pc m)) refl (find_unfinished m s)
    where
      by_steps :
          (k : ℕ)
          → steps_left (s.pc m) ≡ k
          → HaveReturned m s ⊎ ((i : ℕ) × (i < m) × (steps_left (s.pc i) ≢ 0))
          → HaveReturned (suc m) s ⊎ ((i : ℕ) × (i < suc m) × (steps_left (s.pc i) ≢ 0))
      by_steps (suc k) e others = inr (m, omega arith, λ h. omega (arith, h, e))
      by_steps zero e (inr (i, lt, h)) = inr (i, omega (arith, lt), h)
      by_steps zero e (inl all) = inl λ i lt. elim (Bool-cases (nat_eq i m)) [
        | inl same ↦
            subst (λ x. (sg : Graph) × (s.pc x ≡ returned sg)) (ground (arith, same))
              (none_left (s.pc m) e)
        | inr differs ↦ all i (ground (arith, lt, differs))
      ]

  all_return_in :
      {jobs : ℕ → Json} (bound : ℕ) {s : System} (n : ℕ)
      → Reach R jobs s
      → Only n s
      → total_left n s.pc < bound
      → (t : System) × Reach R jobs t × HaveReturned n t
  all_return_in zero n r only h = absurd (omega arith)
  all_return_in (suc bound) {s} n r only h = elim (find_unfinished n s) [
    | inl all ↦ (s, r, all)
    | inr (i, lt, more) ↦
        let (t, step, only', less) = progress n r only i lt more in
        all_return_in bound n (next r step) only' (omega (arith, h, less))
  ]

  -- However far `n` goroutines have come, they can go on until all of them have returned.
  pub all_return :
      {jobs : ℕ → Json} {s : System} (n : ℕ)
      → Reach R jobs s
      → Only n s
      → (t : System) × Reach R jobs t × HaveReturned n t
  all_return {s} n r only = all_return_in (suc (total_left n s.pc)) n r only (omega arith)
