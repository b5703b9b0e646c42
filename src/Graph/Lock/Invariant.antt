-- ===== src/Graph/Lock/Invariant.antt =====
-- What holds of the package variables and of each goroutine in every reachable state.
use mathlib.Core.Path.{subst}
use isotope.Base.{ℕ, true, false, none, some, ◌≡◌, ◌≢◌, refl, sym, ap, ◌∙◌, arith}
use isotope.Base.Result.{err, ◌>>=◌}
use isotope.Runtime.{Runtime}
use isotope.Json.{Json}
use isotope.Graph.Svc.Unmarshal.{Globals, initial}
use isotope.Graph.Unmarshal.{
  globals_of, unmarshal_services, validated, unmarshal_json, parse_with_defaults,
  with_global_defaults,
}
use isotope.Graph.Lock.{
  Shared, Pc, start, waiting, half_set, running, ran, half_restored, restored, parsed, returned,
  holding, with_globals, with_service, with_request, System, init, Move, read_defaults, refuse,
  acquire, set_service, set_request, run, restore_service, restore_request, release, check, Step,
  pick, Reach, begin, next,
}
use isotope.Graph.Lock.Local.{Holds, update-cases, Local}

module _ (R : Runtime) where
  pub record Inv (jobs : ℕ → Json) (s : System) : Type 0 where
    pub owner : (i : ℕ) → holding (s.pc i) ≡ true → s.shared.lock ≡ some i
    pub held : (i : ℕ) → s.shared.lock ≡ some i → Holds s.shared.globals (s.pc i)
    pub free : s.shared.lock ≡ none → s.shared.globals ≡ initial
    pub local : (i : ℕ) → Local R (jobs i) (s.pc i)

  Inv-init : (jobs : ℕ → Json) → Inv jobs init
  Inv-init jobs = record {
    owner = λ i h. absurd (ground (arith, h));
    held = λ i h. ground (arith, h);
    free = λ h. refl;
    local = λ i. tt;
  }

  -- What the goroutine that moves knows before its step, and what is shown of the step.
  record Before (i : ℕ) (j : Json) (s : Shared) (p : Pc) : Type 0 where
    own : holding p ≡ true → s.lock ≡ some i
    holds : s.lock ≡ some i → Holds s.globals p
    free : s.lock ≡ none → s.globals ≡ initial
    local : Local R j p

  record After (i : ℕ) (j : Json) (s s' : Shared) (p : Pc) : Type 0 where
    own : holding p ≡ true → s'.lock ≡ some i
    holds : s'.lock ≡ some i → Holds s'.globals p
    free : s'.lock ≡ none → s'.globals ≡ initial
    local : Local R j p
    same : (k : ℕ) → k ≢ i → s'.lock ≡ some k → (s.lock ≡ some k) × (s'.globals ≡ s.globals)
    stays : (k : ℕ) → k ≢ i → s.lock ≡ some k → s'.lock ≡ some k

  module _ (i : ℕ) (j : Json) (s : Shared) where
    -- A step without the lock changes nothing that is shared.
    After-outside :
        (p p' : Pc)
        → Before i j s p
        → (Holds s.globals p → ⊥)
        → holding p' ≡ false
        → Local R j p'
        → After i j s s p'
    After-outside p p' b none_held out l = record {
      own = λ h. absurd (ground (arith, h));
      holds = λ e. absurd (none_held (b.holds e));
      free = b.free;
      local = l;
      same = λ k d e. (e, refl);
      stays = λ k d e. e;
    }

    -- A step with the lock changes the package variables only.
    After-inside :
        (g : Globals) (p' : Pc)
        → s.lock ≡ some i
        → Holds g p'
        → Local R j p'
        → After i j s (with_globals s g) p'
    After-inside g p' e h l = record {
      own = λ _. e;
      holds = λ _. h;
      free = λ f. absurd (ground (arith, e, f));
      local = l;
      same = λ k d f. absurd (ground (arith, e, f, d));
      stays = λ k d f. f;
    }

    Move-After :
        {p p' : Pc} {s' : Shared} → Move R i j s p s' p' → Before i j s p → After i j s s' p'
    unfolding unmarshal_json parse_with_defaults with_global_defaults
    Move-After (read_defaults {d} e) b =
        After-outside start (waiting d) b (λ h. h) refl (s.globals, e)
    Move-After (refuse {e} h) b =
        After-outside start (returned (err e)) b (λ k. k) refl (s.globals, ground (arith, h))
    Move-After (acquire {d} e) b = record {
      own = λ _. refl;
      holds = λ _. b.free e;
      free = λ f. absurd (ground (arith, f));
      local = b.local;
      same = λ k d f. absurd (ground (arith, d, f));
      stays = λ k d f. absurd (ground (arith, e, f));
    }
    Move-After (set_service {d}) b =
        let e = b.own refl in
        After-inside (with_service s.globals (globals_of d).default_service)
          (half_set d s.globals.default_service) e
          (
            ap (λ g. g.default_service) (b.holds e),
            ap (λ g. with_service g (globals_of d).default_service) (b.holds e),
          )
          b.local
    Move-After (set_request {d} {os}) b =
        let e = b.own refl in
        let (service, globals) = b.holds e in
        After-inside (with_request s.globals (globals_of d).default_request_command)
          (running d os s.globals.default_request_command) e
          (
            service,
            ap (λ g. g.default_request_command) globals,
            ap (λ g. with_request g (globals_of d).default_request_command) globals,
          )
          b.local
    Move-After (run {d} {os} {oq}) b =
        let e = b.own refl in
        let (service, request, globals) = b.holds e in
        let (g, m) = b.local in
        After-inside s.globals (ran d os oq (unmarshal_services R s.globals j)) e
          (service, request, globals) (g, m, ap (λ x. unmarshal_services R x j) globals)
    Move-After (restore_service {d} {os} {oq} {sg}) b =
        let e = b.own refl in
        let (service, request, globals) = b.holds e in
        let (g, m, u) = b.local in
        After-inside (with_service s.globals os) (half_restored d oq sg) e
          (request, ap (λ x. with_service x os) globals ∙ ap (with_service (globals_of d)) service)
          (d, g, m, u)
    Move-After (restore_request {d} {oq} {sg}) b =
        let e = b.own refl in
        let (request, globals) = b.holds e in
        After-inside (with_request s.globals oq) (restored sg) e
          (ap (λ x. with_request x oq) globals
            ∙ ap (with_request (with_request initial (globals_of d).default_request_command))
                request)
          b.local
    Move-After (release {sg}) b =
        let e = b.own refl in
        record {
          own = λ h. absurd (ground (arith, h));
          holds = λ f. absurd (ground (arith, f));
          free = λ _. b.holds e;
          local = b.local;
          same = λ k d f. absurd (ground (arith, f));
          stays = λ k d f. absurd (ground (arith, d, e, f));
        }
    Move-After (check {sg}) b =
        let (d, g, m, u) = b.local in
        After-outside (parsed sg) (returned (sg >>= validated R)) b (λ h. h) refl
          (g, ground (arith, m, u))

  Step-Inv : {jobs : ℕ → Json} {s t : System} → Step R jobs s t → Inv jobs s → Inv jobs t
  Step-Inv {jobs} {s} (pick i {shared} {p} move) inv = record {
    owner = λ k.
        update-cases (λ x. holding x ≡ true → shared.lock ≡ some k) s.pc i p k
          (λ e h. subst (λ x. shared.lock ≡ some x) (sym e) (after.own h))
          (λ d h. after.stays k d (inv.owner k h));
    held = λ k f.
        update-cases (Holds shared.globals) s.pc i p k
          (λ e. after.holds (subst (λ x. shared.lock ≡ some x) e f))
          (λ d.
            let (locked_before, globals) = after.same k d f in
            subst (λ g. Holds g (s.pc k)) (sym globals) (inv.held k locked_before));
    free = after.free;
    local = λ k.
        update-cases (Local R (jobs k)) s.pc i p k
          (λ e. subst (λ x. Local R (jobs x) p) (sym e) after.local) (λ d. inv.local k);
  }
    where
      after : After i (jobs i) s.shared shared p
      after =
          Move-After i (jobs i) s.shared move
            (record { own = inv.owner i; holds = inv.held i; free = inv.free; local = inv.local i })

  pub Reach-Inv : {jobs : ℕ → Json} {s : System} → Reach R jobs s → Inv jobs s
  Reach-Inv {jobs} begin = Inv-init jobs
  Reach-Inv (next r step) = Step-Inv step (Reach-Inv r)
