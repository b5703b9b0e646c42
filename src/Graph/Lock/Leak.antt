-- ===== src/Graph/Lock/Leak.antt =====
-- The first `json.Unmarshal` of ServiceGraph.UnmarshalJSON, which runs outside the lock.
use mathlib.Core.Path.{subst}
use isotope.Base.{ℕ, true, ◌≡◌, ◌∙◌, ap, refl, sym}
use isotope.Base.Result.{ok}
use isotope.Runtime.{Runtime}
use isotope.Json.{Json}
use isotope.Graph.Script.Types.{RequestCommand}
use isotope.Graph.Svc.{Service}
use isotope.Graph.Unmarshal.{Defaults, globals_of, unmarshal_metadata}
use isotope.Graph.Lock.{
  start, waiting, running, holding, System, update, Move, read_defaults, Step, pick, Reach,
}
use isotope.Graph.Lock.Local.{Holds, update-cases}
use isotope.Graph.Lock.Invariant.{Inv, Reach-Inv}

module _ (R : Runtime) where
  -- While one goroutine runs under its defaults, another that begins can read its own defaults under
  -- those of the first, and goes on with what it has read so.
  pub defaults_leak :
      {jobs : ℕ → Json} {s : System}
      → Reach R jobs s
      → (k : ℕ) (d : Defaults) (os : Service) (oq : RequestCommand) → s.pc k ≡ running d os oq
      → (i : ℕ) (d' : Defaults) → s.pc i ≡ start
      → unmarshal_metadata R (globals_of d) (jobs i) ≡ ok d'
      → (t : System) × Step R jobs s t × (t.pc i ≡ waiting d')
  defaults_leak {jobs} {s} r k d os oq e i d' e' m = (
    record { shared = s.shared; pc = update s.pc i (waiting d') },
    pick i (
        subst (λ p. Move R i (jobs i) s.shared p s.shared (waiting d')) (sym e')
          (read_defaults under)),
    update-cases (λ p. p ≡ waiting d') s.pc i (waiting d') i (λ _. refl) (λ n. absurd (n refl)),
  )
    where
      inv : Inv R jobs s
      inv = Reach-Inv R r

      held : Holds s.shared.globals (running d os oq)
      held =
          subst (Holds s.shared.globals) e
            (inv.held k (inv.owner k (subst (λ p. holding p ≡ true) (sym e) refl)))

      under : unmarshal_metadata R s.shared.globals (jobs i) ≡ ok d'
      under = ap (λ g. unmarshal_metadata R g (jobs i)) (held.2) ∙ m
