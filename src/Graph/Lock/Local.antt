-- ===== src/Graph/Lock/Local.antt =====
-- What holds of one goroutine: of the package variables while it has the lock, and of its variables.
use isotope.Base.{ℕ, nat_eq, if◌then◌else◌, Bool, true, false, ◌≡◌, ◌≢◌, refl, arith}
use isotope.Base.Result.{ok}
use isotope.Runtime.{Runtime}
use isotope.Json.{Json}
use isotope.Graph.Svc.Unmarshal.{Globals, initial}
use isotope.Graph.Unmarshal.{
  Defaults, globals_of, unmarshal_metadata, unmarshal_services, unmarshal_json,
}
use isotope.Graph.Lock.{
  Graph, Pc, start, waiting, locked, half_set, running, ran, half_restored, restored, parsed,
  returned, holding, with_service, with_request, update,
}

-- What the package variables are while a goroutine holds the lock.
abbrev pub Holds : Globals → Pc → Type 0
Holds g (locked d) = g ≡ initial
Holds g (half_set d os) =
    (os ≡ initial.default_service) × (g ≡ with_service initial (globals_of d).default_service)
Holds g (running d os oq) =
    (os ≡ initial.default_service) × (oq ≡ initial.default_request_command) × (g ≡ globals_of d)
Holds g (ran d os oq sg) =
    (os ≡ initial.default_service) × (oq ≡ initial.default_request_command) × (g ≡ globals_of d)
Holds g (half_restored d oq sg) =
    (oq ≡ initial.default_request_command)
    × (g ≡ with_request initial (globals_of d).default_request_command)
Holds g (restored sg) = g ≡ initial
Holds g _ = ⊥

pub Holds-holding : (g : Globals) (p : Pc) → Holds g p → holding p ≡ true
Holds-holding g start h = absurd h
Holds-holding g (waiting d) h = absurd h
Holds-holding g (locked d) h = refl
Holds-holding g (half_set d os) h = refl
Holds-holding g (running d os oq) h = refl
Holds-holding g (ran d os oq sg) h = refl
Holds-holding g (half_restored d oq sg) h = refl
Holds-holding g (restored sg) h = refl
Holds-holding g (parsed sg) h = absurd h
Holds-holding g (returned sg) h = absurd h

pub update-cases :
    (Q : Pc → Type 0) (pc : ℕ → Pc) (i : ℕ) (p : Pc) (k : ℕ)
    → (k ≡ i → Q p)
    → (k ≢ i → Q (pc k))
    → Q (update pc i p k)
update-cases Q pc i p k moved other = by_test (nat_eq k i) refl
  where
    by_test : (b : Bool) → nat_eq k i ≡ b → Q (if b then p else pc k)
    by_test true e = moved (ground (arith, e))
    by_test false e = other (ground (arith, e))

module _ (R : Runtime) where
  -- The defaults were read from the value, under some package variables.
  abbrev pub FromMetadata : Json → Defaults → Type 0
  FromMetadata j d = (g : Globals) × (unmarshal_metadata R g j ≡ ok d)

  -- The services were read from the value, under its own defaults.
  abbrev pub FromServices : Json → Graph → Type 0
  FromServices j sg =
      (d : Defaults) × (g : Globals) × (unmarshal_metadata R g j ≡ ok d)
      × (sg ≡ unmarshal_services R (globals_of d) j)

  -- What the local variables of a goroutine are.
  abbrev pub Local : Json → Pc → Type 0
  Local j start = Unit
  Local j (waiting d) = FromMetadata j d
  Local j (locked d) = FromMetadata j d
  Local j (half_set d os) = FromMetadata j d
  Local j (running d os oq) = FromMetadata j d
  Local j (ran d os oq sg) =
      (g : Globals) × (unmarshal_metadata R g j ≡ ok d)
      × (sg ≡ unmarshal_services R (globals_of d) j)
  Local j (half_restored d oq sg) = FromServices j sg
  Local j (restored sg) = FromServices j sg
  Local j (parsed sg) = FromServices j sg
  Local j (returned sg) = (g : Globals) × (sg ≡ (unmarshal_json R j g).0)
