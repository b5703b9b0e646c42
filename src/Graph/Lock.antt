-- ===== src/Graph/Lock.antt =====
-- convert/pkg/graph/unmarshal.go with its lock: goroutines that read graphs at the same time. Each
-- write of withGlobalDefaults to the package variables svc.DefaultService and
-- script.DefaultRequestCommand is a step. The first `json.Unmarshal` reads the second of them for each
-- call of the default script, without the lock, and is one step here, as if nobody wrote between: that
-- is exact for default scripts of one call at most.
pub mod Local
pub mod Invariant
pub mod Atomic
pub mod Progress
pub mod Leak
use isotope.Base.{ℕ, nat_eq, if◌then◌else◌, Bool, true, false, Option, none, some, ◌≡◌}
use isotope.Base.Result.{Result, ok, err, ◌>>=◌}
use isotope.Runtime.{Runtime}
use isotope.Error.{Error}
use isotope.Json.{Json}
use isotope.Graph.{ServiceGraph}
use isotope.Graph.Script.Types.{RequestCommand}
use isotope.Graph.Svc.{Service}
use isotope.Graph.Svc.Unmarshal.{Globals, initial}
use isotope.Graph.Unmarshal.{
  Defaults, globals_of, unmarshal_metadata, unmarshal_services, validated,
}

abbrev pub Graph : Type 0
Graph = Result Error ServiceGraph

-- What the goroutines share: the package variables, and who holds `defaultMutex`.
pub record Shared : Type 0 where
  pub globals : Globals
  pub lock : Option ℕ

-- Where a goroutine stands in ServiceGraph.UnmarshalJSON, with its local variables.
pub data Pc : Type 0 where
  start : Pc
  -- withGlobalDefaults is called
  waiting : (defaults : Defaults) → Pc
  locked : (defaults : Defaults) → Pc
  -- svc.DefaultService is saved and set
  half_set : (defaults : Defaults) (orig_service : Service) → Pc
  -- script.DefaultRequestCommand is saved and set
  running : (defaults : Defaults) (orig_service : Service) (orig_request : RequestCommand) → Pc
  -- `f` has run
  ran :
      (defaults : Defaults) (orig_service : Service) (orig_request : RequestCommand) (sg : Graph)
      → Pc
  half_restored : (defaults : Defaults) (orig_request : RequestCommand) (sg : Graph) → Pc
  restored : (sg : Graph) → Pc
  -- withGlobalDefaults has returned
  parsed : (sg : Graph) → Pc
  returned : (sg : Graph) → Pc

-- Between the return of `defaultMutex.Lock()` and the call of `defaultMutex.Unlock()`.
abbrev pub holding : Pc → Bool
holding (locked _) = true
holding (half_set _ _) = true
holding (running _ _ _) = true
holding (ran _ _ _ _) = true
holding (half_restored _ _ _) = true
holding (restored _) = true
holding start = false
holding (waiting _) = false
holding (parsed _) = false
holding (returned _) = false

abbrev pub with_globals : Shared → Globals → Shared
with_globals s g = record { globals = g; lock = s.lock }

abbrev pub with_service : Globals → Service → Globals
with_service g service = record {
  default_service = service;
  default_request_command = g.default_request_command;
}

abbrev pub with_request : Globals → RequestCommand → Globals
with_request g request = record {
  default_service = g.default_service;
  default_request_command = request;
}

pub record System : Type 0 where
  pub shared : Shared
  pub pc : ℕ → Pc

abbrev pub update : (ℕ → Pc) → ℕ → Pc → ℕ → Pc
update pc i p k = if nat_eq k i then p else pc k

abbrev pub init : System
init = record { shared = record { globals = initial; lock = none }; pc = λ _. start }

module _ (R : Runtime) where
  -- A step of the goroutine `i`, which reads `j`.
  pub data Move (i : ℕ) (j : Json) (s : Shared) : Pc → Shared → Pc → Type 0 where
    read_defaults :
        {d : Defaults} → unmarshal_metadata R s.globals j ≡ ok d → Move i j s start s (waiting d)
    refuse :
        {e : Error}
        → unmarshal_metadata R s.globals j ≡ err e
        → Move i j s start s (returned (err e))
    acquire :
        {d : Defaults}
        → s.lock ≡ none
        → Move i j s (waiting d) (record { globals = s.globals; lock = some i }) (locked d)
    set_service :
        {d : Defaults}
        → Move i j s
            (locked d)
            (with_globals s (with_service s.globals (globals_of d).default_service))
            (half_set d s.globals.default_service)
    set_request :
        {d : Defaults} {os : Service}
        → Move i j s
            (half_set d os)
            (with_globals s (with_request s.globals (globals_of d).default_request_command))
            (running d os s.globals.default_request_command)
    run :
        {d : Defaults} {os : Service} {oq : RequestCommand}
        → Move i j s (running d os oq) s (ran d os oq (unmarshal_services R s.globals j))
    restore_service :
        {d : Defaults} {os : Service} {oq : RequestCommand} {sg : Graph}
        → Move i j s
            (ran d os oq sg)
            (with_globals s (with_service s.globals os))
            (half_restored d oq sg)
    restore_request :
        {d : Defaults} {oq : RequestCommand} {sg : Graph}
        → Move i j s
            (half_restored d oq sg)
            (with_globals s (with_request s.globals oq))
            (restored sg)
    release :
        {sg : Graph}
        → Move i j s (restored sg) (record { globals = s.globals; lock = none }) (parsed sg)
    check : {sg : Graph} → Move i j s (parsed sg) s (returned (sg >>= validated R))

  -- One of the goroutines goes on. `jobs` has the value that each reads.
  pub data Step (jobs : ℕ → Json) (s : System) : System → Type 0 where
    pick :
        (i : ℕ) {shared : Shared} {p : Pc}
        → Move i (jobs i) s.shared (s.pc i) shared p
        → Step jobs s (record { shared = shared; pc = update s.pc i p })

  pub data Reach (jobs : ℕ → Json) : System → Type 0 where
    begin : Reach jobs init
    next : {s t : System} → Reach jobs s → Step jobs s t → Reach jobs t
