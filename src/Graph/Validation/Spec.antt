-- ===== src/Graph/Validation/Spec.antt =====
-- What a valid graph is, for convert/pkg/graph/validation.go.
use isotope.Base.{String, ◌==◌, eq_iff, ◌≡◌, refl, ◌↔◌, inl, inr, Bool, true, false, ◌||◌}
use isotope.Base.{none, List, [], ◌∷◌, All, Any, arith, Bool-cases}
use isotope.Base.Dict.{Dict, lookup, insert, lookup-insert}
use isotope.Graph.{ServiceGraph}
use isotope.Graph.Script.Types.{Command, Commands}
use isotope.Graph.Script.Predicates.{AllCommands}
use isotope.Graph.Svc.{Service}
use isotope.Graph.Validation.{
  add_names, is_name, contains_concurrent_command, validate_command, validate_commands,
  validate_services, validate,
}

-- Some service of the list has the name.
abbrev pub Defines : List Service → String → Type 0
Defines services name = Any (λ s. s.name ≡ name) services

-- A command that stands in a concurrent command: none itself, and a call only of a defined service.
abbrev pub IsLeaf : (String → Type 0) → Command → Type 0
IsLeaf D (Command.request r) = D r.service_name
IsLeaf D (Command.concurrent cs) = ⊥
IsLeaf D (Command.sleep d) = Unit
IsLeaf D (Command.other t) = Unit

-- A step of a script: a leaf, or leaves side by side.
abbrev pub IsStep : (String → Type 0) → Command → Type 0
IsStep D (Command.concurrent cs) = AllCommands (IsLeaf D) cs
IsStep D c = IsLeaf D c

abbrev pub IsScript : (String → Type 0) → Commands → Type 0
IsScript D = AllCommands (IsStep D)

abbrev pub IsValid : ServiceGraph → Type 0
IsValid g = All (λ s. IsScript (Defines g.services) s.script) g.services

-- The map of names holds just the names of the services.
is_name-insert :
    (names : Dict Bool) (k n : String)
    → is_name (insert names k true) n ≡ ((k == n) || is_name names n)
unfolding is_name
is_name-insert names k n = ground (arith, lookup-insert names k true n)

is_name-nil : (n : String) → is_name [] n ≡ false
unfolding is_name lookup
is_name-nil n = refl

defines : List Service → String → Bool
defines [] n = false
defines (s ∷ services) n = (s.name == n) || defines services n

is_name-add_names :
    (names : Dict Bool) (services : List Service) (n : String)
    → is_name (add_names names services) n ≡ (is_name names n || defines services n)
unfolding add_names defines
is_name-add_names names [] n = ground arith
is_name-add_names names (s ∷ services) n =
    ground (
      arith,
      is_name-add_names (insert names s.name true) services n,
      is_name-insert names s.name n,
    )

defines_iff :
    (services : List Service) (n : String) → (defines services n ≡ true) ↔ Defines services n
unfolding defines
defines_iff [] n = (λ h. cc, λ h. absurd h)
defines_iff (s ∷ services) n = ground (arith, defines_iff services n, eq_iff s.name n)

pub is_name_iff :
    (services : List Service) (n : String)
    → (is_name (add_names [] services) n ≡ true) ↔ Defines services n
is_name_iff services n =
    ground (arith, is_name-add_names [] services n, is_name-nil n, defines_iff services n)

module _ (names : Dict Bool) (D : String → Type 0)
    (names_iff : (n : String) → (is_name names n ≡ true) ↔ D n) where
  valid-leaves :
      (cs : Commands)
      → validate_commands names cs ≡ none
      → contains_concurrent_command cs ≡ false
      → AllCommands (IsLeaf D) cs
  unfolding validate_commands contains_concurrent_command
  valid-leaves Commands.nil v c = tt
  valid-leaves (Commands.cons (Command.sleep d) cs) v c = (tt, valid-leaves cs v c)
  valid-leaves (Commands.cons (Command.other t) cs) v c = (tt, valid-leaves cs v c)
  valid-leaves (Commands.cons (Command.concurrent x) cs) v c = cc
  valid-leaves (Commands.cons (Command.request r) cs) v c =
      elim (Bool-cases (is_name names r.service_name)) [
        | inl known ↦ ((names_iff r.service_name).0 known, valid-leaves cs (ground arith) c)
        | inr missing ↦ absurd (ground arith)
      ]

  valid-IsStep : (c : Command) → validate_command names c ≡ none → IsStep D c
  unfolding validate_commands
  valid-IsStep (Command.sleep d) v = tt
  valid-IsStep (Command.other t) v = tt
  valid-IsStep (Command.request r) v = (names_iff r.service_name).0 (ground arith)
  valid-IsStep (Command.concurrent cs) v = valid-leaves cs (ground arith) (ground arith)

  valid-IsScript : (cs : Commands) → validate_commands names cs ≡ none → IsScript D cs
  unfolding validate_commands
  valid-IsScript Commands.nil v = tt
  valid-IsScript (Commands.cons c cs) v =
      (valid-IsStep c (ground arith), valid-IsScript cs (ground arith))

  valid_of_leaves :
      (cs : Commands)
      → AllCommands (IsLeaf D) cs
      → (validate_commands names cs ≡ none) × (contains_concurrent_command cs ≡ false)
  unfolding validate_commands contains_concurrent_command
  valid_of_leaves Commands.nil h = (refl, refl)
  valid_of_leaves (Commands.cons (Command.sleep d) cs) h = valid_of_leaves cs h.1
  valid_of_leaves (Commands.cons (Command.other t) cs) h = valid_of_leaves cs h.1
  valid_of_leaves (Commands.cons (Command.concurrent x) cs) h = absurd h.0
  valid_of_leaves (Commands.cons (Command.request r) cs) h =
      rw ((names_iff r.service_name).1 h.0) (valid_of_leaves cs h.1)

  IsStep-valid : (c : Command) → IsStep D c → validate_command names c ≡ none
  unfolding validate_commands
  IsStep-valid (Command.sleep d) h = refl
  IsStep-valid (Command.other t) h = refl
  IsStep-valid (Command.request r) h = rw ((names_iff r.service_name).1 h)
  IsStep-valid (Command.concurrent cs) h = ground (arith, valid_of_leaves cs h)

  IsScript-valid : (cs : Commands) → IsScript D cs → validate_commands names cs ≡ none
  unfolding validate_commands
  IsScript-valid Commands.nil h = refl
  IsScript-valid (Commands.cons c cs) h = rw (IsStep-valid c h.0) (IsScript-valid cs h.1)

  valid-services :
      (services : List Service)
      → validate_services names services ≡ none
      → All (λ s. IsScript D s.script) services
  unfolding validate_services
  valid-services [] v = tt
  valid-services (s ∷ services) v =
      (valid-IsScript s.script (ground arith), valid-services services (ground arith))

  valid_of_services :
      (services : List Service)
      → All (λ s. IsScript D s.script) services
      → validate_services names services ≡ none
  unfolding validate_services
  valid_of_services [] h = refl
  valid_of_services (s ∷ services) h =
      rw (IsScript-valid s.script h.0) (valid_of_services services h.1)

-- `validate` returns no error exactly for the graphs in which each call, at a step of a script or
-- inside a concurrent step, is of a service of the graph, and no concurrent step holds another.
pub validate_iff : (g : ServiceGraph) → (validate g ≡ none) ↔ IsValid g
unfolding validate
validate_iff g = (
  valid-services _ _ (is_name_iff g.services) g.services,
  valid_of_services _ _ (is_name_iff g.services) g.services,
)
