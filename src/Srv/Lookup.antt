-- ===== src/Srv/Lookup.antt =====
-- service/pkg/srv/graph.go: the service that a handler acts as, and the types of all services.
use isotope.Base.{
  String, ◌==◌, eq_iff, ◌≡◌, ◌≢◌, ◌↔◌, refl, ◌⊎◌, inl, inr, Option, none, some, List, [], ◌∷◌,
  arith, ap, ◌∙◌, sym, Bool-cases, Option-cases, if◌then◌else◌,
}
use isotope.Base.Dict.{Dict, lookup, insert, lookup-insert}
use isotope.Graph.{ServiceGraph}
use isotope.Graph.ServiceType.{ServiceType}
use isotope.Graph.Svc.{Service}
use isotope.Graph.Validation.Spec.{Defines}

pub record Handler : Type 0 where
  pub service : Service
  pub service_types : Dict ServiceType

find_service : List Service → String → Option Service
find_service [] name = none
find_service (s ∷ services) name = if s.name == name then some s else find_service services name

-- extractService. `none` is its error.
unfoldable pub extract_service : ServiceGraph → String → Option Service
unfolding find_service
extract_service g name = find_service g.services name

-- The loop of extractServiceTypes.
add_types : Dict ServiceType → List Service → Dict ServiceType
add_types types [] = types
add_types types (s ∷ services) = add_types (insert types s.name s.type) services

unfoldable pub extract_service_types : ServiceGraph → Dict ServiceType
unfolding add_types
extract_service_types g = add_types [] g.services

make_handler : Dict ServiceType → Option Service → Option Handler
make_handler types none = none
make_handler types (some s) = some (record { service = s; service_types = types })

-- HandlerFromServiceGraphYAML, after the graph has been read.
unfoldable pub handler_from_service_graph : ServiceGraph → String → Option Handler
unfolding make_handler
handler_from_service_graph g name = make_handler (extract_service_types g) (extract_service g name)

-- The service found is the first of its name.
pub data IsFirst (name : String) (s : Service) : List Service → Type 0 where
  here : (rest : List Service) → s.name ≡ name → IsFirst name s (s ∷ rest)
  later :
      (t : Service) {rest : List Service}
      → t.name ≢ name
      → IsFirst name s rest
      → IsFirst name s (t ∷ rest)

-- The last service of a name gives the type of that name.
abbrev pub last_type : Option ServiceType → List Service → String → Option ServiceType
last_type old [] name = old
last_type old (s ∷ services) name =
    last_type (if s.name == name then some s.type else old) services name

lookup-add_types :
    (types : Dict ServiceType) (services : List Service) (name : String)
    → lookup (add_types types services) name ≡ last_type (lookup types name) services name
unfolding add_types
lookup-add_types types [] name = refl
lookup-add_types types (s ∷ services) name =
    lookup-add_types (insert types s.name s.type) services name
    ∙ ap (λ old. last_type old services name) (lookup-insert types s.name s.type name)

last_type-some :
    (services : List Service) (name : String) (old : Option ServiceType)
    → (old ≢ none) ⊎ Defines services name
    → last_type old services name ≢ none
last_type-some [] name old (inl h) = h
last_type-some [] name old (inr h) = absurd h
last_type-some (s ∷ services) name old h =
    last_type-some services name (if s.name == name then some s.type else old) (split h)
  where
    split :
        (old ≢ none) ⊎ Defines (s ∷ services) name
        → ((if s.name == name then some s.type else old) ≢ none) ⊎ Defines services name
    split (inl n) = inl (ground arith)
    split (inr (inl e)) = inl (ground (arith, eq_iff s.name name))
    split (inr (inr d)) = inr d

-- Every service of the graph has a type in the map.
pub extract_service_types-Defines :
    (g : ServiceGraph) (name : String)
    → Defines g.services name
    → lookup (extract_service_types g) name ≢ none
unfolding extract_service_types
extract_service_types-Defines g name h =
    rw lookup-add_types (last_type-some g.services name (lookup [] name) (inr h))

found-IsFirst :
    (services : List Service) (name : String) (s : Service)
    → find_service services name ≡ some s
    → IsFirst name s services
unfolding find_service
found-IsFirst [] name s h = absurd (ground arith)
found-IsFirst (t ∷ services) name s h = elim (Bool-cases (t.name == name)) [
  | inl e ↦ same (ground (arith, eq_iff t.name name)) (ground arith)
  | inr e ↦
      later t (ground (arith, eq_iff t.name name)) (found-IsFirst services name s (ground arith))
]
  where
    same : t.name ≡ name → t ≡ s → IsFirst name s (t ∷ services)
    same e r = rw (sym r) (here services e)

IsFirst-found :
    (name : String) (s : Service) (services : List Service)
    → IsFirst name s services
    → find_service services name ≡ some s
unfolding find_service
IsFirst-found name s _ (here rest e) = ground (arith, eq_iff s.name name)
IsFirst-found name s _ (later t {rest} e h) =
    ground (arith, eq_iff t.name name, IsFirst-found name s rest h)

make_handler_iff :
    (types : Dict ServiceType) (o : Option Service) (h : Handler)
    → (make_handler types o ≡ some h) ↔ ((o ≡ some h.service) × (h.service_types ≡ types))
unfolding make_handler
make_handler_iff types none h = ((λ e. absurd (ground arith)), (λ (e, _). absurd (ground arith)))
make_handler_iff types (some s) h = ((λ e. ground arith), (λ (found, types). ground arith))

-- A handler is made exactly of the first service of the name and the map of types.
pub handler_iff :
    (g : ServiceGraph) (name : String) (h : Handler)
    → (handler_from_service_graph g name ≡ some h)
      ↔ (IsFirst name h.service g.services × (h.service_types ≡ extract_service_types g))
unfolding handler_from_service_graph extract_service
handler_iff g name h =
    let (made, make) =
      make_handler_iff (extract_service_types g) (find_service g.services name) h in
    (
      (λ e. let (found, types) = made e in (found-IsFirst g.services name h.service found, types)),
      (λ (first, types). make (IsFirst-found name h.service g.services first, types)),
    )

find-Defines :
    (services : List Service) (name : String)
    → find_service services name ≡ none
    → Defines services name
    → ⊥
unfolding find_service
find-Defines [] name e d = absurd d
find-Defines (s ∷ services) name e (inl same) = absurd (ground (arith, e, same, eq_iff s.name name))
find-Defines (s ∷ services) name e (inr d) = elim (Bool-cases (s.name == name)) [
  | inl same ↦ absurd (ground (arith, e, same))
  | inr other ↦ find-Defines services name (ground (arith, e, other)) d
]

-- A handler that is made acts as the first service of its name, and there is one if the name is one of
-- the graph's. For every name it knows the type of the last service of the name, and no type for a
-- name that no service has.
pub handler_types :
    (g : ServiceGraph) (name : String)
    → ((handler_from_service_graph g name ≡ none) × (Defines g.services name → ⊥))
      ⊎ ((h : Handler) × (handler_from_service_graph g name ≡ some h)
          × IsFirst name h.service g.services
          × ((other : String) → lookup h.service_types other ≡ last_type none g.services other))
unfolding handler_from_service_graph extract_service extract_service_types make_handler lookup
handler_types g name = elim (Option-cases (find_service g.services name)) [
  | inl missing ↦ inl (rw (missing, make_handler) refl, find-Defines g.services name missing)
  | inr (s, found) ↦ inr (
    record { service = s; service_types = extract_service_types g },
    rw (found, make_handler) refl,
    found-IsFirst g.services name s found,
    λ other. lookup-add_types [] g.services other,
  )
]
