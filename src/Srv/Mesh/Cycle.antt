-- ===== src/Srv/Mesh/Cycle.antt =====
-- A service that calls itself, at once or through others, never comes to an end.
use mathlib.Core.Path.{subst}
use isotope.Base.{String, ◌≡◌, refl, List}
use isotope.Graph.{ServiceGraph}
use isotope.Graph.Svc.{Service}
use isotope.Srv.Lookup.{IsFirst, here, later}
use isotope.Srv.Mesh.{IsCalledBy, Halts, halts, Reaches, calls, through}

IsFirst-unique :
    {name : String} {s t : Service} {services : List Service}
    → IsFirst name s services
    → IsFirst name t services
    → s ≡ t
IsFirst-unique (here rest e) (here _ f) = refl
IsFirst-unique (here rest e) (later _ differs first) = absurd (differs e)
IsFirst-unique (later _ differs first) (here rest e) = absurd (differs e)
IsFirst-unique (later _ d first) (later _ d' second) = IsFirst-unique first second

module _ (g : ServiceGraph) where
  Reaches-append :
      (name mid dest : String) → Reaches g name mid → Reaches g mid dest → Reaches g name dest
  Reaches-append name mid dest (calls _ _ s first called) r = through name mid dest s first called r
  Reaches-append name mid dest (through _ next _ s first called r) r' =
      through name next dest s first called (Reaches-append next mid dest r r')

  pub Halts-acyclic : (name : String) → Halts g name → Reaches g name name → ⊥
  Halts-acyclic name (halts _ s first ends) (calls _ _ t first' called) =
      Halts-acyclic name (ends name (subst (IsCalledBy name) (IsFirst-unique first' first) called))
        (calls name name t first' called)
  Halts-acyclic name (halts _ s first ends) (through _ next _ t first' called r) =
      Halts-acyclic next (ends next (subst (IsCalledBy next) (IsFirst-unique first' first) called))
        (Reaches-append next name next r (calls name next t first' called))
