-- ===== src/Graph/Unmarshal/Accept.antt =====
-- What ServiceGraph.UnmarshalJSON accepts, and what it does to the package variables.
use isotope.Base.{◌≡◌, ◌≢◌, none, [], All, arith, Option-cases, inl, inr}
use isotope.Base.Result.{ok, Result-cases}
use isotope.Runtime.{Runtime, IsTyped}
use isotope.Json.{Json}
use isotope.Json.Decode.{same_key}
use isotope.Json.Decode.Keeps.{Reads-if, into_struct-keeps, Reads-slice}
use isotope.Graph.{ServiceGraph}
use isotope.Graph.Script.Bounds.{IsBoundedRequest}
use isotope.Graph.Svc.{Service}
use isotope.Graph.Svc.Bounds.{IsBoundedService, AreBoundedGlobals, into_int32-fits}
use isotope.Graph.Svc.Bounds as SvcBounds
use isotope.Graph.Svc.Unmarshal as SvcUnmarshal
use isotope.Graph.Svc.Unmarshal.{Globals}
use isotope.Graph.Validation.{validate}
use isotope.Graph.Validation.Spec.{IsValid, validate_iff}
use isotope.Graph.Unmarshal.{
  Defaults, globals_of, with_global_defaults, set_graph_field, unmarshal_metadata,
  unmarshal_services, parse_with_defaults, unmarshal_json,
}
use isotope.Graph.Unmarshal.Bounds.{
  IsBoundedDefaults, globals_of-AreBounded, unmarshal_metadata-IsBounded,
}

-- A service of an accepted graph.
abbrev pub IsBoundedAndNamed : Service → Type 0
IsBoundedAndNamed s = (s.name ≢ "") × IsBoundedService s

module _ (R : Runtime) where
  -- UnmarshalJSON leaves the package variables as it found them, whether it succeeds or fails.
  pub unmarshal_json-globals : (j : Json) (g : Globals) → (unmarshal_json R j g).1 ≡ g
  unfolding unmarshal_json parse_with_defaults with_global_defaults
  unmarshal_json-globals j g = ground arith

  -- An accepted graph was read under the defaults that the same value gives, and is valid.
  pub unmarshal_json-inv :
      (j : Json) (g : Globals) {sg : ServiceGraph}
      → (unmarshal_json R j g).0 ≡ ok sg
      → (d : Defaults) × (unmarshal_metadata R g j ≡ ok d)
        × (unmarshal_services R (globals_of d) j ≡ ok sg)
        × (validate sg ≡ none)
  unfolding unmarshal_json parse_with_defaults with_global_defaults
  unmarshal_json-inv j g h = elim (Result-cases (unmarshal_metadata R g j)) [
    | inr (e, m) ↦ absurd (ground arith)
    | inl (d, m) ↦ elim (Result-cases (unmarshal_services R (globals_of d) j)) [
      | inr (e, u) ↦ absurd (ground arith)
      | inl (sg', u) ↦ elim (Option-cases (validate sg')) [
        | inl v ↦ (d, m, ground arith, ground arith)
        | inr (e, v) ↦ absurd (ground arith)
      ]
    ]
  ]

  pub unmarshal_json-accepts :
      (j : Json) (g : Globals) (d : Defaults) (sg : ServiceGraph)
      → unmarshal_metadata R g j ≡ ok d
      → unmarshal_services R (globals_of d) j ≡ ok sg
      → validate sg ≡ none
      → (unmarshal_json R j g).0 ≡ ok sg
  unfolding unmarshal_json parse_with_defaults with_global_defaults
  unmarshal_json-accepts j g d sg m u v = ground arith

module _ (R : Runtime) (T : IsTyped R) (g : Globals) where
  unmarshal_services-All :
      (j : Json) {sg : ServiceGraph}
      → AreBoundedGlobals g
      → unmarshal_services R g j ≡ ok sg
      → All IsBoundedAndNamed sg.services
  unfolding unmarshal_services
  unmarshal_services-All j b e =
      into_struct-keeps (λ sg. All IsBoundedAndNamed sg.services) (set_graph_field R g)
        (λ sg k v h.
          Reads-if _ (same_key k "services") _ _
            (λ _.
              Reads-slice IsBoundedAndNamed (SvcUnmarshal.unmarshal_json R g)
                (SvcBounds.unmarshal_json-IsBounded R T g b)
                (λ sg. All IsBoundedAndNamed sg.services) (λ x. record { services = x }) _
                sg.services v (λ bs all. all) h)
            (λ _. h))
        _ (record { services = [] }) j tt e

-- An accepted graph is valid, and each of its services has a name, a known protocol, an int32 of
-- replicas, an error rate from 0 to 1, a response size below 2 ^ 63 and a script of commands in
-- range. It is assumed that the library functions return float64 and int64 values, and that the
-- default request at the time of the call has a size below 2 ^ 63.
pub unmarshal_json-IsValid :
    (R : Runtime) (g : Globals) (j : Json) (sg : ServiceGraph)
    → IsTyped R
    → IsBoundedRequest g.default_request_command
    → (unmarshal_json R j g).0 ≡ ok sg
    → IsValid sg × All IsBoundedAndNamed sg.services
unmarshal_json-IsValid R g j sg T b e =
    let (d, m, u, v) = unmarshal_json-inv R j g e in
    let h : IsBoundedDefaults d = unmarshal_metadata-IsBounded R T g j b m in
    (
      (validate_iff sg).0 v,
      unmarshal_services-All R T (globals_of d) j (globals_of-AreBounded d h) u,
    )
