-- ===== src/Graph/Unmarshal/Bounds.antt =====
-- The defaults that are read from a graph are in range.
use isotope.Base.{◌^◌, ◌<◌, String, ◌≡◌, ◌≢◌, refl, true, arith, inl}
use isotope.Base.Int.{fits_int}
use isotope.Base.Float.{InUnit}
use isotope.Base.Result.{ok}
use isotope.Runtime.{Runtime, IsTyped}
use isotope.Json.{Json}
use isotope.Json.Decode.{into_int, same_key}
use isotope.Json.Decode.Keeps.{
  Reads, Reads-if, Reads-plain, Reads-custom, Reads-struct, into_struct-keeps,
}
use isotope.Graph.Pct
use isotope.Graph.Pct.Range as PctRange
use isotope.Graph.Size
use isotope.Graph.Size.Range as SizeRange
use isotope.Graph.ServiceType
use isotope.Graph.ServiceType.{ServiceType}
use isotope.Graph.ServiceType.RoundTrip as TypeRoundTrip
use isotope.Graph.Script
use isotope.Graph.Script.Bounds.{AreBounded, IsBoundedRequest, parse_json_commands-AreBounded}
use isotope.Graph.Svc.Bounds.{AreBoundedGlobals, into_int32-fits}
use isotope.Graph.Svc.Unmarshal.{Globals}
use isotope.Graph.Unmarshal.{
  Defaults, default_defaults, globals_of, set_defaults_field, set_metadata_field,
  unmarshal_metadata,
}

-- Defaults with a known protocol and with numbers in range: of the type, the replicas, the error rate,
-- the response size, the script and the request size.
abbrev pub IsBoundedDefaults : Defaults → Type 0
IsBoundedDefaults d =
    (d.type ≢ ServiceType.unknown)
    × (fits_int 31 d.num_replicas ≡ true)
    × InUnit d.error_rate
    × (d.response_size < 2 ^ 63)
    × AreBounded d.script
    × (d.request_size < 2 ^ 63)

default_defaults-IsBounded : IsBoundedDefaults default_defaults
default_defaults-IsBounded = ((λ e. cc), refl, inl (omega arith), omega arith, tt, omega arith)

pub globals_of-AreBounded : (d : Defaults) → IsBoundedDefaults d → AreBoundedGlobals (globals_of d)
unfolding globals_of
globals_of-AreBounded d (known_type, int32, rate, size, bounded, request) = record {
  service = (known_type, int32, rate, size, bounded);
  request = request;
}

module _ (R : Runtime) (T : IsTyped R) (g : Globals) where
  set_defaults_field-IsBounded :
      IsBoundedRequest g.default_request_command
      → (d : Defaults) (k : String) (v : Json) → IsBoundedDefaults d
      → Reads IsBoundedDefaults (set_defaults_field R g d k v)
  unfolding set_defaults_field
  set_defaults_field-IsBounded b d k v (known_type, int32, rate, size, bounded, request) =
      Reads-if _ (same_key k "type") _ _
        (λ _. Reads-custom _ _ (ServiceType.unmarshal_json v) (λ a e.
          (TypeRoundTrip.unmarshal_json-ne-unknown v e, int32, rate, size, bounded, request)))
        (λ _.
          Reads-if _ (same_key k "numReplicas") _ _
            (λ _.
              Reads-plain _ _ d.num_replicas (into_int 31 "int32" d.num_replicas v)
                (λ a e. (
                  known_type,
                  into_int32-fits d.num_replicas v a int32 e,
                  rate,
                  size,
                  bounded,
                  request,
                ))
                (known_type, int32, rate, size, bounded, request))
            (λ _.
              Reads-if _ (same_key k "errorRate") _ _
                (λ _. Reads-custom _ _ (Pct.unmarshal_json R v) (λ a e. (
                  known_type,
                  int32,
                  PctRange.unmarshal_json-InUnit R T v e,
                  size,
                  bounded,
                  request,
                )))
                (λ _.
                  Reads-if _ (same_key k "responseSize") _ _
                    (λ _. Reads-custom _ _ (Size.unmarshal_json R v) (λ a e. (
                      known_type,
                      int32,
                      rate,
                      SizeRange.unmarshal_json-lt R T v e,
                      bounded,
                      request,
                    )))
                    (λ _.
                      Reads-if _ (same_key k "script") _ _
                        (λ _.
                          Reads-custom _ _
                            (Script.parse_json_commands R g.default_request_command v)
                            (λ a e. (
                              known_type,
                              int32,
                              rate,
                              size,
                              parse_json_commands-AreBounded R T g.default_request_command v b e,
                              request,
                            )))
                        (λ _.
                          Reads-if _ (same_key k "requestSize") _ _
                            (λ _. Reads-custom _ _ (Size.unmarshal_json R v) (λ a e. (
                              known_type,
                              int32,
                              rate,
                              size,
                              bounded,
                              SizeRange.unmarshal_json-lt R T v e,
                            )))
                            (λ _. (known_type, int32, rate, size, bounded, request)))))))

  pub unmarshal_metadata-IsBounded :
      (j : Json) {d : Defaults}
      → IsBoundedRequest g.default_request_command
      → unmarshal_metadata R g j ≡ ok d
      → IsBoundedDefaults d
  unfolding unmarshal_metadata
  unmarshal_metadata-IsBounded j b e =
      into_struct-keeps IsBoundedDefaults (set_metadata_field R g)
        (λ d k v h.
          Reads-if _ (same_key k "defaults") _ _
            (λ _. Reads-struct _ (set_defaults_field R g) (set_defaults_field-IsBounded b) _ d v h)
            (λ _. h))
        _ default_defaults j default_defaults-IsBounded e
