-- ===== src/Graph/Svc/Bounds.antt =====
-- The name, the type and the ranges of numbers of a service that svc.Service.UnmarshalJSON reads.
use isotope.Base.{◌^◌, ◌<◌, String, ◌==◌, eq_iff, ◌≡◌, ◌≢◌, true, arith, Bool-cases, inl, inr}
use isotope.Base.Int.{ℤ, fits_int}
use isotope.Base.Float.{InUnit}
use isotope.Base.Result.{ok, >>=-eq-ok, ok-injective}
use isotope.Runtime.{Runtime, IsTyped}
use isotope.Json.{Json, null, number, integer, decimal}
use isotope.Json.Decode.{into_string, into_bool, into_int, into_struct, same_key}
use isotope.Json.Decode.Keeps.{Reads, Reads-if, Reads-plain, Reads-custom, into_struct-keeps}
use isotope.Graph.Pct
use isotope.Graph.Pct.Range as PctRange
use isotope.Graph.Size
use isotope.Graph.Size.Range as SizeRange
use isotope.Graph.ServiceType
use isotope.Graph.ServiceType.{ServiceType}
use isotope.Graph.ServiceType.RoundTrip as TypeRoundTrip
use isotope.Graph.Script
use isotope.Graph.Script.Bounds.{IsBoundedRequest, AreBounded, parse_json_commands-AreBounded}
use isotope.Graph.Svc.{Service}
use isotope.Graph.Svc.Unmarshal.{Globals, set_service_field, named, unmarshal_json}

-- All but the name: the type, the replicas, the error rate, the response size and the script.
abbrev pub IsBoundedService : Service → Type 0
IsBoundedService s =
    (s.type ≢ ServiceType.unknown)
    × (fits_int 31 s.num_replicas ≡ true)
    × InUnit s.error_rate
    × (s.response_size < 2 ^ 63)
    × AreBounded s.script

pub record AreBoundedGlobals (g : Globals) : Type 0 where
  pub service : IsBoundedService g.default_service
  pub request : IsBoundedRequest g.default_request_command

pub into_int32-fits :
    (old : ℤ) (j : Json) (z : ℤ)
    → fits_int 31 old ≡ true
    → into_int 31 "int32" old j ≡ ok z
    → fits_int 31 z ≡ true
unfolding into_int
into_int32-fits old null z h e = rw (← ok-injective e) h
into_int32-fits old (number (integer n)) z h e = ground arith
into_int32-fits old (number (decimal s)) z h e = cc
into_int32-fits old _ z h e = cc

module _ (R : Runtime) (T : IsTyped R) (g : Globals) (b : AreBoundedGlobals g) where
  set_service_field-IsBounded :
      (s : Service) (k : String) (v : Json)
      → IsBoundedService s
      → Reads IsBoundedService (set_service_field R g s k v)
  unfolding set_service_field
  set_service_field-IsBounded s k v (known_type, int32, rate, size, bounded) =
      let h : IsBoundedService s = (known_type, int32, rate, size, bounded) in
      Reads-if _ (same_key k "name") _ _
        (λ _. Reads-plain _ _ s.name (into_string s.name v) (λ a e. h) h)
        (λ _.
          Reads-if _ (same_key k "type") _ _
            (λ _.
              Reads-custom _ _ (ServiceType.unmarshal_json v)
                (λ a e. (TypeRoundTrip.unmarshal_json-ne-unknown v e, int32, rate, size, bounded)))
            (λ _.
              Reads-if _ (same_key k "numReplicas") _ _
                (λ _.
                  Reads-plain _ _ s.num_replicas (into_int 31 "int32" s.num_replicas v)
                    (λ a e.
                      (known_type, into_int32-fits s.num_replicas v a int32 e, rate, size, bounded))
                    h)
                (λ _.
                  Reads-if _ (same_key k "isEntrypoint") _ _
                    (λ _.
                      Reads-plain _ _ s.is_entrypoint (into_bool s.is_entrypoint v) (λ a e. h) h)
                    (λ _.
                      Reads-if _ (same_key k "errorRate") _ _
                        (λ _. Reads-custom _ _ (Pct.unmarshal_json R v) (λ a e. (
                          known_type,
                          int32,
                          PctRange.unmarshal_json-InUnit R T v e,
                          size,
                          bounded,
                        )))
                        (λ _.
                          Reads-if _ (same_key k "responseSize") _ _
                            (λ _. Reads-custom _ _ (Size.unmarshal_json R v) (λ a e. (
                              known_type,
                              int32,
                              rate,
                              SizeRange.unmarshal_json-lt R T v e,
                              bounded,
                            )))
                            (λ _.
                              Reads-if _ (same_key k "script") _ _
                                (λ _.
                                  Reads-custom _ _
                                    (Script.parse_json_commands R g.default_request_command v)
                                    (λ a e. (
                                      known_type,
                                      int32,
                                      rate,
                                      size,
                                      parse_json_commands-AreBounded R T g.default_request_command v
                                          b.request e,
                                    )))
                                (λ _. h)))))))

  -- A service that UnmarshalJSON accepts has a name and a known protocol, an int32 of replicas, an
  -- error rate from 0 to 1, a response size below 2 ^ 63, and a script of commands in range, if the
  -- defaults are such.
  pub unmarshal_json-IsBounded :
      (j : Json) (s : Service) → unmarshal_json R g j ≡ ok s → (s.name ≢ "") × IsBoundedService s
  unfolding unmarshal_json
  unmarshal_json-IsBounded j s e =
      let (s', u, k) =
        >>=-eq-ok
          (into_struct (set_service_field R g) "svc.unmarshallableService" g.default_service j)
          (named R g) e in
      let h' : IsBoundedService s' =
        into_struct-keeps IsBoundedService (set_service_field R g) set_service_field-IsBounded _
          g.default_service j b.service u in
      elim (Bool-cases (s'.name == "")) [
        | inl empty ↦ absurd (ground arith)
        | inr full ↦ rw (← ok-injective (rw full at k)) (ground (arith, eq_iff s'.name ""), h')
      ]
