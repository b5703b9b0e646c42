-- ===== src/Graph/ServiceType/RoundTrip.antt =====
-- Reading a service type of convert/pkg/graph/svctype that was written.
use isotope.Base.{◌≡◌, refl, ◌≢◌, arith}
use isotope.Base.Text.{to_lower}
use isotope.Base.Result.{ok}
use isotope.Json.{Json}
use isotope.Graph.ServiceType.{ServiceType, unknown, http, grpc, marshal_json, unmarshal_json}

-- What MarshalJSON writes, UnmarshalJSON reads back, except for ServiceUnknown.
pub type_round_trip : (t : ServiceType) → t ≢ unknown → unmarshal_json (marshal_json t) ≡ ok t
unfolding marshal_json unmarshal_json to_lower
type_round_trip http h = refl
type_round_trip grpc h = refl
type_round_trip unknown h = absurd (h refl)

-- UnmarshalJSON never yields ServiceUnknown.
pub unmarshal_json-ne-unknown : (j : Json) {t : ServiceType} → unmarshal_json j ≡ ok t → t ≢ unknown
unfolding unmarshal_json
unmarshal_json-ne-unknown j h = ground arith
