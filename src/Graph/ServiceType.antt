-- ===== src/Graph/ServiceType.antt =====
-- convert/pkg/graph/svctype: the protocol of a service.
pub mod RoundTrip
use isotope.Base.{String, ◌==◌, if◌then◌else◌}
use isotope.Base.Text.{to_lower}
use isotope.Base.Result.{Result, ok, err, ◌>>=◌}
use isotope.Error.{Error, invalid_service_type_string}
use isotope.Json.{Json, string}
use isotope.Json.Decode.{into_string}

pub data ServiceType : Type 0 where
  unknown http grpc : ServiceType

unfoldable pub to_string : ServiceType → String
to_string http = "HTTP"
to_string grpc = "gRPC"
to_string unknown = ""

-- MarshalJSON
unfoldable pub marshal_json : ServiceType → Json
unfolding to_string
marshal_json t = string (to_lower (to_string t))

unfoldable pub from_string : String → Result Error ServiceType
from_string s =
    if s == "http"
    then ok http
    else if s == "grpc"
    then ok grpc
    else err (invalid_service_type_string s)

-- UnmarshalJSON
unfoldable pub unmarshal_json : Json → Result Error ServiceType
unfolding from_string into_string
unmarshal_json j = do s ← into_string "" j; from_string s
