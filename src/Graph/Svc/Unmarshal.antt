-- ===== src/Graph/Svc/Unmarshal.antt =====
-- convert/pkg/graph/svc/unmarshal.go, and the values that other packages default to.
use isotope.Base.{String, ◌==◌, false, none, if◌then◌else◌}
use isotope.Base.Int.{pos}
use isotope.Base.Result.{Result, ok, err, ◌>>=◌}
use isotope.Runtime.{Runtime}
use isotope.Error.{Error, empty_name}
use isotope.Json.{Json}
use isotope.Json.Decode.{into_string, into_bool, into_int, into_struct, same_key}
use isotope.Json.Decode.{Decoded, done, custom, plain, update}
use isotope.Graph.Pct
use isotope.Graph.Size
use isotope.Graph.ServiceType
use isotope.Graph.Script
use isotope.Graph.Script.Types.{RequestCommand, Commands}
use isotope.Graph.Svc.{Service}

-- The package variables that an `UnmarshalJSON` method reads: `svc.DefaultService` and
-- `script.DefaultRequestCommand`.
pub record Globals : Type 0 where
  pub default_service : Service
  pub default_request_command : RequestCommand

-- Their values when the program starts.
abbrev pub initial : Globals
initial = record {
  default_service = record {
    name = "";
    type = ServiceType.http;
    num_replicas = pos 1;
    is_entrypoint = false;
    error_rate = 0;
    response_size = 0;
    script = Commands.nil;
  };
  default_request_command = record { service_name = ""; size = 0 };
}

module _ (R : Runtime) (g : Globals) where
  -- How encoding/json sets the field of a key in `unmarshallableService`.
  unfoldable pub set_service_field : Service → String → Json → Decoded Service
  set_service_field s key v =
      if same_key key "name"
      then update (λ x. record s { name = x }) (plain s.name (into_string s.name v))
      else if same_key key "type"
      then update (λ x. record s { type = x }) (custom (ServiceType.unmarshal_json v))
      else if same_key key "numReplicas"
      then update (λ x. record s { num_replicas = x })
          (plain s.num_replicas (into_int 31 "int32" s.num_replicas v))
      else if same_key key "isEntrypoint"
      then update (λ x. record s { is_entrypoint = x })
          (plain s.is_entrypoint (into_bool s.is_entrypoint v))
      else if same_key key "errorRate"
      then update (λ x. record s { error_rate = x }) (custom (Pct.unmarshal_json R v))
      else if same_key key "responseSize"
      then update (λ x. record s { response_size = x }) (custom (Size.unmarshal_json R v))
      else if same_key key "script"
      then update (λ x. record s { script = x })
          (custom (Script.unmarshal_json R g.default_request_command v))
      else done s none

  unfoldable pub named : Service → Result Error Service
  named s = if s.name == "" then err empty_name else ok s

  -- Service.UnmarshalJSON
  unfoldable pub unmarshal_json : Json → Result Error Service
  unfolding named
  unmarshal_json j = do
    s ← into_struct set_service_field "svc.unmarshallableService" g.default_service j
    named s
