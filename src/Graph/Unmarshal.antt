-- ===== src/Graph/Unmarshal.antt =====
-- convert/pkg/graph/unmarshal.go: a graph is read twice, first for its defaults and then, while
-- they stand in the package variables of svc and script, for its services.
pub mod Bounds
pub mod Accept
pub mod DefaultScript
use isotope.Base.{String, false, none, some, [], if◌then◌else◌}
use isotope.Base.Int.{ℤ, pos}
use isotope.Base.Result.{Result, ok, err, ◌>>=◌}
use isotope.Runtime.{Runtime}
use isotope.Error.{Error}
use isotope.Json.{Json}
use isotope.Json.Decode.{into_int, into_struct, decode_struct, decode_slice, same_key}
use isotope.Json.Decode.{Decoded, done, custom, plain, update}
use isotope.Graph.{ServiceGraph}
use isotope.Graph.Pct
use isotope.Graph.Pct.{Percentage}
use isotope.Graph.Size
use isotope.Graph.Size.{ByteSize}
use isotope.Graph.ServiceType
use isotope.Graph.ServiceType.{ServiceType, http}
use isotope.Graph.Script
use isotope.Graph.Script.Types.{Commands}
use isotope.Graph.Svc.Unmarshal
use isotope.Graph.Svc.Unmarshal.{Globals}
use isotope.Graph.Validation.{validate}

pub record Defaults : Type 0 where
  pub type : ServiceType
  pub num_replicas : ℤ
  pub error_rate : Percentage
  pub response_size : ByteSize
  pub script : Script.Types.Script
  pub request_size : ByteSize

-- `defaultDefaults`
abbrev pub default_defaults : Defaults
default_defaults = record {
  type = http;
  num_replicas = pos 1;
  error_rate = 0;
  response_size = 0;
  script = Commands.nil;
  request_size = 0;
}

-- `withGlobalDefaults`: `f` runs under new package variables, and the old ones are put back. The
-- lock round it is in module `Graph.Lock`.
unfoldable pub globals_of : Defaults → Globals
globals_of d = record {
  default_service = record {
    name = "";
    type = d.type;
    num_replicas = d.num_replicas;
    is_entrypoint = false;
    error_rate = d.error_rate;
    response_size = d.response_size;
    script = d.script;
  };
  default_request_command = record { service_name = ""; size = d.request_size };
}

unfoldable pub with_global_defaults {ℓ} :
    {A : Type ℓ} → Defaults → (Globals → A × Globals) → Globals → A × Globals
unfolding globals_of
with_global_defaults defaults f g =
    let (a, g') = f (globals_of defaults) in
    (
      a,
      record g' {
        default_service = g.default_service;
        default_request_command = g.default_request_command;
      },
    )

module _ (R : Runtime) where
  -- How encoding/json sets the fields of `defaults`, `serviceGraphJSONMetadata` and
  -- `unmarshallableServiceGraph`.
  set_defaults_field : Globals → Defaults → String → Json → Decoded Defaults
  set_defaults_field g d key v =
      if same_key key "type"
      then update (λ x. record d { type = x }) (custom (ServiceType.unmarshal_json v))
      else if same_key key "numReplicas"
      then update (λ x. record d { num_replicas = x })
          (plain d.num_replicas (into_int 31 "int32" d.num_replicas v))
      else if same_key key "errorRate"
      then update (λ x. record d { error_rate = x }) (custom (Pct.unmarshal_json R v))
      else if same_key key "responseSize"
      then update (λ x. record d { response_size = x }) (custom (Size.unmarshal_json R v))
      else if same_key key "script"
      then update (λ x. record d { script = x })
          (custom (Script.unmarshal_json R g.default_request_command v))
      else if same_key key "requestSize"
      then update (λ x. record d { request_size = x }) (custom (Size.unmarshal_json R v))
      else done d none

  set_metadata_field : Globals → Defaults → String → Json → Decoded Defaults
  unfolding set_defaults_field
  set_metadata_field g d key v =
      if same_key key "defaults"
      then decode_struct (set_defaults_field g) "graph.defaults" d v
      else done d none

  set_graph_field : Globals → ServiceGraph → String → Json → Decoded ServiceGraph
  set_graph_field g sg key v =
      if same_key key "services"
      then update (λ x. record { services = x })
          (decode_slice (Unmarshal.unmarshal_json R g) "[]svc.Service" sg.services v)
      else done sg none

  -- The first `json.Unmarshal` of ServiceGraph.UnmarshalJSON. It runs outside the lock, under the
  -- package variables as they are.
  unfoldable pub unmarshal_metadata : Globals → Json → Result Error Defaults
  unfolding set_metadata_field
  unmarshal_metadata g j =
      into_struct (set_metadata_field g) "graph.serviceGraphJSONMetadata" default_defaults j

  unfoldable pub unmarshal_services : Globals → Json → Result Error ServiceGraph
  unfolding set_graph_field
  unmarshal_services g j =
      into_struct (set_graph_field g) "graph.unmarshallableServiceGraph" (record { services = [] })
        j

  -- parseJSONServiceGraphWithDefaults
  unfoldable pub parse_with_defaults :
      Json → Defaults → Globals → Result Error ServiceGraph × Globals
  parse_with_defaults j defaults g =
      with_global_defaults defaults (λ g'. (unmarshal_services g' j, g')) g

  abbrev pub validated : ServiceGraph → Result Error ServiceGraph
  validated sg = elim (validate sg) [ some e ↦ err e | none ↦ ok sg ]

  abbrev and_validate : Result Error ServiceGraph × Globals → Result Error ServiceGraph × Globals
  and_validate (r, g) = (r >>= validated, g)

  -- ServiceGraph.UnmarshalJSON
  unfoldable pub unmarshal_json : Json → Globals → Result Error ServiceGraph × Globals
  unmarshal_json j g = elim (unmarshal_metadata g j) [
    | err e ↦ (err e, g)
    | ok defaults ↦ and_validate (parse_with_defaults j defaults g)
  ]
