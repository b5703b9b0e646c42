-- ===== src/Graph/Unmarshal/DefaultScript.antt =====
-- The default script and the default size of requests in ServiceGraph.UnmarshalJSON.
use isotope.Base.{
  ℕ, ◌^◌, ◌<◌, String, ◌==◌, eq_iff, ◌≡◌, ◌≢◌, false, refl, inl, List, All, [], ◌∷◌, arith, lt→ltb,
}
use isotope.Base.Int.{pos}
use isotope.Base.Result.{ok}
use isotope.Runtime.{Runtime}
use isotope.Json.{Json, Items, field, end, nil, cons, integer, number, string, array, object}
use isotope.Json.Decode.{
  into_string, into_struct, decode_struct, decode_fields, decode_slice, same_key,
}
use isotope.Graph.{ServiceGraph}
use isotope.Graph.Size
use isotope.Graph.Script
use isotope.Graph.Script.Types.{Command, Commands, RequestCommand}
use isotope.Graph.Svc.{Service}
use isotope.Graph.Svc.Unmarshal as SvcUnmarshal
use isotope.Graph.Svc.Unmarshal.{Globals, initial}
use isotope.Graph.Validation.Spec.{Defines, IsScript, validate_iff}
use isotope.Graph.Unmarshal.{
  Defaults, default_defaults, globals_of, unmarshal_metadata, unmarshal_services, unmarshal_json,
}
use isotope.Graph.Unmarshal.Accept.{unmarshal_json-accepts}

-- Calls of services, by their names alone.
abbrev pub call_items : List String → Items
call_items [] = nil
call_items (name ∷ names) = cons (object (field "call" (string name) end)) (call_items names)

abbrev pub call_script : List String → Json
call_script names = array (call_items names)

abbrev pub calls_of : ℕ → List String → Commands
calls_of size [] = Commands.nil
calls_of size (name ∷ names) =
    Commands.cons (Command.request (record { service_name = name; size = size }))
      (calls_of size names)

-- A graph of one service that makes calls, with a default size of requests, and with the script among
-- the defaults or with the service.
abbrev pub json_with_default_script : ℕ → String → List String → Json
json_with_default_script n name names = object (
    field "defaults"
      (object
        (field "requestSize" (number (integer (pos n))) (field "script" (call_script names) end)))
      (field "services" (array (cons (object (field "name" (string name) end)) nil)) end))

abbrev pub json_with_own_script : ℕ → String → List String → Json
json_with_own_script n name names = object (
    field "defaults" (object (field "requestSize" (number (integer (pos n))) end)) (
      field "services"
        (array
          (cons (object (field "name" (string name) (field "script" (call_script names) end))) nil))
        end))

-- The service that makes the calls with requests of a size.
abbrev pub caller : ℕ → String → List String → Service
caller size name names = record initial.default_service {
  name = name;
  script = calls_of size names;
}

abbrev pub only : Service → ServiceGraph
only s = record { services = s ∷ [] }

module _ (R : Runtime) (g : Globals) (n : ℕ) (name : String) (names : List String) where
  calls_read :
      (default : RequestCommand) (names : List String)
      → Script.unmarshal_commands R default (call_items names) ≡ ok (calls_of default.size names)
  unfolding Script.unmarshal_commands Script.unmarshal_keyed Script.unmarshal_request
  calls_read default [] = refl
  calls_read default (m ∷ ms) = rw (calls_read default ms) refl

  size_read : n < 2 ^ 63 → Size.unmarshal_json R (number (integer (pos n))) ≡ ok n
  unfolding Size.unmarshal_json Size.from_int64
  size_read h = rw (lt→ltb n (2 ^ 63) h)

  not_empty : name ≢ "" → (name == "") ≡ false
  not_empty h = ground (arith, eq_iff name "")

  abbrev own : Defaults
  own = record default_defaults { request_size = n }

  abbrev inherited : Defaults
  inherited = record own { script = (caller g.default_request_command.size name names).script }

  metadata_own : n < 2 ^ 63 → unmarshal_metadata R g (json_with_own_script n name names) ≡ ok own
  unfolding unmarshal_metadata into_struct decode_struct decode_fields same_key
  metadata_own h = rw (size_read h)

  metadata_inherited :
      n < 2 ^ 63 → unmarshal_metadata R g (json_with_default_script n name names) ≡ ok inherited
  unfolding unmarshal_metadata into_struct decode_struct decode_fields same_key
      Script.parse_json_commands Script.unmarshal_commands Script.unmarshal_keyed
      Script.unmarshal_request
  metadata_inherited h = rw (size_read h, calls_read g.default_request_command names) refl

  services_own :
      name ≢ ""
      → unmarshal_services R (globals_of own) (json_with_own_script n name names)
        ≡ ok (only (caller n name names))
  unfolding unmarshal_services into_struct decode_fields decode_slice same_key globals_of
      into_string SvcUnmarshal.unmarshal_json SvcUnmarshal.set_service_field
      Script.parse_json_commands Script.unmarshal_commands Script.unmarshal_keyed
      Script.unmarshal_request
  services_own h = rw (calls_read (globals_of own).default_request_command names, not_empty h) refl

  services_inherited :
      name ≢ ""
      → unmarshal_services R (globals_of inherited) (json_with_default_script n name names)
        ≡ ok (only (caller g.default_request_command.size name names))
  unfolding unmarshal_services into_struct decode_fields decode_slice same_key globals_of
      into_string SvcUnmarshal.unmarshal_json SvcUnmarshal.set_service_field
  services_inherited h = rw (not_empty h)

-- The calls are of the service itself, which is the one that there is.
self_calls-IsScript :
    (s : Service) (size : ℕ) (names : List String)
    → All (λ callee. s.name ≡ callee) names
    → IsScript (Defines (s ∷ [])) (calls_of size names)
self_calls-IsScript s size [] h = tt
self_calls-IsScript s size (m ∷ ms) h = (inl h.0, self_calls-IsScript s size ms h.1)

-- Of a graph of one service, with a name, whose script is a list of calls of the service itself, each
-- by the name alone, with a default size of requests below 2^63: if the script is the own one of the
-- service, all calls have that size, and if it is the default script, the size of the package variable
-- DefaultRequestCommand when reading begins.
pub default_script_size :
    (R : Runtime) (g : Globals) (n : ℕ) (name : String) (names : List String)
    → n < 2 ^ 63
    → name ≢ ""
    → All (λ callee. name ≡ callee) names
    → ((unmarshal_json R (json_with_own_script n name names) g).0 ≡ ok (only (caller n name names)))
      × ((unmarshal_json R (json_with_default_script n name names) g).0
          ≡ ok (only (caller g.default_request_command.size name names)))
default_script_size R g n name names b h own_calls = (
  unmarshal_json-accepts R _ g (own R g n name names) _ (metadata_own R g n name names b)
      (services_own R g n name names h)
      ((validate_iff (only (caller n name names))).1
        (self_calls-IsScript (caller n name names) n names own_calls, tt)),
  unmarshal_json-accepts R _ g (inherited R g n name names) _
      (metadata_inherited R g n name names b) (services_inherited R g n name names h)
      ((validate_iff (only (caller g.default_request_command.size name names))).1 (
        self_calls-IsScript (caller g.default_request_command.size name names)
            g.default_request_command.size names own_calls,
        tt,
      )),
)
