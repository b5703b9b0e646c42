-- ===== src/Tests/Graph.antt =====
-- unmarshal_test.go
use isotope.Base.{String, ◌≡◌, refl, false, [], ◌∷◌}
use isotope.Base.Int.{pos}
use isotope.Base.Result.{Result, ok, err}
use isotope.Error.{Error, request_to_undefined_service, nested_concurrent_command}
use isotope.Json.{
  Json, Items, Fields, field, end, nil, cons, integer, decimal, number, string, array, object,
}
use isotope.Graph.{ServiceGraph}
use isotope.Graph.ServiceType.{http, grpc}
use isotope.Graph.Script.Types.{Command, Commands}
use isotope.Graph.Svc.Unmarshal.{initial}
use isotope.Graph.Unmarshal
use isotope.Graph.Validation
use isotope.Graph.Pct
use isotope.Graph.Size
use isotope.Graph.ServiceType
use isotope.Graph.Script
use isotope.Graph.Svc.Unmarshal as SvcUnmarshal
use isotope.Base.Dict
use isotope.Base.Float
use isotope.Base.Text
use isotope.Json.Decode
use isotope.Tests.Sample.{sample, tenth, fifth}

abbrev pub call : String → Json
call name = object (field "call" (string name) end)

abbrev pub sleep : String → Json
sleep text = object (field "sleep" (string text) end)

abbrev pub list2 : Json → Json → Json
list2 x y = array (cons x (cons y nil))

abbrev pub graph_json : Fields → Items → Json
graph_json defaults services =
    object (field "defaults" (object defaults) (field "services" (array services) end))

abbrev pub json_with_defaults_and_many_services : Json
json_with_defaults_and_many_services =
    graph_json
      (field "errorRate" (number (decimal "0.1")) (
        field "numReplicas" (number (integer (pos 2))) (
          field "requestSize" (number (integer (pos 516))) (
            field "responseSize" (number (integer (pos 128)))
              (field "script" (array (cons (sleep "100ms") nil)) end)))))
      (cons
        (object (field "name" (string "a") (field "numReplicas" (number (integer (pos 5))) end)))
        (cons
          (object (
            field "name" (string "b") (
              field "script"
                (list2
                  (object (
                    field "call"
                      (object (field "service" (string "a") (field "size" (string "1KiB") end)))
                      end))
                  (sleep "10ms"))
                end)))
          (cons
            (object (
              field "name" (string "c") (
                field "type" (string "grpc") (
                  field "numReplicas" (number (integer (pos 1))) (
                    field "errorRate" (string "20%") (
                      field "responseSize" (string "1K") (
                        field "script" (list2 (list2 (call "a") (call "b")) (sleep "10ms"))
                          end)))))))
            nil)))

abbrev pub graph_with_defaults_and_many_services : ServiceGraph
graph_with_defaults_and_many_services = record {
  services =
      record {
        name = "a";
        type = http;
        num_replicas = pos 5;
        is_entrypoint = false;
        error_rate = tenth;
        response_size = 128;
        script = Commands.cons (Command.sleep (pos 100000000)) Commands.nil;
      }
      ∷ record {
        name = "b";
        type = http;
        num_replicas = pos 2;
        is_entrypoint = false;
        error_rate = tenth;
        response_size = 128;
        script =
            Commands.cons (Command.request (record { service_name = "a"; size = 1024 }))
              (Commands.cons (Command.sleep (pos 10000000)) Commands.nil);
      }
      ∷ record {
        name = "c";
        type = grpc;
        num_replicas = pos 1;
        is_entrypoint = false;
        error_rate = fifth;
        response_size = 1024;
        script =
            Commands.cons
              (Command.concurrent (
                Commands.cons (Command.request (record { service_name = "a"; size = 516 })) (
                  Commands.cons (Command.request (record { service_name = "b"; size = 516 }))
                    Commands.nil)))
              (Commands.cons (Command.sleep (pos 10000000)) Commands.nil);
      }
      ∷ [];
}

unfoldable pub run : Json → Result Error ServiceGraph
unfolding Unmarshal.unmarshal_json Unmarshal.globals_of Unmarshal.parse_with_defaults
    Unmarshal.unmarshal_metadata Unmarshal.unmarshal_services Unmarshal.with_global_defaults
    Validation.validate Validation.validate_commands Dict.insert Dict.lookup Decode.into_struct
    Decode.decode_struct Decode.decode_fields Decode.decode_slice Decode.into_items
    Decode.into_string Decode.into_bool Decode.into_int Decode.same_key Pct.unmarshal_json
    Pct.from_string Pct.from_float64 Pct.into_float64 Float.float_le Text.before Size.unmarshal_json
    Size.from_string Size.from_int64 ServiceType.unmarshal_json ServiceType.from_string
    Script.parse_json_commands Script.unmarshal_commands Script.unmarshal_keyed
    Script.unmarshal_sleep Script.unmarshal_request Script.parse_json_command_key
    SvcUnmarshal.unmarshal_json SvcUnmarshal.set_service_field
run j = (Unmarshal.unmarshal_json sample j initial).0

pub unmarshal_many :
    run json_with_defaults_and_many_services ≡ ok graph_with_defaults_and_many_services
unfolding run Unmarshal.unmarshal_json
unmarshal_many = refl

abbrev pub json_with_request_to_undefined_service : Json
json_with_request_to_undefined_service = graph_json end (
    cons (object (field "name" (string "a") (field "script" (array (cons (call "b") nil)) end)))
      nil)

pub unmarshal_undefined :
    run json_with_request_to_undefined_service ≡ err (request_to_undefined_service "b")
unfolding run
unmarshal_undefined = refl

abbrev pub json_with_nested_concurrent_command : Json
json_with_nested_concurrent_command = graph_json end (
    cons (object (field "name" (string "a") end)) (
      cons
        (object (
          field "name" (string "b") (
            field "script" (array (cons (list2 (list2 (call "a") (call "a")) (sleep "10ms")) nil))
              end)))
        nil))

unmarshal_nested : run json_with_nested_concurrent_command ≡ err nested_concurrent_command
unfolding run
unmarshal_nested = refl
