-- ===== src/Tests/GraphTheorems.antt =====
-- The theorems about reading and writing graphs, at the inputs of the repository's tests.
use isotope.Base.{
  String, ◌==◌, eq_iff, ◌≡◌, ◌≢◌, ◌↔◌, refl, inl, inr, none, some, true, false, [], ◌∷◌, All, Any,
  arith,
}
use isotope.Base.Int.{pos}
use isotope.Base.Float.{float_le, InUnit}
use isotope.Base.Result.{ok}
use isotope.Error.{request_to_undefined_service}
use isotope.Json.{integer, decimal}
use isotope.Graph.{ServiceGraph}
use isotope.Graph.Pct.{from_float64}
use isotope.Graph.Pct.Range.{from_float64_iff}
use isotope.Graph.ServiceType.{http, grpc}
use isotope.Graph.Script.Types.{Command, Commands}
use isotope.Graph.Script.Predicates.{SomeCalls, SomeNests}
use isotope.Graph.Script.Marshal.RoundTrip.{AreWritable}
use isotope.Graph.Svc.{Service}
use isotope.Graph.Svc.Marshal.RoundTrip.{IsWritableService, IsExactRate}
use isotope.Graph.Svc.Unmarshal.{initial}
use isotope.Graph.Validation
use isotope.Graph.Validation.Spec.{IsValid, Defines, validate_iff}
use isotope.Graph.Validation.Reasons.{Reason, validate-Reason}
use isotope.Graph.Unmarshal
use isotope.Graph.Unmarshal.Accept.{
  unmarshal_json-globals, unmarshal_json-IsValid, IsBoundedAndNamed,
}
use isotope.Tests.Sample.{sample, sample-IsTyped, tenth, fifth}
use isotope.Tests.Graph.{
  run, unmarshal_many, json_with_defaults_and_many_services, graph_with_defaults_and_many_services,
  json_with_request_to_undefined_service,
}

unmarshal_json-IsValid_example :
    IsValid graph_with_defaults_and_many_services
    × All IsBoundedAndNamed graph_with_defaults_and_many_services.services
unfolding run
unmarshal_json-IsValid_example =
    unmarshal_json-IsValid sample initial json_with_defaults_and_many_services
      graph_with_defaults_and_many_services sample-IsTyped (omega arith) unmarshal_many

unmarshal_json-globals_example :
    (Unmarshal.unmarshal_json sample json_with_request_to_undefined_service initial).1 ≡ initial
unmarshal_json-globals_example =
    unmarshal_json-globals sample json_with_request_to_undefined_service initial

validate_iff_example :
    (Validation.validate graph_with_defaults_and_many_services ≡ none)
    ↔ IsValid graph_with_defaults_and_many_services
validate_iff_example = validate_iff graph_with_defaults_and_many_services

abbrev dangling : ServiceGraph
dangling = record {
  services =
      record initial.default_service {
        name = "a";
        script =
            Commands.cons (Command.request (record { service_name = "b"; size = 0 })) Commands.nil;
      }
      ∷ [];
}

dangling_error : Validation.validate dangling ≡ some (request_to_undefined_service "b")
unfolding run
dangling_error = refl

validate-Reason_example :
    Reason
      (Defines dangling.services)
      (λ n. Any (λ s. SomeCalls n s.script) dangling.services)
      (Any (λ s. SomeNests s.script) dangling.services)
      (request_to_undefined_service "b")
validate-Reason_example = validate-Reason dangling (request_to_undefined_service "b") dangling_error

exact_zero : IsExactRate sample 0
unfolding from_float64 float_le
exact_zero = record {
  text = integer (pos 0);
  written = refl;
  read = refl;
  in_range = refl;
  positive_zero = λ h. refl;
}

exact_tenth : IsExactRate sample tenth
unfolding from_float64 float_le
exact_tenth = record {
  text = decimal "0.1";
  written = refl;
  read = refl;
  in_range = refl;
  positive_zero = λ h. cc;
}

exact_fifth : IsExactRate sample fifth
unfolding from_float64 float_le
exact_fifth = record {
  text = decimal "0.2";
  written = refl;
  read = refl;
  in_range = refl;
  positive_zero = λ h. cc;
}

abbrev pub script_c : Commands
script_c =
    Commands.cons
      (Command.concurrent (
        Commands.cons (Command.request (record { service_name = "a"; size = 516 })) (
          Commands.cons (Command.request (record { service_name = "b"; size = 516 }))
            Commands.nil)))
      (Commands.cons (Command.sleep (pos 10000000)) Commands.nil)

script_c-AreWritable : AreWritable sample script_c
script_c-AreWritable = ((refl, (refl, tt)), (refl, tt))

abbrev pub service_c : Service
service_c = record {
  name = "c";
  type = grpc;
  num_replicas = pos 1;
  is_entrypoint = false;
  error_rate = fifth;
  response_size = 1024;
  script = script_c;
}

pub a_not_empty : (n : String) → (n == "") ≡ false → n ≢ ""
a_not_empty n h e = ground (arith, eq_iff n "")

service_c-IsWritable : IsWritableService sample service_c
service_c-IsWritable = record {
  name = a_not_empty "c" refl;
  type = λ e. cc;
  replicas = λ e. ground arith;
  int32 = refl;
  rate = exact_fifth;
  size = refl;
  script = script_c-AreWritable;
}

abbrev pub service_a : Service
service_a = record {
  name = "a";
  type = http;
  num_replicas = pos 5;
  is_entrypoint = true;
  error_rate = tenth;
  response_size = 128;
  script = Commands.cons (Command.sleep (pos 100000000)) Commands.nil;
}

abbrev pub service_b : Service
service_b = record {
  name = "b";
  type = http;
  num_replicas = pos 2;
  is_entrypoint = false;
  error_rate = 0;
  response_size = 0;
  script = Commands.nil;
}

abbrev pub three_services : ServiceGraph
three_services = record { services = service_a ∷ service_b ∷ service_c ∷ [] }

service_a-IsWritable : IsWritableService sample service_a
service_a-IsWritable = record {
  name = a_not_empty "a" refl;
  type = λ e. cc;
  replicas = λ e. ground arith;
  int32 = refl;
  rate = exact_tenth;
  size = refl;
  script = (refl, tt);
}

service_b-IsWritable : IsWritableService sample service_b
service_b-IsWritable = record {
  name = a_not_empty "b" refl;
  type = λ e. cc;
  replicas = λ e. ground arith;
  int32 = refl;
  rate = exact_zero;
  size = refl;
  script = tt;
}

pub three_services-IsValid : IsValid three_services
three_services-IsValid = ((tt, tt), (tt, (((inl refl, (inr (inl refl), tt)), (tt, tt)), tt)))

pub three_services-AreWritable : All (IsWritableService sample) three_services.services
three_services-AreWritable =
    (service_a-IsWritable, (service_b-IsWritable, (service_c-IsWritable, tt)))

from_float64_iff_example : (from_float64 tenth ≡ ok tenth) ↔ ((tenth ≡ tenth) × InUnit tenth)
from_float64_iff_example = from_float64_iff tenth tenth (omega arith)
