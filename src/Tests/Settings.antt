-- ===== src/Tests/Settings.antt =====
-- The settings of services and their defaults at concrete data.
use isotope.Tests.GraphTheorems.{a_not_empty}
use isotope.Base.{String, List, [], ◌∷◌, ◌≡◌, refl, arith}
use isotope.Base.Int.{pos}
use isotope.Base.Float.{InUnit}
use isotope.Base.Result.{ok}
use isotope.Json.{field, end, string, object}
use isotope.Graph.Pct.{from_float64}
use isotope.Graph.Pct
use isotope.Graph.Pct.Range.{unmarshal_json-InUnit}
use isotope.Graph.Size
use isotope.Graph.ServiceType.{grpc}
use isotope.Graph.Svc.{Service}
use isotope.Graph.Svc.Defaults.{Inherits, unmarshal_json-Inherits}
use isotope.Graph.Svc.Unmarshal as SvcUnmarshal
use isotope.Graph.Svc.Unmarshal.{Globals, initial}
use isotope.Graph.Unmarshal
use isotope.Graph.Unmarshal.DefaultScript.{
  json_with_own_script, json_with_default_script, caller, only, default_script_size,
}
use isotope.Tests.Sample.{sample, sample-IsTyped, tenth, fifth}
use isotope.Tests.Graph.{run}

twenty_percent : Pct.unmarshal_json sample (string "20%") ≡ ok fifth
unfolding run
twenty_percent = refl

unmarshal_json-InUnit_example : InUnit fifth
unmarshal_json-InUnit_example =
    unmarshal_json-InUnit sample sample-IsTyped (string "20%") twenty_percent

one_kilobyte : Size.unmarshal_json sample (string "1K") ≡ ok 1024
unfolding run
one_kilobyte = refl

abbrev tenfold : Globals
tenfold = record initial {
  default_service = record initial.default_service { num_replicas = pos 10; error_rate = tenth };
}

abbrev named_d : Service
named_d = record tenfold.default_service { name = "d"; type = grpc }

read_named_d :
    SvcUnmarshal.unmarshal_json sample tenfold
      (object (field "NAME" (string "d") (field "type" (string "grpc") end)))
    ≡ ok named_d
unfolding run
read_named_d = refl

unmarshal_json-Inherits_example :
    Inherits tenfold.default_service
      (field "NAME" (string "d") (field "type" (string "grpc") end))
      named_d
unmarshal_json-Inherits_example =
    unmarshal_json-Inherits sample tenfold
      (field "NAME" (string "d") (field "type" (string "grpc") end)) named_d read_named_d

abbrev two_calls : List String
two_calls = "a" ∷ "a" ∷ []

default_script_size_example :
    ((Unmarshal.unmarshal_json sample (json_with_own_script 516 "a" two_calls) initial).0
      ≡ ok (only (caller 516 "a" two_calls)))
    × ((Unmarshal.unmarshal_json sample (json_with_default_script 516 "a" two_calls) initial).0
        ≡ ok (only (caller 0 "a" two_calls)))
default_script_size_example =
    default_script_size sample initial 516 "a" two_calls (omega arith) (a_not_empty "a" refl)
      (refl, (refl, tt))
