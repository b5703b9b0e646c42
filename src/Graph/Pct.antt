-- ===== src/Graph/Pct.antt =====
-- convert/pkg/graph/pct: percentages, kept as a float64 between 0 and 1.
pub mod Range
use isotope.Base.{String, ◌<>◌, ◌&&◌, Option, none, some, if◌then◌else◌}
use isotope.Base.Text.{before}
use isotope.Base.Float.{Float64, float_le, one, hundred}
use isotope.Base.Result.{Result, ok, err, ◌>>=◌}
use isotope.Runtime.{Runtime}
use isotope.Error.{Error, invalid_percentage_string, out_of_range, unsupported_value}
use isotope.Json.{Json, null, string, number}
use isotope.Json.Decode.{into_string, mismatch}

abbrev pub Percentage : Type 0
Percentage = Float64

unfoldable pub from_float64 : Float64 → Result Error Percentage
from_float64 f =
    let is_valid_percentage = float_le 0 f && float_le f one in
    if is_valid_percentage then ok f else err (out_of_range f)

module _ (R : Runtime) where
  unfoldable pub to_string : Percentage → String
  to_string p = R.two_decimals (R.multiply p hundred) <> "%"

  -- MarshalJSON
  unfoldable pub marshal_json : Percentage → Result Error Json
  marshal_json p = elim (R.float_json p) [
    | none ↦ err (unsupported_value p)
    | some n ↦ ok (number n)
  ]

  abbrev parsed_number : String → Option Float64 → Result Error Percentage
  parsed_number s none = err (invalid_percentage_string s)
  parsed_number s (some f) = from_float64 (R.divide f hundred)

  unfoldable pub from_string : String → Result Error Percentage
  from_string s = elim (before b'%' s) [
    | none ↦ err (invalid_percentage_string s)
    | some digits ↦ parsed_number s (R.parse_float digits)
  ]

  -- `json.Unmarshal(b, &f)` into a float64 that holds 0
  unfoldable pub into_float64 : Json → Result Error Float64
  into_float64 null = ok 0
  into_float64 (number n) = elim (R.json_float n) [
    | none ↦ mismatch (number n) "float64"
    | some f ↦ ok f
  ]
  into_float64 j = mismatch j "float64"

  -- UnmarshalJSON
  unfoldable pub unmarshal_json : Json → Result Error Percentage
  unfolding from_string into_float64 into_string
  unmarshal_json (string s) = do s' ← into_string "" (string s); from_string s'
  unmarshal_json j = do f ← into_float64 j; from_float64 f
