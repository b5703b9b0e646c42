-- ===== src/Tests/Sample.antt =====
-- A runtime that answers for the texts of the tests, and JSON values to read.
use isotope.Base.{ℕ, String, ◌==◌, Option, none, some, arith, nat_eq, if◌then◌else◌}
use isotope.Base.Float.{Float64, hundred}
use isotope.Base.Int.{ℤ, pos, negsuc}
use isotope.Json.{Literal, integer, decimal}
use isotope.Runtime.{Runtime, IsTyped}

-- The patterns of 20, of 0.2 and of 0.1.
abbrev pub twenty : Float64
twenty = 0x4034000000000000

abbrev pub fifth : Float64
fifth = 0x3fc999999999999a

abbrev pub tenth : Float64
tenth = 0x3fb999999999999a

abbrev sample_parse_float : String → Option Float64
sample_parse_float s = if s == "20" then some twenty else if s == "100" then some hundred else none

abbrev sample_json_float : Literal → Option Float64
sample_json_float (integer (pos n)) =
    if nat_eq n 0 then some 0 else if nat_eq n 20 then some twenty else none
sample_json_float (integer (negsuc n)) = none
sample_json_float (decimal s) =
    if s == "0.1" then some tenth else if s == "0.2" then some fifth else none

abbrev sample_float_json : Float64 → Option Literal
sample_float_json f =
    if nat_eq f 0
    then some (integer (pos 0))
    else if nat_eq f tenth
    then some (decimal "0.1")
    else if nat_eq f fifth
    then some (decimal "0.2")
    else none

abbrev sample_divide : Float64 → Float64 → Float64
sample_divide f g = if nat_eq f twenty then fifth else if nat_eq f g then 0x3ff0000000000000 else 0

abbrev sample_two_decimals : Float64 → String
sample_two_decimals f = if nat_eq f twenty then "20.00" else "0.00"

abbrev sample_parse_duration : String → Option ℤ
sample_parse_duration s =
    if s == "100ms" then some (pos 100000000) else if s == "10ms" then some (pos 10000000) else none

abbrev sample_duration_string : ℤ → String
sample_duration_string (pos n) = if nat_eq n 100000000 then "100ms" else "10ms"
sample_duration_string (negsuc n) = "-1ns"

abbrev sample_ram_in_bytes : String → Option ℤ
sample_ram_in_bytes s =
    if s == "1K"
    then some (pos 1024)
    else if s == "1KiB"
    then some (pos 1024)
    else if s == "128B"
    then some (pos 128)
    else if s == "516B"
    then some (pos 516)
    else if s == "0B"
    then some (pos 0)
    else none

abbrev sample_bytes_size : ℕ → String
sample_bytes_size n =
    if nat_eq n 1024
    then "1KiB"
    else if nat_eq n 128
    then "128B"
    else if nat_eq n 516
    then "516B"
    else "0B"

abbrev pub sample : Runtime
sample = record {
  parse_float = sample_parse_float;
  json_float = sample_json_float;
  float_json = sample_float_json;
  divide = sample_divide;
  multiply = λ f g. f;
  two_decimals = sample_two_decimals;
  parse_duration = sample_parse_duration;
  duration_string = sample_duration_string;
  ram_in_bytes = sample_ram_in_bytes;
  bytes_size = sample_bytes_size;
}

pub sample-IsTyped : IsTyped sample
sample-IsTyped = record {
  parsed = λ s f h. ground arith;
  read = λ n f h. ground arith;
  divided = λ f g. ground arith;
  sized = λ s z h. ground arith;
  lasting = λ s z h. ground arith;
}
