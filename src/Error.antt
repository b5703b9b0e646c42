-- ===== src/Error.antt =====
-- The error values of the program, one constructor for each error type or message of the source.
-- Two constructors stand for errors of libraries: `invalid_size` for units.RAMInBytes and
-- `invalid_duration` for time.ParseDuration, each with the text that was refused.
pub mod Text
use isotope.Base.{ℕ, String}
use isotope.Base.Int.{ℤ}
use isotope.Json.{Fields}

pub data Error : Type 0 where
  -- json.UnmarshalTypeError: the kind of the JSON value, and the Go type
  unmarshal_type : String → String → Error
  -- json.UnsupportedValueError
  unsupported_value : ℕ → Error
  invalid_percentage_string : String → Error
  -- the argument is the pattern of bits of a float64
  out_of_range : ℕ → Error
  negative_size : ℤ → Error
  invalid_size : String → Error
  invalid_service_type_string : String → Error
  invalid_duration : String → Error
  empty_name : Error
  invalid_command_type : String → Error
  multiple_keys_in_command_map : Fields → Error
  unknown_command_key : String → Error
  request_to_undefined_service : String → Error
  nested_concurrent_command : Error
  -- graphviz: unexpected type of executable
  unexpected_executable : String → Error
