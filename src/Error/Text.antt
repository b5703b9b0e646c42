-- ===== src/Error/Text.antt =====
-- The messages of the errors: the Error methods and the texts of errors.New and fmt.Errorf.
use isotope.Base.{suc, String, ◌<>◌}
use isotope.Base.Float.{Float64}
use isotope.Base.Int.{ℤ, pos, negsuc}
use isotope.Base.Text.{decimal}
use isotope.Json.{Fields}
use isotope.Error.{
  Error, unmarshal_type, unsupported_value, invalid_percentage_string, out_of_range, negative_size,
  invalid_size, invalid_service_type_string, invalid_duration, empty_name, invalid_command_type,
  multiple_keys_in_command_map, unknown_command_key, request_to_undefined_service,
  nested_concurrent_command, unexpected_executable,
}

-- fmt's "%v" of an int
unfoldable pub int_text : ℤ → String
int_text (pos n) = decimal n
int_text (negsuc n) = "-" <> decimal (suc n)

-- What fmt makes of a float64 and of a map under "%v", and the messages of libraries: of
-- encoding/json, of units.RAMInBytes and of time.ParseDuration for the text that they refuse.
pub record Texts : Type 0 where
  pub float_text : Float64 → String
  pub map_text : Fields → String
  pub unmarshal_type_text : String → String → String
  pub unsupported_value_text : Float64 → String
  pub invalid_size_text : String → String
  pub invalid_duration_text : String → String

unfoldable pub invalid_percentage_string_text : String → String
invalid_percentage_string_text s =
    "invalid percentage as string: " <> (s <> " (must be between \"0%\" and \"100%\")")

unfoldable pub negative_size_text : ℤ → String
unfolding int_text
negative_size_text size = int_text size <> " must be non-negative"

unfoldable pub invalid_service_type_text : String → String
invalid_service_type_text s = "unknown service type: " <> s

abbrev pub empty_name_text : String
empty_name_text = "services must have a name"

unfoldable pub invalid_command_type_text : String → String
invalid_command_type_text type = "invalid command type: " <> type

unfoldable pub unknown_command_key_text : String → String
unknown_command_key_text key = "unknown command: " <> key

unfoldable pub request_to_undefined_service_text : String → String
request_to_undefined_service_text name = "cannot call undefined service \"" <> (name <> "\"")

abbrev pub nested_concurrent_command_text : String
nested_concurrent_command_text = "concurrent commands may not be nested"

unfoldable pub unexpected_executable_text : String → String
unexpected_executable_text type = "unexpected type of executable " <> type

module _ (T : Texts) where
  unfoldable pub out_of_range_text : Float64 → String
  out_of_range_text f =
      "percentage " <> (T.float_text f <> " is out of range (must be between 0.0 and 1.0)")

  unfoldable pub multiple_keys_text : Fields → String
  multiple_keys_text fs = "multiple keys for command: " <> T.map_text fs

  unfoldable pub error_text : Error → String
  unfolding invalid_percentage_string_text negative_size_text invalid_service_type_text
      invalid_command_type_text unknown_command_key_text request_to_undefined_service_text
      unexpected_executable_text out_of_range_text multiple_keys_text
  error_text (unmarshal_type found wanted) = T.unmarshal_type_text found wanted
  error_text (unsupported_value f) = T.unsupported_value_text f
  error_text (invalid_percentage_string s) = invalid_percentage_string_text s
  error_text (out_of_range f) = out_of_range_text f
  error_text (negative_size size) = negative_size_text size
  error_text (invalid_size s) = T.invalid_size_text s
  error_text (invalid_service_type_string s) = invalid_service_type_text s
  error_text (invalid_duration s) = T.invalid_duration_text s
  error_text empty_name = empty_name_text
  error_text (invalid_command_type type) = invalid_command_type_text type
  error_text (multiple_keys_in_command_map fs) = multiple_keys_text fs
  error_text (unknown_command_key key) = unknown_command_key_text key
  error_text (request_to_undefined_service name) = request_to_undefined_service_text name
  error_text nested_concurrent_command = nested_concurrent_command_text
  error_text (unexpected_executable type) = unexpected_executable_text type
