-- ===== src/Graph/Script.antt =====
-- convert/pkg/graph/script: the commands of a script, and the JSON that they are read from.
-- `Command` is `interface{}` in the source. `other` stands for a value of any type but the three
-- commands, with the name of its type.
pub mod Types
pub mod Bounds
pub mod Marshal
pub mod Predicates
use isotope.Base.{ℕ, String, ◌==◌, ◌≡◌, refl, Bool, true, false, Option, none, some, if◌then◌else◌}
use isotope.Base.Int.{ℤ, pos}
use isotope.Base.Result.{Result, ok, err, ◌>>=◌}
use isotope.Runtime.{Runtime}
use isotope.Error.{Error, invalid_duration, multiple_keys_in_command_map, unknown_command_key}
use isotope.Error.{unmarshal_type}
use isotope.Json.{Json, Items, Fields, Literal, null, bool, number, string, array, object, kind}
use isotope.Json.Decode.{into_string, into_struct, same_key, mismatch}
use isotope.Json.Decode.{Decoded, abort, done, custom, plain, update}
use isotope.Graph.Size
use isotope.Graph.Script.Types.{RequestCommand, Command, Commands, Script}

-- sleepCommandKey and requestCommandKey
abbrev pub sleep_command_key : String
sleep_command_key = "sleep"

abbrev pub request_command_key : String
request_command_key = "call"

module _ (R : Runtime) where
  -- SleepCommand.UnmarshalJSON
  unfoldable pub unmarshal_sleep : Json → Result Error ℤ
  unfolding into_string
  unmarshal_sleep j = do
    duration_str ← into_string "" j
    elim (R.parse_duration duration_str) [
      | none ↦ err (invalid_duration duration_str)
      | some duration ↦ ok duration
    ]

  -- How encoding/json sets the field of a key in `unmarshallableRequestCommand`.
  set_request_field : RequestCommand → String → Json → Decoded RequestCommand
  set_request_field c key v =
      if same_key key "service"
      then update (λ name. record c { service_name = name })
          (plain c.service_name (into_string c.service_name v))
      else if same_key key "size"
      then update (λ size. record c { size = size }) (custom (Size.unmarshal_json R v))
      else done c none

  -- RequestCommand.UnmarshalJSON, with `DefaultRequestCommand` as it stands
  unfoldable pub unmarshal_request : RequestCommand → Json → Result Error RequestCommand
  unfolding set_request_field into_string
  unmarshal_request default (string s) = do
    s' ← into_string "" (string s)
    ok (record default { service_name = s' })
  unmarshal_request default j =
      into_struct set_request_field "script.unmarshallableRequestCommand" default j

  -- The first number of a value that no float64 holds: reading into an `interface{}` reports it.
  mutual
    number_error : Json → Option Error
    number_error (number n) = elim (R.json_float n) [
      | none ↦ some (unmarshal_type "number" "float64")
      | some f ↦ none
    ]
    number_error (array xs) = items_error xs
    number_error (object fs) = fields_error fs
    number_error _ = none

    items_error : Items → Option Error
    items_error Items.nil = none
    items_error (Items.cons x xs) = elim (number_error x) [
      | some e ↦ some e
      | none ↦ items_error xs
    ]

    fields_error : Fields → Option Error
    fields_error Fields.end = none
    fields_error (Fields.field k v fs) = elim (number_error v) [
      | some e ↦ some e
      | none ↦ fields_error fs
    ]

  -- A map that is read from these fields has a key besides `k`.
  other_key : String → Fields → Bool
  other_key k Fields.end = false
  other_key k (Fields.field j v fs) = if j == k then other_key k fs else true

  command_key : Fields → Result Error String
  command_key Fields.end = ok ""
  command_key (Fields.field k v fs) =
      if other_key k fs then err (multiple_keys_in_command_map (Fields.field k v fs)) else ok k

  -- parseJSONCommandKey
  unfoldable pub parse_json_command_key : Json → Result Error String
  unfolding number_error other_key command_key
  parse_json_command_key null = ok ""
  parse_json_command_key (object fs) = elim (fields_error fs) [
    | some e ↦ err e
    | none ↦ command_key fs
  ]
  parse_json_command_key j = mismatch j "map[string]interface {}"

  -- The value that `for _, cmd = range m` leaves, for a map of at most one key: each field of the
  -- key is read, and the last one stays.
  last_value {ℓ} : {A : Type ℓ} → (Json → Result Error A) → A → Fields → Result Error A
  last_value read cmd Fields.end = ok cmd
  last_value read cmd (Fields.field k v fs) = do cmd' ← read v; last_value read cmd' fs

  -- parseSleepCommandFromJSONMap
  parse_sleep_command_from_json_map : Json → Result Error ℤ
  unfolding last_value
  parse_sleep_command_from_json_map null = ok (pos 0)
  parse_sleep_command_from_json_map (object fs) = last_value unmarshal_sleep (pos 0) fs
  parse_sleep_command_from_json_map j = mismatch j "map[string]script.SleepCommand"

  -- parseRequestCommandFromJSONMap
  parse_request_command_from_json_map : RequestCommand → Json → Result Error RequestCommand
  unfolding last_value
  parse_request_command_from_json_map default null = ok (record { service_name = ""; size = 0 })
  parse_request_command_from_json_map default (object fs) =
      last_value (unmarshal_request default) (record { service_name = ""; size = 0 }) fs
  parse_request_command_from_json_map default j = mismatch j "map[string]script.RequestCommand"

  -- `switch key` in unmarshallableCommand.UnmarshalJSON
  command_of_key : RequestCommand → Json → String → Result Error Command
  command_of_key default j key =
      if key == sleep_command_key
      then (do d ← parse_sleep_command_from_json_map j; ok (Command.sleep d))
      else if key == request_command_key
      then (do r ← parse_request_command_from_json_map default j; ok (Command.request r))
      else err (unknown_command_key key)

  -- The branch of unmarshallableCommand.UnmarshalJSON for all but arrays.
  unfoldable pub unmarshal_keyed : RequestCommand → Json → Result Error Command
  unfolding parse_json_command_key parse_sleep_command_from_json_map
      parse_request_command_from_json_map command_of_key
  unmarshal_keyed default j = do key ← parse_json_command_key j; command_of_key default j key

  -- unmarshallableCommand.UnmarshalJSON, and with it ConcurrentCommand.UnmarshalJSON
  unfoldable mutual
    pub unmarshal_command : RequestCommand → Json → Result Error Command
    unmarshal_command default (array xs) = do
      cmds ← unmarshal_commands default xs
      ok (Command.concurrent cmds)
    unmarshal_command default null = unmarshal_keyed default null
    unmarshal_command default (bool b) = unmarshal_keyed default (bool b)
    unmarshal_command default (number n) = unmarshal_keyed default (number n)
    unmarshal_command default (string s) = unmarshal_keyed default (string s)
    unmarshal_command default (object fs) = unmarshal_keyed default (object fs)

    pub unmarshal_commands : RequestCommand → Items → Result Error Commands
    unmarshal_commands default Items.nil = ok Commands.nil
    unmarshal_commands default (Items.cons x xs) = do
      cmd ← unmarshal_command default x
      cmds ← unmarshal_commands default xs
      ok (Commands.cons cmd cmds)

  -- parseJSONCommands
  unfoldable pub parse_json_commands : RequestCommand → Json → Result Error Commands
  parse_json_commands default null = ok Commands.nil
  parse_json_commands default (array xs) = unmarshal_commands default xs
  parse_json_commands default j = mismatch j "[]script.unmarshallableCommand"

  -- Script.UnmarshalJSON
  abbrev pub unmarshal_json : RequestCommand → Json → Result Error Script
  unmarshal_json default j = parse_json_commands default j

  -- ConcurrentCommand.UnmarshalJSON
  abbrev pub unmarshal_concurrent : RequestCommand → Json → Result Error Commands
  unmarshal_concurrent default j = parse_json_commands default j

  -- unmarshallableCommand.UnmarshalJSON reads an array by it.
  unmarshal_command-array :
      (default : RequestCommand) (xs : Items)
      → unmarshal_command default (array xs)
        ≡ (do cmds ← unmarshal_concurrent default (array xs); ok (Command.concurrent cmds))
  unfolding unmarshal_command parse_json_commands
  unmarshal_command-array default xs = refl

  -- SleepCommand.String
  abbrev pub sleep_to_string : ℤ → String
  sleep_to_string d = R.duration_string d
