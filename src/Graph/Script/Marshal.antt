-- ===== src/Graph/Script/Marshal.antt =====
-- How a script is written: Script.MarshalJSON, and what encoding/json does with RequestCommand.
pub mod RoundTrip
use isotope.Base.{String}
use isotope.Base.Result.{Result, ok, err, ◌>>=◌}
use isotope.Runtime.{Runtime}
use isotope.Error.{Error, invalid_command_type}
use isotope.Json.{Json, Items, Fields, field, end, nil, cons, string, array, object}
use isotope.Graph.Size
use isotope.Graph.Script.Types.{RequestCommand, Command, Commands}
use isotope.Graph.Script.{sleep_to_string, sleep_command_key, request_command_key}

module _ (R : Runtime) where
  unfoldable pub marshal_request : RequestCommand → Json
  marshal_request r =
      object
        (field "service" (string r.service_name) (field "size" (Size.marshal_json R r.size) end))

  -- commandToMarshallable and commandsToMarshallable, each with the writing of its result
  unfoldable mutual
    unfolding marshal_request

    pub command_to_marshallable : Command → Result Error Json
    command_to_marshallable (Command.sleep d) =
        ok (object (field sleep_command_key (string (sleep_to_string R d)) end))
    command_to_marshallable (Command.request r) =
        ok (object (field request_command_key (marshal_request r) end))
    command_to_marshallable (Command.concurrent cs) = do
      xs ← commands_to_marshallable cs
      ok (array xs)
    command_to_marshallable (Command.other t) = err (invalid_command_type t)

    pub commands_to_marshallable : Commands → Result Error Items
    commands_to_marshallable Commands.nil = ok nil
    commands_to_marshallable (Commands.cons c cs) = do
      x ← command_to_marshallable c
      xs ← commands_to_marshallable cs
      ok (cons x xs)

  -- Script.MarshalJSON
  unfoldable pub marshal_json : Commands → Result Error Json
  marshal_json cs = do xs ← commands_to_marshallable cs; ok (array xs)
