-- ===== src/Graph/Script/Marshal/RoundTrip.antt =====
-- Reading a script that Script.MarshalJSON wrote.
use isotope.Base.{◌≡◌, refl, ap, ◌∙◌, some}
use isotope.Base.Int.{pos}
use isotope.Base.Result.{ok, ◌>>=◌}
use isotope.Runtime.{Runtime}
use isotope.Json.{Json, Items, array}
use isotope.Json.Decode.{same_key, into_struct, decode_fields}
use isotope.Graph.Size
use isotope.Graph.Rounding.{round_command, round_commands, round_commands-id}
use isotope.Graph.Script.{
  unmarshal_sleep, unmarshal_request, unmarshal_keyed, unmarshal_command, unmarshal_commands,
  parse_json_commands,
}
use isotope.Graph.Script.Types.{RequestCommand, Command, Commands}
use isotope.Graph.Script.Marshal.{
  marshal_request, command_to_marshallable, commands_to_marshallable, marshal_json,
}

-- units.BytesSize rounds to four digits: `f` is the size that the text of a size is read as.
module _ (R : Runtime) (f : Size.ByteSize → Size.ByteSize) where
  abbrev pub IsReadAs : Size.ByteSize → Type 0
  IsReadAs z = R.ram_in_bytes (R.bytes_size z) ≡ some (pos (f z))

  -- Every command has one of the three types, its duration is read back, and its size is read.
  abbrev mutual
    pub IsReadable : Command → Type 0
    IsReadable (Command.sleep d) = R.parse_duration (R.duration_string d) ≡ some d
    IsReadable (Command.request r) = IsReadAs r.size
    IsReadable (Command.concurrent cs) = AreReadable cs
    IsReadable (Command.other t) = ⊥

    pub AreReadable : Commands → Type 0
    AreReadable Commands.nil = Unit
    AreReadable (Commands.cons c cs) = IsReadable c × AreReadable cs

  pub size_read_back :
      (z : Size.ByteSize) → IsReadAs z → Size.unmarshal_json R (Size.marshal_json R z) ≡ ok (f z)
  unfolding Size.marshal_json Size.unmarshal_json Size.from_int64
  size_read_back z h = rw (h, Size.from_string)

  request_read_back :
      (default r : RequestCommand)
      → IsReadAs r.size
      → unmarshal_request R default (marshal_request R r) ≡ ok (record r { size = f r.size })
  unfolding marshal_request unmarshal_request into_struct decode_fields same_key
  request_read_back default r h = rw (size_read_back r.size h)

  mutual
    unfolding commands_to_marshallable marshal_request Size.marshal_json unmarshal_commands
        unmarshal_keyed unmarshal_sleep

    command_read_back :
        (default : RequestCommand) (c : Command)
        → IsReadable c
        → (x : Json) × (command_to_marshallable R c ≡ ok x)
          × (unmarshal_command R default x ≡ ok (round_command f c))
    command_read_back default (Command.sleep d) h = (_, refl, rw h)
    command_read_back default (Command.request r) h = (_, refl, rw (request_read_back default r h))
    command_read_back default (Command.concurrent cs) h =
        let (xs, w, u) = commands_read_back default cs h in (array xs, rw w, rw u)
    command_read_back default (Command.other t) h = absurd h

    commands_read_back :
        (default : RequestCommand) (cs : Commands)
        → AreReadable cs
        → (xs : Items) × (commands_to_marshallable R cs ≡ ok xs)
          × (unmarshal_commands R default xs ≡ ok (round_commands f cs))
    commands_read_back default Commands.nil h = (Items.nil, refl, refl)
    commands_read_back default (Commands.cons c cs) h =
        let (x, w, u) = command_read_back default c h.0 in
        let (xs, ws, us) = commands_read_back default cs h.1 in
        (Items.cons x xs, rw (w, ws), rw (u, us))

  -- A script of the three kinds of command, whose durations are read back from their texts and whose
  -- sizes are read as others, is written without error, and is read with these sizes.
  pub script_read_back :
      (default : RequestCommand) (cs : Commands)
      → AreReadable cs
      → (marshal_json R cs >>= parse_json_commands R default) ≡ ok (round_commands f cs)
  unfolding marshal_json parse_json_commands
  script_read_back default cs h = let (xs, w, u) = commands_read_back default cs h in rw (w, u)

module _ (R : Runtime) where
  -- Every size is one that its own text gives back.
  abbrev pub AreWritable : Commands → Type 0
  AreWritable = AreReadable R (λ z. z)

  -- A script of the three kinds of command, whose durations and sizes are read back from their
  -- texts, is written without error, and is read back under any default request.
  pub script_round_trip :
      (default : RequestCommand) (cs : Commands)
      → AreWritable cs
      → (marshal_json R cs >>= parse_json_commands R default) ≡ ok cs
  script_round_trip default cs h =
      script_read_back R (λ z. z) default cs h ∙ ap ok (round_commands-id cs)
