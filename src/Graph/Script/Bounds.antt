-- ===== src/Graph/Script/Bounds.antt =====
-- What is read as a command: one of the three types, with a duration and a size in range.
use isotope.Base.{
  ◌^◌, ◌<◌, String, ◌==◌, ◌≡◌, refl, true, arith, Bool-cases, Option-cases, inl, inr,
}
use isotope.Base.Int.{ℤ, pos, fits_int}
use isotope.Base.Result.{Result, ok, >>=-eq-ok, ok-injective}
use isotope.Runtime.{Runtime, IsTyped}
use isotope.Error.{Error}
use isotope.Json.{Json, Items, Fields, null, bool, number, string, array, object}
use isotope.Json.Decode.{same_key, into_struct, into_string}
use isotope.Json.Decode.Keeps.{Reads, Reads-if, Reads-plain, Reads-custom, into_struct-keeps}
use isotope.Graph.Size
use isotope.Graph.Size.{ByteSize}
use isotope.Graph.Size.Range as SizeRange
use isotope.Graph.Script.{
  set_request_field, unmarshal_sleep, unmarshal_request, unmarshal_keyed, parse_json_command_key,
  last_value, parse_sleep_command_from_json_map, parse_request_command_from_json_map,
  unmarshal_command, unmarshal_commands, parse_json_commands,
}
use isotope.Graph.Script.Types.{RequestCommand, Command, Commands}

abbrev pub IsBoundedRequest : RequestCommand → Type 0
IsBoundedRequest r = r.size < 2 ^ 63

abbrev mutual
  pub IsBounded : Command → Type 0
  IsBounded (Command.sleep d) = fits_int 63 d ≡ true
  IsBounded (Command.request r) = IsBoundedRequest r
  IsBounded (Command.concurrent cs) = AreBounded cs
  IsBounded (Command.other t) = ⊥

  pub AreBounded : Commands → Type 0
  AreBounded Commands.nil = Unit
  AreBounded (Commands.cons c cs) = IsBounded c × AreBounded cs

module _ (R : Runtime) (T : IsTyped R) where
  sleep-fits : (j : Json) {d : ℤ} → unmarshal_sleep R j ≡ ok d → fits_int 63 d ≡ true
  unfolding unmarshal_sleep
  sleep-fits j h =
      let (s, e, k) = >>=-eq-ok (into_string "" j) _ h in
      elim (Option-cases (R.parse_duration s)) [
        | inl n ↦ absurd (ground arith)
        | inr (d', u) ↦ ground (arith, T.lasting s d' u)
      ]

  set_request_field-IsBounded :
      (c : RequestCommand) (k : String) (v : Json)
      → IsBoundedRequest c
      → Reads IsBoundedRequest (set_request_field R c k v)
  unfolding set_request_field
  set_request_field-IsBounded c k v h =
      Reads-if _ (same_key k "service") _ _
        (λ _. Reads-plain _ _ c.service_name (into_string c.service_name v) (λ a _. h) h)
        (λ _.
          Reads-if _ (same_key k "size") _ _
            (λ _.
              Reads-custom _ _ (Size.unmarshal_json R v)
                (λ a e. SizeRange.unmarshal_json-lt R T v e))
            (λ _. h))

  last_value-keeps :
      {A : Type 0} (P : A → Type 0) (read : Json → Result Error A)
      → ((j : Json) (a : A) → read j ≡ ok a → P a)
      → (a : A) (fs : Fields) {b : A} → P a
      → last_value R read a fs ≡ ok b
      → P b
  unfolding last_value
  last_value-keeps P read each a Fields.end h e = rw (← ok-injective e) h
  last_value-keeps P read each a (Fields.field k v fs) h e =
      let (a', u, e') = >>=-eq-ok (read v) _ e in
      last_value-keeps P read each a' fs (each v a' u) e'

  into_request-IsBounded :
      (default : RequestCommand) (j : Json) {r : RequestCommand}
      → IsBoundedRequest default
      → into_struct (set_request_field R) "script.unmarshallableRequestCommand" default j ≡ ok r
      → IsBoundedRequest r
  into_request-IsBounded default j h e =
      into_struct-keeps IsBoundedRequest (set_request_field R) set_request_field-IsBounded _ default
        j h e

  request-IsBounded :
      (default : RequestCommand)
      → IsBoundedRequest default
      → (j : Json) (r : RequestCommand) → unmarshal_request R default j ≡ ok r
      → IsBoundedRequest r
  unfolding unmarshal_request
  request-IsBounded default h (string s) r e = rw (← ok-injective e) h
  request-IsBounded default h null r e = into_request-IsBounded default null h e
  request-IsBounded default h (bool b) r e = into_request-IsBounded default (bool b) h e
  request-IsBounded default h (number n) r e = into_request-IsBounded default (number n) h e
  request-IsBounded default h (array xs) r e = into_request-IsBounded default (array xs) h e
  request-IsBounded default h (object fs) r e = into_request-IsBounded default (object fs) h e

  sleep_map-fits :
      (j : Json) {d : ℤ} → parse_sleep_command_from_json_map R j ≡ ok d → fits_int 63 d ≡ true
  unfolding parse_sleep_command_from_json_map
  sleep_map-fits null e = rw (← ok-injective e) (refl)
  sleep_map-fits (object fs) e =
      last_value-keeps (λ d. fits_int 63 d ≡ true) (unmarshal_sleep R) (λ j a. sleep-fits j) (pos 0)
        fs refl e
  sleep_map-fits _ e = cc

  request_map-IsBounded :
      (default : RequestCommand) (j : Json) {r : RequestCommand}
      → IsBoundedRequest default
      → parse_request_command_from_json_map R default j ≡ ok r
      → IsBoundedRequest r
  unfolding parse_request_command_from_json_map
  request_map-IsBounded default null h e = rw (← ok-injective e) (omega arith)
  request_map-IsBounded default (object fs) h e =
      last_value-keeps IsBoundedRequest (unmarshal_request R default) (request-IsBounded default h)
        _ fs (omega arith) e
  request_map-IsBounded default _ h e = cc

  keyed-IsBounded :
      (default : RequestCommand) (j : Json) {c : Command}
      → IsBoundedRequest default
      → unmarshal_keyed R default j ≡ ok c
      → IsBounded c
  unfolding unmarshal_keyed
  keyed-IsBounded default j h e =
      let (key, u, k) = >>=-eq-ok (parse_json_command_key R j) _ e in
      elim (Bool-cases (key == "sleep")) [
        | inl t ↦
            let (d, v, w) = >>=-eq-ok (parse_sleep_command_from_json_map R j) _ (rw t at k) in
            rw (← ok-injective w) (sleep_map-fits j v)
        | inr f ↦ elim (Bool-cases (key == "call")) [
          | inl t ↦
              let (r, v, w) =
                >>=-eq-ok (parse_request_command_from_json_map R default j) _ (rw (f, t) at k) in
              rw (← ok-injective w) (request_map-IsBounded default j h v)
          | inr n ↦ absurd (ground arith)
        ]
      ]

  mutual
    unfolding unmarshal_commands

    command-IsBounded :
        (default : RequestCommand) (j : Json) (c : Command)
        → IsBoundedRequest default
        → unmarshal_command R default j ≡ ok c
        → IsBounded c
    command-IsBounded default (array xs) c h e =
        let (cs, u, k) = >>=-eq-ok (unmarshal_commands R default xs) _ e in
        rw (← ok-injective k) (commands-AreBounded default xs cs h u)
    command-IsBounded default null c h e = keyed-IsBounded default null h e
    command-IsBounded default (bool b) c h e = keyed-IsBounded default (bool b) h e
    command-IsBounded default (number n) c h e = keyed-IsBounded default (number n) h e
    command-IsBounded default (string s) c h e = keyed-IsBounded default (string s) h e
    command-IsBounded default (object fs) c h e = keyed-IsBounded default (object fs) h e

    commands-AreBounded :
        (default : RequestCommand) (xs : Items) (cs : Commands)
        → IsBoundedRequest default
        → unmarshal_commands R default xs ≡ ok cs
        → AreBounded cs
    commands-AreBounded default Items.nil cs h e = rw (← ok-injective e) tt
    commands-AreBounded default (Items.cons x xs) cs h e =
        let (c, u, k) = >>=-eq-ok (unmarshal_command R default x) _ e in
        let (rest, u', k') = >>=-eq-ok (unmarshal_commands R default xs) _ k in
        rw (← ok-injective k')
          (command-IsBounded default x c h u, commands-AreBounded default xs rest h u')

  -- A script that is read holds commands of the three types only, sleeps of an int64, and requests
  -- of less than 2 ^ 63 bytes, if the default request has such a size.
  pub parse_json_commands-AreBounded :
      (default : RequestCommand) (j : Json) {cs : Commands}
      → IsBoundedRequest default
      → parse_json_commands R default j ≡ ok cs
      → AreBounded cs
  unfolding parse_json_commands
  parse_json_commands-AreBounded default null h e = rw (← ok-injective e) tt
  parse_json_commands-AreBounded default (array xs) h e = commands-AreBounded default xs _ h e
  parse_json_commands-AreBounded default _ h e = cc
