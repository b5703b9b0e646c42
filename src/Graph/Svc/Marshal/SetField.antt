-- ===== src/Graph/Svc/Marshal/SetField.antt =====
-- How each written field of a service is read.
use isotope.Base.{ℕ, String, ◌≡◌, refl, Bool, true, none}
use isotope.Base.Int.{ℤ, fits_int}
use isotope.Base.Result.{ok}
use isotope.Runtime.{Runtime}
use isotope.Json.{Json, integer, bool, Fields, field, string, number}
use isotope.Json.Decode.{
  Decoded, done, finish, decode_fields, same_key, into_string, into_bool, into_int,
}
use isotope.Graph.Pct
use isotope.Graph.Pct.{Percentage, from_float64}
use isotope.Graph.Size.{ByteSize}
use isotope.Graph.Size
use isotope.Graph.ServiceType
use isotope.Graph.ServiceType.{ServiceType}
use isotope.Graph.Script
use isotope.Graph.Script.Types.{Script}
use isotope.Graph.Svc.{Service}
use isotope.Graph.Svc.Unmarshal.{Globals, set_service_field}

module _ {S : Type 0} (set_field : S → String → Json → Decoded S) (s : S) {s' : S} (key : String)
    (v : Json) where
  pub decode-field :
      (fs : Fields)
      → set_field s key v ≡ done s' none
      → finish (decode_fields set_field s (field key v fs)) ≡ finish (decode_fields set_field s' fs)
  unfolding decode_fields
  decode-field fs h = rw (h, finish)

pub into_int-integer :
    (w : ℕ) (type_name : String) (old z : ℤ)
    → fits_int w z ≡ true
    → into_int w type_name old (number (integer z)) ≡ ok z
unfolding into_int
into_int-integer w type_name old z h = rw h

-- Each field sets its part of the service.
module _ (R : Runtime) (g : Globals) (s : Service) where
  abbrev pub set : String → Json → Decoded Service
  set = set_service_field R g s

  pub set-name : (n : String) → set "name" (string n) ≡ done (record s { name = n }) none
  unfolding set_service_field same_key into_string
  set-name n = refl

  pub set-type :
      (v : Json) {t : ServiceType}
      → ServiceType.unmarshal_json v ≡ ok t
      → set "type" v ≡ done (record s { type = t }) none
  unfolding set_service_field same_key
  set-type v h = rw h

  pub set-replicas :
      (z : ℤ)
      → fits_int 31 z ≡ true
      → set "numReplicas" (number (integer z)) ≡ done (record s { num_replicas = z }) none
  unfolding set_service_field same_key
  set-replicas z h = rw (into_int-integer 31 "int32" s.num_replicas z h)

  pub set-entrypoint :
      (b : Bool) → set "isEntrypoint" (bool b) ≡ done (record s { is_entrypoint = b }) none
  unfolding set_service_field same_key into_bool
  set-entrypoint b = refl

  pub set-rate :
      (v : Json) {p : Percentage}
      → Pct.unmarshal_json R v ≡ ok p
      → set "errorRate" v ≡ done (record s { error_rate = p }) none
  unfolding set_service_field same_key
  set-rate v h = rw h

  pub set-size :
      (v : Json) {z : ByteSize}
      → Size.unmarshal_json R v ≡ ok z
      → set "responseSize" v ≡ done (record s { response_size = z }) none
  unfolding set_service_field same_key
  set-size v h = rw h

  pub set-script :
      (v : Json) {c : Script}
      → Script.parse_json_commands R g.default_request_command v ≡ ok c
      → set "script" v ≡ done (record s { script = c }) none
  unfolding set_service_field same_key
  set-script v h = rw h
