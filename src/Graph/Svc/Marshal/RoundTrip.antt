-- ===== src/Graph/Svc/Marshal/RoundTrip.antt =====
-- Reading a service that was written, under the defaults that the program starts with.
use isotope.Base.{
  ap, sym, zero, suc, eq_iff, ◌≡◌, refl, ◌∙◌, ◌≢◌, inl, inr, Bool, true, false, some, arith,
}
use isotope.Base.{Bool-cases}
use isotope.Base.Int.{ℤ, pos, negsuc, fits_int}
use isotope.Base.Float.{is_zero}
use isotope.Base.Result.{Result, ok, ◌>>=◌, >>=-eq-ok, >>=-of-ok}
use isotope.Runtime.{Runtime}
use isotope.Json.{Literal, Fields, field, end, string, number}
use isotope.Error.{Error}
use isotope.Json.Decode.{finish, into_struct, decode_fields}
use isotope.Graph.Pct
use isotope.Graph.Pct.{Percentage, from_float64}
use isotope.Graph.Size.{ByteSize}
use isotope.Graph.ServiceType.{ServiceType}
use isotope.Graph.ServiceType.RoundTrip as TypeRoundTrip
use isotope.Graph.Script.Types.{Commands, Script}
use isotope.Graph.Script.Marshal
use isotope.Graph.Script.Marshal.RoundTrip.{IsReadAs, AreReadable, size_read_back}
use isotope.Graph.Rounding.{round_commands, round_service, round_service-id}
use isotope.Graph.Script.Marshal.RoundTrip as ScriptRoundTrip
use isotope.Graph.Svc.{Service}
use isotope.Graph.Svc.Unmarshal.{Globals, initial, set_service_field, named, unmarshal_json}
use isotope.Graph.Svc.Marshal.{
  rate_field, script_field, size_field, replicas_field, type_field, entrypoint_field, marshal_json,
}
use isotope.Graph.Svc.Marshal.SetField.{
  decode-field, set-name, set-type, set-replicas, set-entrypoint, set-rate, set-size, set-script,
}

-- A rate that its own JSON number gives back, and that is no negative zero.
pub record IsExactRate (R : Runtime) (p : Percentage) : Type 0 where
  pub text : Literal
  pub written : R.float_json p ≡ some text
  pub read : R.json_float text ≡ some p
  pub in_range : from_float64 p ≡ ok p
  pub positive_zero : is_zero p ≡ true → p ≡ 0

-- A service with a name, a protocol and some replicas, in which all that is written is read back, but
-- for the sizes, which are read as others.
pub record IsReadableService (R : Runtime) (f : ByteSize → ByteSize) (s : Service) : Type 0 where
  pub name : s.name ≢ ""
  pub type : s.type ≢ ServiceType.unknown
  pub replicas : s.num_replicas ≢ pos 0
  pub int32 : fits_int 31 s.num_replicas ≡ true
  pub rate : IsExactRate R s.error_rate
  pub size : IsReadAs R f s.response_size
  pub script : AreReadable R f s.script

-- One in which the sizes are read back too.
abbrev pub IsWritableService : Runtime → Service → Type 0
IsWritableService R = IsReadableService R (λ z. z)

-- What reading the fields from a service on gives, and that each part sets its own.
module _ (R : Runtime) (g : Globals) (f : ByteSize → ByteSize) where
  abbrev read : Service → Fields → Result Error Service
  read s fs = finish (decode_fields (set_service_field R g) s fs)

  read-type :
      (s : Service) (t : ServiceType) (fs : Fields)
      → t ≢ ServiceType.unknown
      → read s (type_field R t fs) ≡ read (record s { type = t }) fs
  read-type s ServiceType.unknown fs h = absurd (h refl)
  read-type s ServiceType.http fs h =
      decode-field _ s "type" _ fs
        (set-type R g s _ (TypeRoundTrip.type_round_trip ServiceType.http h))
  read-type s ServiceType.grpc fs h =
      decode-field _ s "type" _ fs
        (set-type R g s _ (TypeRoundTrip.type_round_trip ServiceType.grpc h))

  read-replicas :
      (s : Service) (z : ℤ) (fs : Fields)
      → z ≢ pos 0
      → fits_int 31 z ≡ true
      → read s (replicas_field R z fs) ≡ read (record s { num_replicas = z }) fs
  read-replicas s (pos zero) fs h w = absurd (h refl)
  read-replicas s (pos (suc n)) fs h w =
      decode-field _ s "numReplicas" _ fs (set-replicas R g s (pos (suc n)) w)
  read-replicas s (negsuc n) fs h w =
      decode-field _ s "numReplicas" _ fs (set-replicas R g s (negsuc n) w)

  read-entrypoint :
      (s : Service) (b : Bool) (fs : Fields)
      → s.is_entrypoint ≡ false
      → read s (entrypoint_field R b fs) ≡ read (record s { is_entrypoint = b }) fs
  read-entrypoint s false fs h = ap (λ b. read (record s { is_entrypoint = b }) fs) h
  read-entrypoint s true fs h = decode-field _ s "isEntrypoint" _ fs (set-entrypoint R g s true)

  read-size :
      (s : Service) (z : ByteSize) (fs : Fields)
      → f 0 ≡ 0
      → s.response_size ≡ 0
      → IsReadAs R f z
      → read s (size_field R z fs) ≡ read (record s { response_size = f z }) fs
  read-size s zero fs e h w = ap (λ z. read (record s { response_size = z }) fs) (h ∙ sym e)
  read-size s (suc n) fs e h w =
      decode-field _ s "responseSize" _ fs (set-size R g s _ (size_read_back R f (suc n) w))

  read-rate :
      (p : Percentage) (fs : Fields)
      → IsExactRate R p
      → (fs' : Fields) × (rate_field R p fs ≡ ok fs')
        × ((s : Service) → s.error_rate ≡ 0 → read s fs' ≡ read (record s { error_rate = p }) fs)
  unfolding Pct.marshal_json Pct.unmarshal_json Pct.into_float64
  read-rate p fs h = elim (Bool-cases (is_zero p)) [
    | inl z ↦ (
      fs,
      rw z,
      λ s e. ap (λ p. read (record s { error_rate = p }) fs) (e ∙ sym (h.positive_zero z)),
    )
    | inr n ↦ (
      field "errorRate" (number h.text) fs,
      rw (n, h.written, Pct.marshal_json),
      λ s e.
          decode-field _ s "errorRate" _ fs
            (set-rate R g s _ (rw (h.read, Pct.into_float64) h.in_range)),
    )
  ]

  read-script :
      (c : Script)
      → AreReadable R f c
      → (fs : Fields) × (script_field R c end ≡ ok fs)
        × ((s : Service)
            → s.script ≡ Commands.nil
            → read s fs ≡ ok (record s { script = round_commands f c }))
  unfolding decode_fields
  read-script Commands.nil h = (end, refl, λ s e. ap (λ c. ok (record s { script = c })) e)
  read-script (Commands.cons c cs) h =
      let (v, w, u) =
        >>=-eq-ok (Marshal.marshal_json R (Commands.cons c cs)) _
          (ScriptRoundTrip.script_read_back R f g.default_request_command (Commands.cons c cs) h) in
      (
        field "script" v end,
        >>=-of-ok (λ v. ok (field "script" v end)) w,
        λ s e. decode-field (set_service_field R g) s "script" v end (set-script R g s v u),
      )

  abbrev written : Service → Fields → Fields
  written s rated = field "name" (string s.name) (
      type_field R s.type
        (replicas_field R s.num_replicas (entrypoint_field R s.is_entrypoint rated)))

  read-written :
      (s₀ s : Service) (rated : Fields)
      → s₀.is_entrypoint ≡ false
      → IsReadableService R f s
      → read s₀ (written s rated)
        ≡ read
            (record s₀ {
              name = s.name;
              type = s.type;
              num_replicas = s.num_replicas;
              is_entrypoint = s.is_entrypoint;
            })
            rated
  read-written s₀ s rated e h =
      decode-field (set_service_field R g) s₀ "name" _ _ (set-name R g s₀ s.name)
      ∙ read-type _ s.type _ h.type
      ∙ read-replicas _ s.num_replicas _ h.replicas h.int32
      ∙ read-entrypoint _ s.is_entrypoint rated e

  named_lem : (s : Service) → s.name ≢ "" → named R g s ≡ ok s
  unfolding named
  named_lem s h = ground (arith, eq_iff s.name "")

  -- A service is written without error, and is read with the sizes that their texts are read as.
  pub service_read_back :
      (s : Service)
      → f 0 ≡ 0
      → g.default_service ≡ initial.default_service
      → IsReadableService R f s
      → (marshal_json R s >>= unmarshal_json R g) ≡ ok (round_service f s)
  unfolding marshal_json unmarshal_json into_struct
  service_read_back s f_zero d h =
      let (scripted, w, u) = read-script s.script h.script in
      let (rated, w', u') = read-rate s.error_rate (size_field R s.response_size scripted) h.rate in
      rw (w, w')
        (>>=-of-ok (named R g) (
            read-written g.default_service s rated (ap (λ x. x.is_entrypoint) d) h
            ∙ u' _ (ap (λ x. x.error_rate) d)
            ∙ read-size _ s.response_size scripted f_zero (ap (λ x. x.response_size) d) h.size
            ∙ u _ (ap (λ x. x.script) d))
          ∙ named_lem (round_service f s) h.name)

-- A service that can be written is written without error, and what is written is read back under
-- the default service of the program's start, whatever the default request is.
pub service_round_trip :
    (R : Runtime) (g : Globals) (s : Service)
    → g.default_service ≡ initial.default_service
    → IsWritableService R s
    → (marshal_json R s >>= unmarshal_json R g) ≡ ok s
service_round_trip R g s d h =
    service_read_back R g (λ z. z) s refl d h ∙ ap ok (round_service-id s)
