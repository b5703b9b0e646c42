-- ===== src/Json/Decode.antt =====
-- What the program uses of json.Unmarshal: values into strings, numbers, slices and structs.
-- A value of the wrong kind is skipped and its error saved, and the first saved error is returned
-- when all has been read. An error of an `UnmarshalJSON` method ends the reading at once.
-- A null leaves its target alone.
pub mod Keeps
use Prim.Native.Char.{code}
use isotope.Base.{ℕ, ◌+◌, String, Bool, true, false, ◌&&◌, Option, none, some, List, [], ◌∷◌}
use isotope.Base.{leb, nat_eq, if◌then◌else◌}
use isotope.Base.Int.{ℤ, fits_int}
use isotope.Base.Result.{Result, ok, err, ◌>>=◌}
use isotope.Error.{Error, unmarshal_type}
use isotope.Json.{Json, Items, Fields, null, bool, number, string, array, object, kind}
use isotope.Json.{integer}

abbrev pub mismatch {ℓ} : {A : Type ℓ} → Json → String → Result Error A
mismatch j type_name = err (unmarshal_type (kind j) type_name)

unfoldable pub into_string : String → Json → Result Error String
into_string old null = ok old
into_string old (string s) = ok s
into_string old j = mismatch j "string"

unfoldable pub into_bool : Bool → Json → Result Error Bool
into_bool old null = ok old
into_bool old (bool b) = ok b
into_bool old j = mismatch j "bool"

-- Into a signed integer of `w + 1` bits.
unfoldable pub into_int : ℕ → String → ℤ → Json → Result Error ℤ
into_int w type_name old null = ok old
into_int w type_name old (number (integer z)) =
    if fits_int w z then ok z else mismatch (number (integer z)) type_name
into_int w type_name old j = mismatch j type_name

-- How encoding/json compares a key with the name of a field: without case. U+017F folds to `s`
-- and U+212A to `k`, as in Unicode.
abbrev fold_case : ℕ → ℕ
fold_case c =
    if leb b'A' c && leb c b'Z'
    then c + 32
    else if nat_eq c 0x17f
    then b's'
    else if nat_eq c 0x212a
    then b'k'
    else c

unfoldable pub same_key : String → String → Bool
same_key String.[] String.[] = true
same_key (String.◌∷◌ c s) (String.◌∷◌ d t) =
    nat_eq (fold_case (code c)) (fold_case (code d)) && same_key s t
same_key _ _ = false

-- A value that is being read: ended by an error, or so far `s` with the first saved error.
pub data Decoded {ℓ} (A : Type ℓ) : Type ℓ where
  abort : Error → Decoded A
  done : A → Option Error → Decoded A

-- The result of an `UnmarshalJSON` method.
abbrev pub custom {ℓ} : {A : Type ℓ} → Result Error A → Decoded A
custom (ok a) = done a none
custom (err e) = abort e

-- The result for a plain target, which keeps its old value on an error.
abbrev pub plain {ℓ} : {A : Type ℓ} → A → Result Error A → Decoded A
plain old (ok a) = done a none
plain old (err e) = done old (some e)

abbrev pub update {ℓ κ} : {A : Type ℓ} {B : Type κ} → (A → B) → Decoded A → Decoded B
update f (abort e) = abort e
update f (done a e) = done (f a) e

abbrev pub finish {ℓ} : {A : Type ℓ} → Decoded A → Result Error A
finish (abort e) = err e
finish (done a none) = ok a
finish (done a (some e)) = err e

-- An earlier saved error stays, unless the reading was ended.
abbrev pub save_error {ℓ} : {A : Type ℓ} → Option Error → Decoded A → Decoded A
save_error none d = d
save_error (some e) (abort e') = abort e'
save_error (some e) (done a _) = done a (some e)

abbrev pub and_then {ℓ} : {A : Type ℓ} → Decoded A → (A → Decoded A) → Decoded A
and_then (abort e) f = abort e
and_then (done a e) f = save_error e (f a)

module _ {ℓ} {S : Type ℓ} (set_field : S → String → Json → Decoded S) where
  unfoldable pub decode_fields : S → Fields → Decoded S
  decode_fields s Fields.end = done s none
  decode_fields s (Fields.field k v fs) = and_then (set_field s k v) (λ s'. decode_fields s' fs)

  unfoldable pub decode_struct : String → S → Json → Decoded S
  decode_struct type_name s null = done s none
  decode_struct type_name s (object fs) = decode_fields s fs
  decode_struct type_name s j = done s (some (unmarshal_type (kind j) type_name))

  unfoldable pub into_struct : String → S → Json → Result Error S
  unfolding decode_struct
  into_struct type_name s j = finish (decode_struct type_name s j)

-- Into a slice of a type with an `UnmarshalJSON` method.
module _ {ℓ} {A : Type ℓ} (element : Json → Result Error A) where
  unfoldable pub into_items : Items → Result Error (List A)
  into_items Items.nil = ok []
  into_items (Items.cons x xs) = do a ← element x; rest ← into_items xs; ok (a ∷ rest)

  unfoldable pub decode_slice : String → List A → Json → Decoded (List A)
  unfolding into_items
  decode_slice type_name old null = done [] none
  decode_slice type_name old (array xs) = custom (into_items xs)
  decode_slice type_name old j = done old (some (unmarshal_type (kind j) type_name))
