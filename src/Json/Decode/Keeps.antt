-- ===== src/Json/Decode/Keeps.antt =====
-- Invariants of reading: what each field keeps, the whole object keeps, and what holds of each
-- element holds of a slice.
use isotope.Base.{
  String, ◌≡◌, refl, Bool, true, false, ◌||◌, Option, none, some, List, [], ◌∷◌, All, arith,
  if◌then◌else◌,
}
use isotope.Base.Result.{Result, ok, err, >>=-eq-ok, ok-injective}
use isotope.Error.{Error}
use isotope.Json.{Json, Items, Fields, null, array, object}
use isotope.Json.Decode.{
  Decoded, abort, done, custom, plain, update, and_then, finish, save_error, decode_fields,
  decode_struct, into_struct, into_items, decode_slice, same_key,
}

-- A value that is being read satisfies a predicate, unless the reading was ended.
abbrev pub Reads {ℓ} : {A : Type ℓ} → (A → Type 0) → Decoded A → Type 0
Reads P (abort e) = Unit
Reads P (done a e) = P a

-- Some key of the object is read bs this field.
unfoldable pub has_key : String → Fields → Bool
has_key name Fields.end = false
has_key name (Fields.field k v fs) = same_key k name || has_key name fs

module _ {S : Type 0} (P : S → Type 0) where
  Reads-save_error : (e : Option Error) (d : Decoded S) → Reads P d → Reads P (save_error e d)
  Reads-save_error none d h = h
  Reads-save_error (some e) (abort x) h = tt
  Reads-save_error (some e) (done a x) h = h

  pub finish-Reads : (d : Decoded S) {s : S} → Reads P d → finish d ≡ ok s → P s
  finish-Reads (abort e) h x = absurd (ground arith)
  finish-Reads (done a none) h x = rw (ok-injective x) at h
  finish-Reads (done a (some e)) h x = absurd (ground arith)

  Reads-and_then :
      (d : Decoded S) (f : S → Decoded S)
      → Reads P d
      → ((s : S) → P s → Reads P (f s))
      → Reads P (and_then d f)
  Reads-and_then (abort e) f h k = tt
  Reads-and_then (done s e) f h k = Reads-save_error e (f s) (k s h)

  module _ (set_field : S → String → Json → Decoded S) where
    pub Reads-fields :
        ((s : S) (k : String) (v : Json) → P s → Reads P (set_field s k v))
        → (s : S) (fs : Fields) → P s
        → Reads P (decode_fields set_field s fs)
    unfolding decode_fields
    Reads-fields step s Fields.end h = h
    Reads-fields step s (Fields.field k v fs) h =
        Reads-and_then (set_field s k v) _ (step s k v h) (λ s' h'. Reads-fields step s' fs h')

    pub Reads-struct :
        ((s : S) (k : String) (v : Json) → P s → Reads P (set_field s k v))
        → (type_name : String) (s : S) (j : Json) → P s
        → Reads P (decode_struct set_field type_name s j)
    unfolding decode_struct
    Reads-struct step type_name s (object fs) h = Reads-fields step s fs h
    Reads-struct step type_name s _ h = h

    -- What setting each field keeps, holds of a struct that was read.
    pub into_struct-keeps :
        ((s : S) (k : String) (v : Json) → P s → Reads P (set_field s k v))
        → (type_name : String) (s : S) (j : Json) {s' : S} → P s
        → into_struct set_field type_name s j ≡ ok s'
        → P s'
    unfolding into_struct
    into_struct-keeps step type_name s j h e =
        finish-Reads (decode_struct set_field type_name s j) (Reads-struct step type_name s j h) e

    -- Where no key of the object is read bs `name`, the premise is not wanted of such a key.
    pub Reads-fields_without :
        (name : String)
        → ((s : S) (k : String) (v : Json)
            → same_key k name ≡ false
            → P s
            → Reads P (set_field s k v))
        → (s : S) (fs : Fields) → has_key name fs ≡ false
        → P s
        → Reads P (decode_fields set_field s fs)
    unfolding decode_fields has_key
    Reads-fields_without name step s Fields.end n h = h
    Reads-fields_without name step s (Fields.field k v fs) n h =
        Reads-and_then (set_field s k v) _ (step s k v (ground arith) h)
          (λ s' h'. Reads-fields_without name step s' fs (ground arith) h')

-- One rule for each way to set a field.
module _ {S : Type 0} (P : S → Type 0) where
  pub Reads-if :
      (b : Bool) (x y : Decoded S)
      → (b ≡ true → Reads P x)
      → (b ≡ false → Reads P y)
      → Reads P (if b then x else y)
  Reads-if true x y f g = f refl
  Reads-if false x y f g = g refl

  pub Reads-plain :
      {A : Type 0} (f : A → S) (old : A) (r : Result Error A)
      → ((a : A) → r ≡ ok a → P (f a))
      → P (f old)
      → Reads P (update f (plain old r))
  Reads-plain f old (ok a) each h = each a refl
  Reads-plain f old (err e) each h = h

  pub Reads-custom :
      {A : Type 0} (f : A → S) (r : Result Error A)
      → ((a : A) → r ≡ ok a → P (f a))
      → Reads P (update f (custom r))
  Reads-custom f (ok a) each = each a refl
  Reads-custom f (err e) each = tt

-- What holds of each element that is read, holds of the slice.
module _ {A : Type 0} (P : A → Type 0) (element : Json → Result Error A)
    (each : (j : Json) (a : A) → element j ≡ ok a → P a) where
  pub into_items-All : (xs : Items) (bs : List A) → into_items element xs ≡ ok bs → All P bs
  unfolding into_items
  into_items-All Items.nil [] h = tt
  into_items-All Items.nil (a ∷ bs) h = cc
  into_items-All (Items.cons x xs) bs h =
      let (a, e, k) = >>=-eq-ok (element x) _ h in
      let (rest, e', k') = >>=-eq-ok (into_items element xs) _ k in
      rw (← ok-injective k') (each x a e, into_items-All xs rest e')

  pub Reads-slice :
      {S : Type 0} (Q : S → Type 0) (f : List A → S) (type_name : String) (old : List A) (j : Json)
      → ((bs : List A) → All P bs → Q (f bs))
      → Q (f old)
      → Reads Q (update f (decode_slice element type_name old j))
  unfolding decode_slice
  Reads-slice Q f type_name old null all h = all [] tt
  Reads-slice Q f type_name old (array xs) all h =
      Reads-custom Q f (into_items element xs) (λ bs e. all bs (into_items-All xs bs e))
  Reads-slice Q f type_name old _ all h = h
