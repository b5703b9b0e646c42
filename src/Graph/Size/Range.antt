-- ===== src/Graph/Size/Range.antt =====
-- The range of sizes that convert/pkg/graph/size accepts.
use isotope.Base.{lt→ltb, ℕ, ◌^◌, ◌<◌, String, ◌≡◌, true, arith, Option-cases, inl, inr}
use isotope.Base.Int.{ℤ, pos, negsuc, fits_int}
use isotope.Base.Result.{ok, err, ◌>>=◌, >>=-eq-ok}
use isotope.Runtime.{Runtime, IsTyped}
use isotope.Error.{negative_size}
use isotope.Json.{Json, null, bool, number, string, array, object, integer, decimal}
use isotope.Json.Decode.{into_int}
use isotope.Graph.Size.{ByteSize, from_int64, from_string, unmarshal_json}

from_int64-lt : (x : ℤ) {z : ByteSize} → fits_int 63 x ≡ true → from_int64 x ≡ ok z → z < 2 ^ 63
unfolding from_int64
from_int64-lt (pos n) w h = ground arith
from_int64-lt (negsuc n) w h = cc

into_int-fits : (j : Json) {x : ℤ} → into_int 63 "int64" (pos 0) j ≡ ok x → fits_int 63 x ≡ true
unfolding into_int
into_int-fits null h = ground arith
into_int-fits (number (integer z)) h = ground arith
into_int-fits (number (decimal s)) h = cc
into_int-fits _ h = cc

module _ (R : Runtime) (T : IsTyped R) where
  from_string-lt : (s : String) {z : ByteSize} → from_string R s ≡ ok z → z < 2 ^ 63
  unfolding from_string
  from_string-lt s h = elim (Option-cases (R.ram_in_bytes s)) [
    | inl e ↦ absurd (ground arith)
    | inr (x, e) ↦ from_int64-lt x (T.sized s x e) (ground arith)
  ]

  read-lt :
      (j : Json) {z : ByteSize} → (into_int 63 "int64" (pos 0) j >>= from_int64) ≡ ok z → z < 2 ^ 63
  read-lt j h =
      let (x, e, u) = >>=-eq-ok (into_int 63 "int64" (pos 0) j) from_int64 h in
      from_int64-lt x (into_int-fits j e) u

  -- UnmarshalJSON accepts only sizes below 2 ^ 63.
  pub unmarshal_json-lt : (j : Json) {z : ByteSize} → unmarshal_json R j ≡ ok z → z < 2 ^ 63
  unfolding unmarshal_json
  unmarshal_json-lt (string s) h = from_string-lt s h
  unmarshal_json-lt null h = read-lt null h
  unmarshal_json-lt (bool b) h = read-lt (bool b) h
  unmarshal_json-lt (number n) h = read-lt (number n) h
  unmarshal_json-lt (array xs) h = read-lt (array xs) h
  unmarshal_json-lt (object fs) h = read-lt (object fs) h

-- A negative number is refused as such.
pub unmarshal_json-negative :
    (R : Runtime) (n : ℕ)
    → n < 2 ^ 63
    → unmarshal_json R (number (integer (negsuc n))) ≡ err (negative_size (negsuc n))
unfolding unmarshal_json from_int64
unmarshal_json-negative R n h = rw (lt→ltb n (2 ^ 63) h)
