-- ===== src/Graph/Pct/Range.antt =====
-- The range of percentages that convert/pkg/graph/pct accepts.
use isotope.Base.{◌^◌, ◌<◌, String, ◌≡◌, ◌↔◌, ◌&&◌}
use isotope.Base.{arith, Bool-cases, Option-cases, inl, inr}
use isotope.Base.Text.{before}
use isotope.Base.Float.{Float64, float_le, one, hundred, InUnit, float_le-InUnit, InUnit-float_le}
use isotope.Base.Result.{ok, ◌>>=◌, >>=-eq-ok}
use isotope.Runtime.{Runtime, IsTyped}
use isotope.Json.{Json, null, bool, number, string, array, object}
use isotope.Graph.Pct.{Percentage, from_float64, from_string, into_float64, unmarshal_json}

-- FromFloat64 accepts just the zeros and the positive values up to 1, and returns what it is given.
pub from_float64_iff : (f p : Float64) → f < 2 ^ 64 → (from_float64 f ≡ ok p) ↔ ((f ≡ p) × InUnit f)
unfolding from_float64
from_float64_iff f p w = elim (Bool-cases (float_le 0 f && float_le f one)) [
  | inl t ↦ rw t (λ h. (ground arith, float_le-InUnit f w t), λ h. ground arith)
  | inr n ↦ rw n (λ h. cc, λ h. absurd (cc (InUnit-float_le f h.1)))
]

pub from_float64-InUnit :
    (f : Float64) {p : Percentage} → f < 2 ^ 64 → from_float64 f ≡ ok p → InUnit p
from_float64-InUnit f {p} w h = let (e, u) = (from_float64_iff f p w).0 h in rw (← e) u

module _ (R : Runtime) (T : IsTyped R) where
  from_string-InUnit : (s : String) {p : Percentage} → from_string R s ≡ ok p → InUnit p
  unfolding from_string
  from_string-InUnit s h = elim (Option-cases (before b'%' s)) [
    | inl e ↦ absurd (ground arith)
    | inr (d, e) ↦ elim (Option-cases (R.parse_float d)) [
      | inl u ↦ absurd (ground arith)
      | inr (f, u) ↦ from_float64-InUnit _ (T.divided f hundred) (ground arith)
    ]
  ]

  into_float64-lt : (j : Json) {f : Float64} → into_float64 R j ≡ ok f → f < 2 ^ 64
  unfolding into_float64
  into_float64-lt null h = ground arith
  into_float64-lt (number n) h = elim (Option-cases (R.json_float n)) [
    | inl e ↦ absurd (ground arith)
    | inr (g, e) ↦ ground (arith, T.read n g)
  ]
  into_float64-lt _ h = cc

  read-InUnit : (j : Json) {p : Percentage} → (into_float64 R j >>= from_float64) ≡ ok p → InUnit p
  read-InUnit j h =
      let (f, e, u) = >>=-eq-ok (into_float64 R j) from_float64 h in
      from_float64-InUnit f (into_float64-lt j e) u

  -- UnmarshalJSON accepts a value only with a result from 0 to 1, and no NaN.
  pub unmarshal_json-InUnit : (j : Json) {p : Percentage} → unmarshal_json R j ≡ ok p → InUnit p
  unfolding unmarshal_json
  unmarshal_json-InUnit (string s) h = from_string-InUnit s h
  unmarshal_json-InUnit null h = read-InUnit null h
  unmarshal_json-InUnit (bool b) h = read-InUnit (bool b) h
  unmarshal_json-InUnit (number n) h = read-InUnit (number n) h
  unmarshal_json-InUnit (array xs) h = read-InUnit (array xs) h
  unmarshal_json-InUnit (object fs) h = read-InUnit (object fs) h
