-- ===== src/Base/Float.antt =====
-- float64 values as their patterns of bits (IEEE 754), numbers below 2 ^ 64.
use Prim.Native.Nat.{ℕ, ◌%◌, ◌^◌, ◌≤◌, ◌<◌}
use mathlib.Core.Bool.{Bool, true, false, ◌&&◌, not}
use mathlib.Core.Logic.{◌⊎◌}
use mathlib.Core.Path.{◌≡◌}
use native.Mathlib.Omega.{arith}
use isotope.Base.Tests.{leb, ltb, nat_eq}

abbrev pub Float64 : Type 0
Float64 = ℕ

abbrev pub sign_bit : ℕ
sign_bit = 2 ^ 63

-- The pattern of +Inf. A greater magnitude is a NaN.
abbrev pub infinity : Float64
infinity = 0x7ff0000000000000

abbrev pub one : Float64
one = 0x3ff0000000000000

abbrev pub hundred : Float64
hundred = 0x4059000000000000

abbrev pub is_negative : Float64 → Bool
is_negative f = leb sign_bit f

abbrev pub magnitude : Float64 → ℕ
magnitude f = f % sign_bit

abbrev pub is_nan : Float64 → Bool
is_nan f = ltb infinity (magnitude f)

-- `f == 0`, true of both zeros
abbrev pub is_zero : Float64 → Bool
is_zero f = nat_eq (magnitude f) 0

abbrev same_sign : Bool → Bool → ℕ → ℕ → Bool
same_sign false false m n = leb m n
same_sign true true m n = leb n m
same_sign true false m n = true
same_sign false true m n = nat_eq m 0 && nat_eq n 0

-- `f <= g`, false where one of them is a NaN
unfoldable pub float_le : Float64 → Float64 → Bool
float_le f g =
    not (is_nan f)
    && (not (is_nan g) && same_sign (is_negative f) (is_negative g) (magnitude f) (magnitude g))

-- The values from 0 to 1: both zeros, and the positive patterns up to that of 1.
abbrev pub InUnit : Float64 → Type 0
InUnit f = (f ≤ one) ⊎ (f ≡ sign_bit)

pub float_le-InUnit :
    (f : Float64) → f < 2 ^ 64 → (float_le 0 f && float_le f one) ≡ true → InUnit f
unfolding float_le
float_le-InUnit f w h = ground arith

pub InUnit-float_le : (f : Float64) → InUnit f → (float_le 0 f && float_le f one) ≡ true
unfolding float_le
InUnit-float_le f h = ground arith
