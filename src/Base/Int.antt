-- ===== src/Base/Int.antt =====
-- Signed integers over the native numbers. `negsuc n` is -(n + 1).
use Prim.Native.Nat.{ℕ, ◌^◌}
use mathlib.Core.Bool.{Bool}
use isotope.Base.Tests.{ltb}

pub data ℤ : Type 0 where
  pos : ℕ → ℤ
  negsuc : ℕ → ℤ

-- Whether an integer fits a signed word of `w + 1` bits.
abbrev pub fits_int : ℕ → ℤ → Bool
fits_int w (pos n) = ltb n (2 ^ w)
fits_int w (negsuc n) = ltb n (2 ^ w)
