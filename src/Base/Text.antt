-- ===== src/Base/Text.antt =====
-- Functions on text: the parts of Go's `strings` package that the program calls.
pub mod Split
use Prim.Native.Char.{Char, char, code, IsScalar}
use Prim.Native.Nat.{ℕ, zero, suc, ◌+◌, ◌/◌, ◌%◌, ◌<◌, compare, Ordering}
use Prim.Native.String.{String, ◌++◌ as ◌<>◌}
use mathlib.Core.Logic.{dite}
use mathlib.Core.Option
use mathlib.Core.Option.{Option, none, some}
use mathlib.Core.Path.{◌≡◌}
use native.Mathlib.Decide.{dec_le}
use native.Mathlib.Omega.{arith}
use isotope.Base.Tests.{nat_eq, ltb, if◌then◌else◌}

-- The part of a text before the first character of code `c`: `s[:strings.Index(s, c)]`, and `none`
-- where the index is negative.
unfoldable pub before : ℕ → String → Option String
before c String.[] = none
before c (String.◌∷◌ x s) =
    if nat_eq (code x) c then some String.[] else Option.map (String.◌∷◌ x) (before c s)

lt-compare : (n m : ℕ) → n < m → compare n m ≡ Ordering.lt
lt-compare n m h = ground arith

pub small-IsScalar : (n : ℕ) → n < 55296 → IsScalar n
small-IsScalar n h = rw (lt-compare n 55296 h) tt

-- strings.ToLower. The program lowers the names of service types, which are ASCII, and the model
-- lowers the letters of ASCII.
lower_char : Char → Char
lower_char c =
    dite (dec_le b'A' (code c))
      (λ low.
        dite (dec_le (code c) b'Z')
          (λ high. char (code c + 32) (small-IsScalar (code c + 32) (omega arith))) (λ _. c))
      (λ _. c)

unfoldable pub to_lower : String → String
unfolding lower_char dec_le
to_lower String.[] = String.[]
to_lower (String.◌∷◌ c s) = String.◌∷◌ (lower_char c) (to_lower s)

digit : ℕ → String
digit d =
    if nat_eq d 0
    then "0"
    else if nat_eq d 1
    then "1"
    else if nat_eq d 2
    then "2"
    else if nat_eq d 3
    then "3"
    else if nat_eq d 4
    then "4"
    else if nat_eq d 5
    then "5"
    else if nat_eq d 6
    then "6"
    else if nat_eq d 7
    then "7"
    else if nat_eq d 8
    then "8"
    else "9"

decimal_from : ℕ → ℕ → String → String
decimal_from zero n rest = rest
decimal_from (suc fuel) n rest =
    let more = decimal_from fuel (n / 10) (digit (n % 10) <> rest) in
    if ltb n 10 then digit n <> rest else more

-- A number as fmt's "%v" writes it. A number has fewer digits than one more than itself.
unfoldable pub decimal : ℕ → String
unfolding decimal_from digit
decimal n = decimal_from (suc n) n ""
