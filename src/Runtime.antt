-- ===== src/Runtime.antt =====
-- What the program calls and this repository does not implement, as one record of functions: the
-- texts and the arithmetic of float64 (strconv, encoding/json, fmt), the texts of durations (time),
-- and the texts of sizes (github.com/docker/go-units).
use isotope.Base.{ℕ, ◌^◌, ◌<◌, String, ◌≡◌, Option, some}
use isotope.Base.Int.{ℤ, fits_int}
use isotope.Base.Float.{Float64}
use isotope.Base.{true}
use isotope.Json.{Literal}

pub record Runtime : Type 0 where
  -- strconv.ParseFloat(s, 64), and the same for a JSON number
  pub parse_float : String → Option Float64
  pub json_float : Literal → Option Float64
  -- how encoding/json writes a float64; `none` for an infinity or a NaN
  pub float_json : Float64 → Option Literal
  -- `f / g`, `f * g`, and fmt's "%0.2f"
  pub divide : Float64 → Float64 → Float64
  pub multiply : Float64 → Float64 → Float64
  pub two_decimals : Float64 → String
  -- time.ParseDuration and Duration.String
  pub parse_duration : String → Option ℤ
  pub duration_string : ℤ → String
  -- units.RAMInBytes, and units.BytesSize of the size as a float64
  pub ram_in_bytes : String → Option ℤ
  pub bytes_size : ℕ → String

-- The results are float64 patterns and int64 numbers.
pub record IsTyped (R : Runtime) : Type 0 where
  pub parsed : (s : String) (f : Float64) → R.parse_float s ≡ some f → f < 2 ^ 64
  pub read : (n : Literal) (f : Float64) → R.json_float n ≡ some f → f < 2 ^ 64
  pub divided : (f g : Float64) → R.divide f g < 2 ^ 64
  pub sized : (s : String) (z : ℤ) → R.ram_in_bytes s ≡ some z → fits_int 63 z ≡ true
  pub lasting : (s : String) (z : ℤ) → R.parse_duration s ≡ some z → fits_int 63 z ≡ true
