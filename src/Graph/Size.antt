-- ===== src/Graph/Size.antt =====
-- convert/pkg/graph/size: sizes in bytes, a uint64.
pub mod Range
use isotope.Base.{ℕ, String, none, some}
use isotope.Base.Int.{ℤ, pos, negsuc}
use isotope.Base.Result.{Result, ok, err, ◌>>=◌}
use isotope.Runtime.{Runtime}
use isotope.Error.{Error, negative_size, invalid_size}
use isotope.Json.{Json, string}
use isotope.Json.Decode.{into_string, into_int}

abbrev pub ByteSize : Type 0
ByteSize = ℕ

unfoldable pub from_int64 : ℤ → Result Error ByteSize
from_int64 (pos n) = ok n
from_int64 (negsuc n) = err (negative_size (negsuc n))

module _ (R : Runtime) where
  unfoldable pub to_string : ByteSize → String
  to_string z = R.bytes_size z

  -- MarshalJSON
  unfoldable pub marshal_json : ByteSize → Json
  unfolding to_string
  marshal_json z = string (to_string z)

  unfoldable pub from_string : String → Result Error ByteSize
  from_string s = elim (R.ram_in_bytes s) [ none ↦ err (invalid_size s) | some x ↦ from_int64 x ]

  -- UnmarshalJSON
  unfoldable pub unmarshal_json : Json → Result Error ByteSize
  unfolding from_string into_string into_int
  unmarshal_json (string s) = do s' ← into_string "" (string s); from_string s'
  unmarshal_json j = do x ← into_int 63 "int64" (pos 0) j; from_int64 x
