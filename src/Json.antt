-- ===== src/Json.antt =====
-- JSON values, as encoding/json reads and writes them. The program hands byte slices around. Each
-- is the text of one JSON value, and the model has that value in its place: a test of the first
-- byte, `b[0] == '"'` or `b[0] == '['`, tells a string or an array from the rest.
pub mod Decode
use isotope.Base.{String, Bool, true, false}
use isotope.Base.Int.{ℤ}

-- A number as it is written: an integer, or a text with a fraction or an exponent.
pub data Literal : Type 0 where
  integer : ℤ → Literal
  decimal : String → Literal

mutual
  pub data Json : Type 0 where
    null : Json
    bool : Bool → Json
    number : Literal → Json
    string : String → Json
    array : Items → Json
    object : Fields → Json

  pub data Items : Type 0 where
    nil : Items
    cons : Json → Items → Items

  pub data Fields : Type 0 where
    end : Fields
    field : String → Json → Fields → Fields

-- The word for a value in an `UnmarshalTypeError`.
abbrev pub kind : Json → String
kind null = "null"
kind (bool b) = "bool"
kind (number n) = "number"
kind (string s) = "string"
kind (array xs) = "array"
kind (object fs) = "object"
