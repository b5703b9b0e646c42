-- ===== src/Ghodss.antt =====
-- The library github.com/ghodss/yaml, which goes by JSON: Marshal writes the JSON of a value as YAML,
-- and Unmarshal reads a value from the JSON of a YAML text.
use isotope.Base.{String, Option}
use isotope.Json.{Json}

pub record Ghodss : Type 0 where
  pub to_yaml : Json → String
  -- `none` for a text that is no YAML
  pub to_json : String → Option Json
