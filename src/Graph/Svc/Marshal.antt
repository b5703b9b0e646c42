-- ===== src/Graph/Svc/Marshal.antt =====
-- How encoding/json writes a service and a graph, by the tags of Service and ServiceGraph: all
-- fields but the name are left out where they hold the zero value of their type.
pub mod SetField
pub mod RoundTrip
use isotope.Base.{ℕ, String, Bool, true, false, not, List, [], ◌∷◌, is_zero_nat, if◌then◌else◌}
use isotope.Base.Int.{ℤ, pos, negsuc}
use isotope.Base.Float.{is_zero}
use isotope.Base.Result.{Result, ok, err, ◌>>=◌}
use isotope.Runtime.{Runtime}
use isotope.Error.{Error}
use isotope.Json.{Json, Items, Fields, field, end, bool, number, string, array, object, integer}
use isotope.Graph.Pct
use isotope.Graph.Pct.{Percentage}
use isotope.Graph.Size
use isotope.Graph.ServiceType
use isotope.Graph.ServiceType.{ServiceType}
use isotope.Graph.Script.Types.{Commands, Script}
use isotope.Graph.Script.Marshal
use isotope.Graph.Svc.{Service}

abbrev pub omit_empty : Bool → String → Json → Fields → Fields
omit_empty is_empty key v fs = if is_empty then fs else field key v fs

abbrev pub is_unknown : ServiceType → Bool
is_unknown ServiceType.unknown = true
is_unknown _ = false

abbrev pub is_zero_int : ℤ → Bool
is_zero_int (pos n) = is_zero_nat n
is_zero_int (negsuc n) = false

abbrev pub is_empty_script : Script → Bool
is_empty_script Commands.nil = true
is_empty_script (Commands.cons c cs) = false

module _ (R : Runtime) where
  -- The value of a field that may fail is computed only where it is written.
  abbrev pub rate_field : Percentage → Fields → Result Error Fields
  rate_field p fs =
      if is_zero p then ok fs else (Pct.marshal_json R p >>= λ v. ok (field "errorRate" v fs))

  abbrev pub script_field : Script → Fields → Result Error Fields
  script_field c fs =
      if is_empty_script c
      then ok fs
      else (Marshal.marshal_json R c >>= λ v. ok (field "script" v fs))

  abbrev pub size_field : ℕ → Fields → Fields
  size_field z = omit_empty (is_zero_nat z) "responseSize" (Size.marshal_json R z)

  abbrev pub replicas_field : ℤ → Fields → Fields
  replicas_field z = omit_empty (is_zero_int z) "numReplicas" (number (integer z))

  abbrev pub type_field : ServiceType → Fields → Fields
  type_field t = omit_empty (is_unknown t) "type" (ServiceType.marshal_json t)

  abbrev pub entrypoint_field : Bool → Fields → Fields
  entrypoint_field b = omit_empty (not b) "isEntrypoint" (bool b)

  unfoldable pub marshal_json : Service → Result Error Json
  marshal_json s = do
    scripted ← script_field s.script end
    rated ← rate_field s.error_rate (size_field s.response_size scripted)
    ok (
        object (
          field "name" (string s.name) (
            type_field s.type
              (replicas_field s.num_replicas (entrypoint_field s.is_entrypoint rated)))))

  unfoldable pub marshal_services : List Service → Result Error Items
  marshal_services [] = ok Items.nil
  marshal_services (s ∷ services) = do
    x ← marshal_json s
    xs ← marshal_services services
    ok (Items.cons x xs)
