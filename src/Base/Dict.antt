-- ===== src/Base/Dict.antt =====
-- Go maps with string keys, as association lists. A program that ranges over a map may meet its
-- entries in any order, so results are compared by `lookup`.
use Prim.Native.String.{String}
use mathlib.Core.Bool.{true, false}
use mathlib.Core.Path.{◌≡◌}
use mathlib.Core.Logic.{◌≢◌, inl, inr}
use mathlib.Core.Option.{Option, none, some}
use mathlib.Core.List.{List, [], ◌∷◌}
use native.Mathlib.Omega.{arith}
use text.Mathlib.Text.{◌==◌}
use text.Mathlib.TextEquality.{eq_iff}
use isotope.Base.Tests.{Bool-cases, if◌then◌else◌}

abbrev pub Dict {ℓ} : Type ℓ → Type ℓ
Dict V = List (String × V)

module _ {ℓ} {V : Type ℓ} where
  -- `m[key]`, which is `none` where the map has no such key
  unfoldable pub lookup : Dict V → String → Option V
  lookup [] key = none
  lookup ((name, value) ∷ m) key = elim (name == key) [ true ↦ some value | false ↦ lookup m key ]

  -- `m[key] = value`
  unfoldable pub insert : Dict V → String → V → Dict V
  insert [] key value = (key, value) ∷ []
  insert ((name, old) ∷ m) key value = elim (name == key) [
    | true ↦ (name, value) ∷ m
    | false ↦ (name, old) ∷ insert m key value
  ]

  -- An assignment is seen under its key, and under no other.
  pub lookup-insert :
      (m : Dict V) (key : String) (value : V) (other : String)
      → lookup (insert m key value) other ≡ (if key == other then some value else lookup m other)
  unfolding lookup insert
  lookup-insert [] key value other = ground arith
  lookup-insert ((name, old) ∷ m) key value other =
      ground (
        arith,
        lookup-insert m key value other,
        eq_iff name key,
        eq_iff name other,
        eq_iff key other,
      )

  -- No entry has the key.
  abbrev pub IsAbsent : String → Dict V → Type 0
  IsAbsent key [] = Unit
  IsAbsent key ((k, v) ∷ m) = (k ≢ key) × IsAbsent key m

  -- No two entries have the same key.
  abbrev pub IsMap : Dict V → Type 0
  IsMap [] = Unit
  IsMap ((key, v) ∷ m) = IsAbsent key m × IsMap m

  insert-IsAbsent :
      (m : Dict V) (key : String) (value : V) (other : String)
      → key ≢ other
      → IsAbsent other m
      → IsAbsent other (insert m key value)
  unfolding insert
  insert-IsAbsent [] key value other d h = (d, tt)
  insert-IsAbsent ((k, v) ∷ m) key value other d h = elim (Bool-cases (k == key)) [
    | inl same ↦ rw (same, insert, IsAbsent) h
    | inr differs ↦ rw (differs, insert, IsAbsent) (h.0, insert-IsAbsent m key value other d h.1)
  ]

  pub insert-IsMap : (m : Dict V) (key : String) (value : V) → IsMap m → IsMap (insert m key value)
  unfolding insert
  insert-IsMap [] key value h = (tt, tt)
  insert-IsMap ((k, v) ∷ m) key value h = elim (Bool-cases (k == key)) [
    | inl same ↦ rw (same, insert, IsMap) h
    | inr differs ↦
        rw (differs, insert, IsMap)
          (
            insert-IsAbsent m key value k (ground (arith, eq_iff k key)) h.0,
            insert-IsMap m key value h.1,
          )
  ]
