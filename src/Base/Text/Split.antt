-- ===== src/Base/Text/Split.antt =====
-- strings.Split at a separator of one character.
use Prim.Native.Char.{Char, code}
use Prim.Native.String.{String, ◌++◌ as ◌<>◌}
use mathlib.Core.Path.{◌≡◌, refl, sym, ap, ◌∙◌}
use mathlib.Core.Logic.{◌≢◌, ◌↔◌, inl, inr}
use mathlib.Core.List.{List, [], ◌∷◌}
use native.Mathlib.Omega.{arith}
use text.Mathlib.TextEquality.{Char-path}
use mathlib.Core.Path.{subst}
use text.Mathlib.TextLemmas.{nil-append, cons-append}
use isotope.Base.Tests.{nat_eq, Bool-cases, if◌then◌else◌}

-- The character before the first part.
push : Char → List String → List String
push c [] = String.◌∷◌ c String.[] ∷ []
push c (p ∷ ps) = String.◌∷◌ c p ∷ ps

unfoldable pub split : Char → String → List String
unfolding push
split sep String.[] = String.[] ∷ []
split sep (String.◌∷◌ c s) =
    let rest = split sep s in if nat_eq (code c) (code sep) then String.[] ∷ rest else push c rest

module _ (sep : Char) where
  abbrev pub Lacks : String → Type 0
  Lacks String.[] = Unit
  Lacks (String.◌∷◌ c s) = (code c ≢ code sep) × Lacks s

  -- The parts lack the separator, and make the text with separators between them.
  abbrev IsSplit : String → List String → Type 0
  IsSplit s [] = ⊥
  IsSplit s (p ∷ []) = (s ≡ p) × Lacks p
  IsSplit s (p ∷ (q ∷ ps)) =
      (rest : String) × Lacks p × (s ≡ p <> String.◌∷◌ sep rest) × IsSplit rest (q ∷ ps)

  IsSplit-sep :
      (c : Char) (s : String) (ps : List String)
      → c ≡ sep
      → IsSplit s ps
      → IsSplit (String.◌∷◌ c s) (String.[] ∷ ps)
  IsSplit-sep c s [] e h = absurd h
  IsSplit-sep c s (q ∷ ps) e h =
      (s, tt, ap (λ x. String.◌∷◌ x s) e ∙ sym (nil-append (String.◌∷◌ sep s)), h)

  push-IsSplit :
      (c : Char) (s : String) (ps : List String)
      → code c ≢ code sep
      → IsSplit s ps
      → IsSplit (String.◌∷◌ c s) (push c ps)
  unfolding push
  push-IsSplit c s [] n h = absurd h
  push-IsSplit c s (p ∷ []) n (e, l) = (ap (String.◌∷◌ c) e, (n, l))
  push-IsSplit c s (p ∷ (q ∷ ps)) n (rest, l, e, h) =
      (rest, (n, l), ap (String.◌∷◌ c) e ∙ sym (cons-append c p (String.◌∷◌ sep rest)), h)

  split-IsSplit : (s : String) → IsSplit s (split sep s)
  unfolding split
  split-IsSplit String.[] = (refl, tt)
  split-IsSplit (String.◌∷◌ c s) = elim (Bool-cases (nat_eq (code c) (code sep))) [
    | inl same ↦
        rw same
          (IsSplit-sep c s (split sep s) (Char-path c sep (ground (arith, same))) (split-IsSplit s))
    | inr differs ↦
        rw differs (push-IsSplit c s (split sep s) (ground (arith, differs)) (split-IsSplit s))
  ]

  split-Lacks : (v : String) → Lacks v → split sep v ≡ v ∷ []
  unfolding split push
  split-Lacks String.[] h = refl
  split-Lacks (String.◌∷◌ c v) (n, h) = ground (arith, split-Lacks v h, n)

  split-append :
      (k rest : String) → Lacks k → split sep (k <> String.◌∷◌ sep rest) ≡ k ∷ split sep rest
  unfolding split push
  split-append String.[] rest h = rw (nil-append (String.◌∷◌ sep rest)) (ground arith)
  split-append (String.◌∷◌ c k) rest (n, h) =
      rw (cons-append c k (String.◌∷◌ sep rest)) (ground (arith, split-append k rest h, n))

  -- A text splits in two exactly at its one separator.
  pub split_two_iff :
      (s k v : String)
      → (split sep s ≡ k ∷ (v ∷ [])) ↔ ((s ≡ k <> String.◌∷◌ sep v) × Lacks k × Lacks v)
  split_two_iff s k v = (parts, λ (e, lacks_k, lacks_v). whole e lacks_k lacks_v)
    where
      parts : split sep s ≡ k ∷ (v ∷ []) → (s ≡ k <> String.◌∷◌ sep v) × Lacks k × Lacks v
      parts h =
          let (rest, lacks_k, e, (same, lacks_v)) = subst (IsSplit s) h (split-IsSplit s) in
          (e ∙ ap (λ x. k <> String.◌∷◌ sep x) same, lacks_k, lacks_v)

      whole : s ≡ k <> String.◌∷◌ sep v → Lacks k → Lacks v → split sep s ≡ k ∷ (v ∷ [])
      whole e lacks_k lacks_v =
          ap (split sep) e ∙ split-append k v lacks_k ∙ ap (λ ps. k ∷ ps) (split-Lacks v lacks_v)
