-- ===== src/Cmd/Selector.antt =====
-- Node selectors on the command line.
use Prim.Native.String.{String}
use isotope.Base.{◌<>◌, ◌≡◌, ◌↔◌, sym, ap, ◌∙◌, Option-cases, some, List, [], ◌∷◌, inl, inr, arith}
use isotope.Base.Dict.{Dict, insert}
use isotope.Base.Result.{Result, ok}
use isotope.Base.Text.Split.{split, Lacks, split_two_iff}
use isotope.Cmd.{CmdError, equals, two_parts, split_by_equals, selector_of, extract_node_selector}

two_parts-some :
    (parts : List String) {k v : String} → two_parts parts ≡ some (k, v) → parts ≡ k ∷ (v ∷ [])
unfolding two_parts
two_parts-some [] h = cc
two_parts-some (k ∷ []) h = cc
two_parts-some (k ∷ (v ∷ [])) h = ground (arith, h)
two_parts-some (k ∷ (v ∷ (w ∷ ps))) h = cc

-- A node selector is accepted exactly if the text has one equals sign, and it is then the label before
-- the sign with the value after it.
pub extract_node_selector_iff :
    {E : Type 0} (s : String) (selector : Dict String)
    → (◌≡◌ {A = Result (CmdError E) (Dict String)} (extract_node_selector s) (ok selector)) ↔ (
        (k : String) × (v : String) × (s ≡ k <> String.◌∷◌ equals v)
        × Lacks equals k
        × Lacks equals v
        × (selector ≡ (k, v) ∷ []))
unfolding extract_node_selector split_by_equals two_parts insert
extract_node_selector_iff {E} s selector =
    (accepted, λ (k, v, e, lacks_k, lacks_v, same). accepts k v e lacks_k lacks_v same)
  where
    accepted :
        ◌≡◌ {A = Result (CmdError E) (Dict String)} (extract_node_selector s) (ok selector)
        → (k : String) × (v : String) × (s ≡ k <> String.◌∷◌ equals v)
          × Lacks equals k
          × Lacks equals v
          × (selector ≡ (k, v) ∷ [])
    accepted h = elim (Option-cases (two_parts (split equals s))) [
      | inl e ↦ absurd (ground (arith, h, e))
      | inr ((k, v), e) ↦
          let (spelt, lacks_k, lacks_v) =
            (split_two_iff equals s k v).0 (two_parts-some (split equals s) e) in
          (k, v, spelt, lacks_k, lacks_v, ground (arith, h, e))
    ]

    accepts :
        (k v : String)
        → s ≡ k <> String.◌∷◌ equals v
        → Lacks equals k
        → Lacks equals v
        → selector ≡ (k, v) ∷ []
        → ◌≡◌ {A = Result (CmdError E) (Dict String)} (extract_node_selector s) (ok selector)
    accepts k v e lacks_k lacks_v same =
        ap (λ parts. selector_of s (two_parts parts))
          ((split_two_iff equals s k v).1 (e, lacks_k, lacks_v))
        ∙ ap ok (sym same)
