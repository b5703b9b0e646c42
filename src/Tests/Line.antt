-- ===== src/Tests/Line.antt =====
-- The converter from its arguments on, under a cobra that runs the first command that the arguments fit.
use mathlib.Core.Path.{subst}
use native.Mathlib.Decide.{ℕ_discrete}
use isotope.Base.{
  ℕ, String, ◌≡◌, ◌≢◌, refl, inl, inr, List, [], ◌∷◌, Option, none, some, All, Any, length,
}
use isotope.Base.Dict.{lookup}
use isotope.Base.Int.{pos}
use isotope.Cmd.Line.{
  Flag, string_flag, int_flag, Flags, CobraCommand, Run, root_cmd, commands, Parsed, refused,
  prints, runs, Cobra, convert, graphviz_cmd, kubernetes_cmd, kubernetes_flags,
}
use isotope.Cmd.Line.Ends.{HasArgs, HasValue, IsCobra, EndsBy, convert-EndsBy}
use isotope.Tests.Cmd.{files, anywhere, texts, library_texts}
use isotope.Tests.Main.{one_file, one_graph}
use isotope.Tests.Sample.{sample}

abbrev counted : (n : Option ℕ) (args : List String) → Option (HasArgs n args)
counted none args = some tt
counted (some n) args = elim (ℕ_discrete (length args) n) [ yes h ↦ some h | no h ↦ none ]

abbrev found : {A : Type 0} (o : Option A) → Option ((value : A) × (o ≡ some value))
found none = none
found (some value) = some (value, refl)

abbrev valued : (flags : Flags) (f : Flag) → Option (HasValue flags f)
valued flags (string_flag name default usage) = found (lookup flags.strings name)
valued flags (int_flag name default usage) = found (lookup flags.ints name)

abbrev all_valued : (flags : Flags) (fs : List Flag) → Option (All (HasValue flags) fs)
all_valued flags [] = some tt
all_valued flags (f ∷ fs) =
    let rest = all_valued flags fs in
    elim (valued flags f) [
      | none ↦ none
      | some v ↦ elim rest [ none ↦ none | some vs ↦ some (v, vs) ]
    ]

some_run : (run : Run) → some run ≢ none
some_run run e = cc

abbrev runnable : (o : Option Run) → Option (o ≢ none)
runnable none = none
runnable (some run) = some (some_run run)

module _ (c : CobraCommand) (flags : Flags) (args : List String) where
  abbrev run_or :
      Option (c.run ≢ none)
      → Option (HasArgs c.exact_args args)
      → Option (All (HasValue flags) c.flags)
      → Parsed
      → Parsed
  run_or none h vs rest = rest
  run_or (some r) none vs rest = rest
  run_or (some r) (some h) none rest = rest
  run_or (some r) (some h) (some vs) rest = runs c args flags

abbrev parse_first : Flags → List CobraCommand → List String → Parsed
parse_first flags [] args = refused "unknown command"
parse_first flags (c ∷ added) args =
    run_or c flags args (runnable c.run) (counted c.exact_args args) (all_valued flags c.flags)
      (parse_first flags added args)

abbrev first_fit : Flags → Cobra
first_fit flags = record { parse = λ root added args. parse_first flags added args }

abbrev IsRun : List CobraCommand → Parsed → Type 0
IsRun added (refused text) = Unit
IsRun added (prints text) = Unit
IsRun added (runs c args flags) =
    Any (λ x. x ≡ c) added
    × (c.run ≢ none)
    × HasArgs c.exact_args args
    × All (HasValue flags) c.flags

IsRun-later :
    (c : CobraCommand) (added : List CobraCommand) (p : Parsed)
    → IsRun added p
    → IsRun (c ∷ added) p
IsRun-later c added (refused text) h = tt
IsRun-later c added (prints text) h = tt
IsRun-later c added (runs d args flags) (a, r, h, vs) = (inr a, r, h, vs)

run_or-IsRun :
    (c : CobraCommand) (added : List CobraCommand) (flags : Flags) (args : List String)
    (r : Option (c.run ≢ none)) (h : Option (HasArgs c.exact_args args))
    (vs : Option (All (HasValue flags) c.flags)) (rest : Parsed)
    → IsRun added rest
    → IsRun (c ∷ added) (run_or c flags args r h vs rest)
run_or-IsRun c added flags args none h vs rest k = IsRun-later c added rest k
run_or-IsRun c added flags args (some r) none vs rest k = IsRun-later c added rest k
run_or-IsRun c added flags args (some r) (some h) none rest k = IsRun-later c added rest k
run_or-IsRun c added flags args (some r) (some h) (some vs) rest k = (inl refl, r, h, vs)

parse_first-IsRun :
    (flags : Flags) (added : List CobraCommand) (args : List String)
    → IsRun added (parse_first flags added args)
parse_first-IsRun flags [] args = tt
parse_first-IsRun flags (c ∷ added) args =
    run_or-IsRun c added flags args (runnable c.run) (counted c.exact_args args)
      (all_valued flags c.flags) (parse_first flags added args) (parse_first-IsRun flags added args)

abbrev given : Flags
given = record {
  strings = ("service-image", "image") ∷ ("client-image", "client") ∷ [];
  ints = ("service-max-idle-connections-per-host", pos 64) ∷ [];
}

first_fit-IsCobra : IsCobra (first_fit given)
first_fit-IsCobra root added argv c args flags e =
    let (known, r, h, vs) = subst (IsRun added) e (parse_first-IsRun given added argv) in
    (inr known, r, h, vs)

abbrev four_args : List String
four_args = "graph.yaml" ∷ "out.yaml" ∷ "pool=a" ∷ "pool=b" ∷ []

kubernetes_is_run :
    (first_fit given).parse root_cmd commands four_args ≡ runs kubernetes_cmd four_args given
unfolding root_cmd commands graphviz_cmd kubernetes_cmd kubernetes_flags lookup ℕ_discrete
kubernetes_is_run = refl

convert-EndsBy_example :
    EndsBy sample one_file one_graph anywhere texts library_texts
      (runs kubernetes_cmd four_args given)
      files
      (convert
        (first_fit given)
        sample
        one_file
        one_graph
        anywhere
        texts
        library_texts
        four_args
        files)
convert-EndsBy_example =
    subst
      (λ p. EndsBy sample one_file one_graph anywhere texts library_texts p files (
        convert (first_fit given) sample one_file one_graph anywhere texts library_texts four_args
          files))
      kubernetes_is_run
      (convert-EndsBy (first_fit given) sample one_file one_graph anywhere texts library_texts
        first_fit-IsCobra four_args files)
