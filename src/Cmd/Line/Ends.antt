-- ===== src/Cmd/Line/Ends.antt =====
-- convert/cmd: what the arguments of the converter make it do.
use mathlib.Core.Path.{subst}
use isotope.Base.{
  ℕ, String, ◌<>◌, ◌≡◌, ◌≢◌, ap, sym, inl, inr, refl, List, [], ◌∷◌, Option, none, some, All, Any,
  length, arith,
}
use isotope.Base.Dict.{Dict, lookup}
use isotope.Base.Int.{ℤ}
use isotope.Base.Result.{ok}
use isotope.Error.Text.{Texts}
use isotope.Runtime.{Runtime}
use isotope.Ghodss.{Ghodss}
use isotope.Kubernetes.Types.{Yaml}
use isotope.Cmd.{Disk, Invocation, graphviz, kubernetes, Files, LibraryTexts, execute}
use isotope.Cmd.Line.{
  Flag, string_flag, int_flag, Flags, CobraCommand, argument, get_flag, graphviz_args,
  kubernetes_args, root_cmd, graphviz_cmd, kubernetes_cmd, kubernetes_flags, commands, Parsed,
  refused, prints, runs, Cobra, Outcome, exits, call, call_run, run_parsed, execute_root, convert,
}

abbrev pub HasValue : Flags → Flag → Type 0
HasValue flags (string_flag name default usage) =
    (value : String) × (lookup flags.strings name ≡ some value)
HasValue flags (int_flag name default usage) = (value : ℤ) × (lookup flags.ints name ≡ some value)

abbrev pub HasArgs : Option ℕ → List String → Type 0
HasArgs none args = Unit
HasArgs (some n) args = length args ≡ n

-- What cobra documents: it runs the root or a command that was added, if that has a `Run`, with as many
-- arguments as ExactArgs asks for, and then each flag of the command has a value.
abbrev pub IsCobra : Cobra → Type 0
IsCobra C =
    (root : CobraCommand) (added : List CobraCommand) (argv : List String) (c : CobraCommand)
    (args : List String) (flags : Flags)
    → C.parse root added argv ≡ runs c args flags
    → Any (λ x. x ≡ c) (root ∷ added)
      × (c.run ≢ none)
      × HasArgs c.exact_args args
      × All (HasValue flags) c.flags

-- The call that a command makes of its arguments and flags.
abbrev pub IsCallWith : CobraCommand → List String → Flags → Invocation → Type 0
IsCallWith c args flags (graphviz in_path out_path) =
    (c ≡ graphviz_cmd) × (args ≡ in_path ∷ out_path ∷ [])
IsCallWith c args flags (kubernetes in_path out_path ss cs image max_idle client) =
    (c ≡ kubernetes_cmd)
    × (args ≡ in_path ∷ out_path ∷ ss ∷ cs ∷ [])
    × (lookup flags.strings "service-image" ≡ some image)
    × (lookup flags.ints "service-max-idle-connections-per-host" ≡ some max_idle)
    × (lookup flags.strings "client-image" ≡ some client)

-- Arguments and flags that are all there make a call.
graphviz_called :
    (args : List String) (flags : Flags)
    → length args ≡ 2
    → (command : Invocation) × IsCallWith graphviz_cmd args flags command
      × (graphviz_args args flags ≡ ok command)
unfolding graphviz_args argument
graphviz_called [] flags h = absurd (omega (arith, h))
graphviz_called (a ∷ []) flags h = absurd (omega (arith, h))
graphviz_called (a ∷ b ∷ []) flags h = (graphviz a b, (refl, refl), refl)
graphviz_called (a ∷ b ∷ c ∷ args) flags h = absurd (omega (arith, h))

get_flag_value :
    {A : Type 0} (values : Dict A) (name : String) {value : A}
    → lookup values name ≡ some value
    → get_flag values name ≡ ok value
unfolding get_flag
get_flag_value values name h = rw (get_flag, h) refl

kubernetes_called :
    (args : List String) (flags : Flags)
    → length args ≡ 4
    → All (HasValue flags) kubernetes_flags
    → (command : Invocation) × IsCallWith kubernetes_cmd args flags command
      × (kubernetes_args args flags ≡ ok command)
unfolding kubernetes_flags kubernetes_args argument
kubernetes_called [] flags h vs = absurd (omega (arith, h))
kubernetes_called (a ∷ []) flags h vs = absurd (omega (arith, h))
kubernetes_called (a ∷ b ∷ []) flags h vs = absurd (omega (arith, h))
kubernetes_called (a ∷ b ∷ c ∷ []) flags h vs = absurd (omega (arith, h))
kubernetes_called (a ∷ b ∷ c ∷ d ∷ []) flags h ((image, i), ((idle, m), ((client, l), _))) = (
  kubernetes a b c d image idle client,
  (refl, refl, i, m, l),
  rw
      (
        get_flag_value flags.strings "service-image" i,
        get_flag_value flags.ints "service-max-idle-connections-per-host" m,
        get_flag_value flags.strings "client-image" l,
      )
      refl,
)
kubernetes_called (a ∷ b ∷ c ∷ d ∷ e ∷ args) flags h vs = absurd (omega (arith, h))

module _ (R : Runtime) (Y : Ghodss) (K : Yaml) (disk : String → Disk) (T : Texts)
    (L : LibraryTexts K.Err) where
  -- How the program ends, by what cobra makes of its arguments.
  abbrev pub EndsBy : Parsed → Files → Outcome → Type 0
  EndsBy (refused text) files ended = ended ≡ exits (1, text <> "\n", files)
  EndsBy (prints text) files ended = ended ≡ exits (0, text, files)
  EndsBy (runs c args flags) files ended =
      (command : Invocation) × IsCallWith c args flags command
      × (ended ≡ exits (execute R Y K disk T L command files))

module _ (C : Cobra) (R : Runtime) (Y : Ghodss) (K : Yaml) (disk : String → Disk) (T : Texts)
    (L : LibraryTexts K.Err) (lawful : IsCobra C) where
  -- A command that was added calls `execute`, when its arguments and flags are there.
  abbrev Called : CobraCommand → Type 0
  Called c =
      (args : List String) (flags : Flags) (files : Files)
      → HasArgs c.exact_args args
      → All (HasValue flags) c.flags
      → EndsBy R Y K disk T L (runs c args flags) files
          (call_run C R Y K disk T L c.run args flags files)

  graphviz-Called : Called graphviz_cmd
  unfolding graphviz_cmd call_run call
  graphviz-Called args flags files h vs =
      let (command, made, e) = graphviz_called args flags h in (command, made, rw e refl)

  kubernetes-Called : Called kubernetes_cmd
  unfolding kubernetes_cmd call_run call
  kubernetes-Called args flags files h vs =
      let (command, made, e) = kubernetes_called args flags h vs in (command, made, rw e refl)

  added-Called : (c : CobraCommand) → Any (λ x. x ≡ c) commands → Called c
  unfolding commands
  added-Called c (inl same) = subst Called same graphviz-Called
  added-Called c (inr (inl same)) = subst Called same kubernetes-Called
  added-Called c (inr (inr x)) = absurd x

  -- The root has no `Run`, so it is never run.
  is_added :
      (c : CobraCommand)
      → Any (λ x. x ≡ c) (root_cmd ∷ commands)
      → c.run ≢ none
      → Any (λ x. x ≡ c) commands
  unfolding root_cmd
  is_added c (inl same) runnable = absurd (runnable (ap (λ x. x.run) (sym same)))
  is_added c (inr added) runnable = added

  run_parsed-EndsBy :
      (p : Parsed) (files : Files)
      → ((c : CobraCommand) (args : List String) (flags : Flags)
          → p ≡ runs c args flags
          → Any (λ x. x ≡ c) (root_cmd ∷ commands)
            × (c.run ≢ none)
            × HasArgs c.exact_args args
            × All (HasValue flags) c.flags)
      → EndsBy R Y K disk T L p files (run_parsed C R Y K disk T L p files)
  unfolding run_parsed
  run_parsed-EndsBy (refused text) files h = refl
  run_parsed-EndsBy (prints text) files h = refl
  run_parsed-EndsBy (runs c args flags) files h =
      let (known, runnable, counted, valued) = h c args flags refl in
      added-Called c (is_added c known runnable) args flags files counted valued

  -- The converter ends at every command line, and never for an argument or a flag that is missing: an
  -- error of cobra ends it with exit code 1 and its message, a text that cobra prints with exit code 0,
  -- both with the files as they were; otherwise it executes the graphviz command with the two
  -- arguments, or the kubernetes command with the four arguments and the values of the three flags.
  pub convert-EndsBy :
      (argv : List String) (files : Files)
      → EndsBy R Y K disk T L
          (C.parse root_cmd commands argv)
          files
          (convert C R Y K disk T L argv files)
  unfolding convert execute_root
  convert-EndsBy argv files =
      run_parsed-EndsBy (C.parse root_cmd commands argv) files (lawful root_cmd commands argv)
