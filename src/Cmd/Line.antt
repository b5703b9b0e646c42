-- ===== src/Cmd/Line.antt =====
-- convert/main.go and convert/cmd: the commands as they are given to cobra, and the program from its
-- arguments on. Cobra is a parameter.
pub mod Ends
use isotope.Base.{ℕ, zero, suc, String, ◌<>◌, Bool, List, [], ◌∷◌, Option, none, some}
use isotope.Base.Dict.{Dict, lookup}
use isotope.Base.Result.{Result, ok, err, ◌>>=◌}
use isotope.Base.Int.{ℤ, pos}
use isotope.Error.Text.{Texts}
use isotope.Runtime.{Runtime}
use isotope.Ghodss.{Ghodss}
use isotope.Kubernetes.Types.{Yaml}
use isotope.Cmd.{
  Disk, writes, refuses, cuts, Invocation, graphviz, kubernetes, Files, LibraryTexts, execute,
}

-- PersistentFlags().String and PersistentFlags().Int: the name, the default and the text of the help
pub data Flag : Type 0 where
  string_flag : String → String → String → Flag
  int_flag : String → ℤ → String → Flag

-- The values of the flags of a command.
pub record Flags : Type 0 where
  pub strings : Dict String
  pub ints : Dict ℤ

-- What a `Run` does not find: `args[i]` panics, and the error of GetString and of GetInt ends the
-- program.
pub data Missing : Type 0 where
  no_argument : Missing
  no_flag : String → Missing

-- A `Run`, up to the call that it makes of the arguments and the flags. All are taken first here, and
-- in the source as they are needed, which differs only where one is missing.
abbrev pub Run : Type 0
Run = List String → Flags → Result Missing Invocation

-- cobra.Command, with the number of ExactArgs. `run` is `none` if there is no `Run`.
pub record CobraCommand : Type 0 where
  pub use_line : String
  pub short : String
  pub exact_args : Option ℕ
  pub flags : List Flag
  pub run : Option Run

-- `args[i]`
unfoldable pub argument : List String → ℕ → Result Missing String
argument [] i = err no_argument
argument (arg ∷ args) zero = ok arg
argument (arg ∷ args) (suc i) = argument args i

-- GetString and GetInt
unfoldable pub get_flag : {A : Type 0} → Dict A → String → Result Missing A
get_flag values name = elim (lookup values name) [
  | none ↦ err (no_flag name)
  | some value ↦ ok value
]

unfoldable pub graphviz_args : Run
unfolding argument
graphviz_args args flags = do
  in_file_name ← argument args 0
  out_file_name ← argument args 1
  ok (graphviz in_file_name out_file_name)

unfoldable pub kubernetes_args : Run
unfolding argument get_flag
kubernetes_args args flags = do
  in_path ← argument args 0
  out_path ← argument args 1
  service_node_selector ← argument args 2
  client_node_selector ← argument args 3
  service_image ← get_flag flags.strings "service-image"
  max_idle_connections ← get_flag flags.ints "service-max-idle-connections-per-host"
  client_image ← get_flag flags.strings "client-image"
  ok (
      kubernetes in_path out_path service_node_selector client_node_selector service_image
        max_idle_connections client_image)

unfoldable pub root_cmd : CobraCommand
root_cmd = record {
  use_line = "service-grapher";
  short = "Converts a service graph expressed in YAML to various formats";
  exact_args = none;
  flags = [];
  run = none;
}

unfoldable pub graphviz_cmd : CobraCommand
unfolding graphviz_args
graphviz_cmd = record {
  use_line = "graphviz [YAML file] [output file]";
  short = "Convert a .yaml file to a Graphviz DOT language file";
  exact_args = some 2;
  flags = [];
  run = some graphviz_args;
}

unfoldable pub kubernetes_flags : List Flag
kubernetes_flags =
    string_flag "service-image" "" "the image to deploy for all services in the graph"
    ∷ int_flag "service-max-idle-connections-per-host" (pos 0)
        "maximum number of connections to keep open per host on each service"
    ∷ string_flag "client-image" "" "the image to use for the load testing client job"
    ∷ []

unfoldable pub kubernetes_cmd : CobraCommand
unfolding kubernetes_args kubernetes_flags
kubernetes_cmd = record {
  use_line = "kubernetes";
  short = "Convert service graph YAML to manifests for performance testing";
  exact_args = some 4;
  flags = kubernetes_flags;
  run = some kubernetes_args;
}

-- The commands that are added to the root, in the order of the files.
unfoldable pub commands : List CobraCommand
commands = graphviz_cmd ∷ kubernetes_cmd ∷ []

-- What cobra makes of the arguments: an error, a text that it prints, or a call of a `Run`. What it
-- writes about an error to the standard error is left out.
pub data Parsed : Type 0 where
  refused : String → Parsed
  prints : String → Parsed
  runs : CobraCommand → List String → Flags → Parsed

pub record Cobra : Type 0 where
  pub parse : CobraCommand → List CobraCommand → List String → Parsed

-- How the program ends: for something that is missing, or with an exit code, an output and files.
pub data Outcome : Type 0 where
  stops : Missing → Outcome
  exits : ℕ × String × Files → Outcome

module _ (C : Cobra) (R : Runtime) (Y : Ghodss) (K : Yaml) (disk : String → Disk) (T : Texts)
    (L : LibraryTexts K.Err) where
  unfoldable pub call : Result Missing Invocation → Files → Outcome
  call (err missing) files = stops missing
  call (ok command) files = exits (execute R Y K disk T L command files)

  -- Of a command without a `Run`, cobra prints the help itself.
  unfoldable pub call_run : Option Run → List String → Flags → Files → Outcome
  unfolding call
  call_run none args flags files = exits (0, "", files)
  call_run (some run) args flags files = call (run args flags) files

  unfoldable pub run_parsed : Parsed → Files → Outcome
  unfolding call_run
  run_parsed (refused message) files = exits (1, message <> "\n", files)
  run_parsed (prints text) files = exits (0, text, files)
  run_parsed (runs c args flags) files = call_run c.run args flags files

  -- `Execute`
  unfoldable pub execute_root : List String → Files → Outcome
  unfolding run_parsed
  execute_root argv files = run_parsed (C.parse root_cmd commands argv) files

  -- `main`
  unfoldable pub convert : List String → Files → Outcome
  convert argv files = execute_root argv files
