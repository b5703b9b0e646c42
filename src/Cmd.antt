-- ===== src/Cmd.antt =====
-- convert/cmd: the two commands of the converter, on a file system that they read and write.
pub mod Selector
pub mod Steps
pub mod Frame
pub mod Pipeline
pub mod Line
use Prim.Native.Char.{Char}
use isotope.Base.{
  ℕ, suc, String, ◌<>◌, ◌==◌, Bool, true, false, if◌then◌else◌, Option, none, some, List, [], ◌∷◌,
}
use isotope.Base.Dict.{Dict, lookup, insert}
use isotope.Base.Int.{ℤ}
use isotope.Base.Text.{decimal}
use isotope.Base.Result.{Result, ok, err, ◌>>=◌}
use isotope.Base.Text.Split.{split}
use isotope.Runtime.{Runtime}
use isotope.Error.{Error}
use isotope.Error.Text.{Texts, error_text, int_text}
use isotope.Ghodss.{Ghodss}
use isotope.Graph.{ServiceGraph}
use isotope.Graph.Svc.Unmarshal.{initial}
use isotope.Graph.Unmarshal.{unmarshal_json}
use isotope.Graphviz.Dot.{service_graph_to_dot_language}
use isotope.Kubernetes.Types.{Yaml}
use isotope.Kubernetes.{service_graph_to_kubernetes_manifests}

-- What `exitIfError` prints before it ends the program with exit code 1. `library` is an error of
-- the YAML library in writing.
pub data CmdError (E : Type 0) : Type 0 where
  not_a_node_selector : String → CmdError E
  unreadable_file : String → CmdError E
  invalid_yaml : CmdError E
  invalid_graph : Error → CmdError E
  no_drawing : Error → CmdError E
  library : E → CmdError E
  unwritable_file : String → CmdError E
  -- writing fails once the file is open, and leaves a text in it
  cut_file : (path left : String) → CmdError E

abbrev pub equals : Char
equals = "="

-- splitByEquals
two_parts : List String → Option (String × String)
two_parts (k ∷ (v ∷ [])) = some (k, v)
two_parts _ = none

unfoldable pub split_by_equals : String → Option (String × String)
unfolding two_parts
split_by_equals s = two_parts (split equals s)

module _ {E : Type 0} where
  selector_of : String → Option (String × String) → Result (CmdError E) (Dict String)
  selector_of s none = err (not_a_node_selector s)
  selector_of s (some (k, v)) = ok (insert [] k v)

  unfoldable pub extract_node_selector : String → Result (CmdError E) (Dict String)
  unfolding selector_of
  extract_node_selector s = selector_of s (split_by_equals s)

-- ioutil.ReadFile and ioutil.WriteFile, which fails where a path cannot be written
abbrev pub Files : Type 0
Files = Dict String

-- What the system does with a file that is to be written: it takes all, it cannot open it, or it fails
-- once the file is open, and then the file has what was written so far.
pub data Disk : Type 0 where
  writes : Disk
  refuses : Disk
  cuts : (left : String) → Disk

pub data Invocation : Type 0 where
  graphviz : (in_path out_path : String) → Invocation
  -- the service and the client node selector, and the flags
  kubernetes :
      (in_path out_path service_selector client_selector : String) (service_image : String)
      (max_idle_connections : ℤ) (client_image : String)
      → Invocation

abbrev pub out_path_of : Invocation → String
out_path_of (graphviz in_path out_path) = out_path
out_path_of (kubernetes in_path out_path s c image max_idle client_image) = out_path

-- The messages of os, of the YAML library in reading and in writing, and what it puts around the
-- message of an UnmarshalJSON method.
pub record LibraryTexts (E : Type 0) : Type 0 where
  pub unreadable_text : String → String
  pub invalid_yaml_text : String
  pub unmarshal_text : String → String
  pub library_text : E → String
  pub unwritable_text : String → String
  -- an error of Write or Close
  pub cut_text : String → String

unfoldable pub not_a_node_selector_text : String → String
not_a_node_selector_text s = s <> " is not a valid node selector"

module _ {E F A : Type 0} (f : E → F) where
  -- An error in another type.
  abbrev pub map_err : Result E A → Result F A
  map_err (ok a) = ok a
  map_err (err e) = err (f e)

-- The files after an error.
abbrev pub left_by : {E : Type 0} → Files → CmdError E → Files
left_by files (cut_file path left) = insert files path left
left_by files _ = files

module _ (R : Runtime) (Y : Ghodss) (K : Yaml) (disk : String → Disk) where
  -- yaml.Unmarshal into a ServiceGraph
  unfoldable pub unmarshal_yaml : String → Result (CmdError K.Err) ServiceGraph
  unmarshal_yaml text = elim (Y.to_json text) [
    | none ↦ err invalid_yaml
    | some j ↦ map_err invalid_graph (unmarshal_json R j initial).0
  ]

  unfoldable pub read_graph : Files → String → Result (CmdError K.Err) ServiceGraph
  read_graph files path = elim (lookup files path) [
    | none ↦ err (unreadable_file path)
    | some text ↦ unmarshal_yaml text
  ]

  -- ioutil.WriteFile, which truncates the file as it opens it.
  unfoldable pub write_file : Files → String → String → Result (CmdError K.Err) Files
  write_file files path text = elim (disk path) [
    | writes ↦ ok (insert files path text)
    | refuses ↦ err (unwritable_file path)
    | cuts left ↦ err (cut_file path left)
  ]

  -- The `Run` of graphvizCmd.
  unfoldable pub run_graphviz : String → String → Files → Result (CmdError K.Err) Files
  run_graphviz in_path out_path files = do
    g ← read_graph files in_path
    dot ← map_err no_drawing (service_graph_to_dot_language R g)
    write_file files out_path dot

  -- The `Run` of kubernetesCmd.
  unfoldable pub run_kubernetes :
      (in_path out_path service_selector client_selector : String) (service_image : String)
      (max_idle : ℤ) (client_image : String)
      → Files
      → Result (CmdError K.Err) Files
  run_kubernetes in_path out_path service_selector client_selector service_image max_idle
        client_image files =
      do
        service_node_selector ← extract_node_selector service_selector
        client_node_selector ← extract_node_selector client_selector
        g ← read_graph files in_path
        manifests ← map_err library (
            service_graph_to_kubernetes_manifests K service_node_selector service_image
              (int_text max_idle) client_node_selector client_image g)
        write_file files out_path manifests

  unfoldable pub run : Invocation → Files → Result (CmdError K.Err) Files
  unfolding run_graphviz run_kubernetes
  run (graphviz in_path out_path) files = run_graphviz in_path out_path files
  run (kubernetes in_path out_path s c image max_idle client_image) files =
      run_kubernetes in_path out_path s c image max_idle client_image files

  -- The message of an error, and `exitIfError`: the exit code, what is printed, and the files.
  module _ (T : Texts) (L : LibraryTexts K.Err) where
    unfoldable pub message : CmdError K.Err → String
    message (not_a_node_selector s) = not_a_node_selector_text s
    message (unreadable_file path) = L.unreadable_text path
    message invalid_yaml = L.invalid_yaml_text
    message (invalid_graph e) = L.unmarshal_text (error_text T e)
    message (no_drawing e) = error_text T e
    message (library e) = L.library_text e
    message (unwritable_file path) = L.unwritable_text path
    message (cut_file path left) = L.cut_text path

    unfoldable pub exit_if_error : Files → Result (CmdError K.Err) Files → ℕ × String × Files
    exit_if_error files (ok written) = (0, "", written)
    exit_if_error files (err e) = (1, message e <> "\n", left_by files e)

    unfoldable pub execute : Invocation → Files → ℕ × String × Files
    unfolding exit_if_error
    execute command files = exit_if_error files (run command files)
