-- ===== src/Cmd/Frame.antt =====
-- The files after a command that fails.
use isotope.Base.{String, ◌≡◌, ◌⊎◌, refl, inl, inr, Option-cases}
use isotope.Base.Dict.{lookup, insert}
use isotope.Base.Result.{Result, ok, err, ◌>>=◌}
use isotope.Runtime.{Runtime}
use isotope.Ghodss.{Ghodss}
use isotope.Graph.Svc.Unmarshal.{initial}
use isotope.Graph.Unmarshal.{unmarshal_json}
use isotope.Graphviz.Dot.{service_graph_to_dot_language}
use isotope.Error.Text.{int_text}
use isotope.Kubernetes.Types.{Yaml}
use isotope.Kubernetes.{service_graph_to_kubernetes_manifests}
use isotope.Cmd.{
  Disk, cuts, CmdError, Files, Invocation, graphviz, kubernetes, out_path_of, map_err,
  invalid_graph, no_drawing, library, left_by, split_by_equals, extract_node_selector,
  unmarshal_yaml, read_graph, write_file, run, run_graphviz, run_kubernetes,
}
use isotope.Cmd.Steps.{Disk-cases}

module _ {E : Type 0} (disk : String → Disk) (out_path : String) (files : Files) where
  -- The files are as they were, but for what a write that broke off has left of the output file.
  abbrev pub Leaves : CmdError E → Type 0
  Leaves e =
      (left_by files e ≡ files)
      ⊎ ((left : String) × (disk out_path ≡ cuts left)
          × (left_by files e ≡ insert files out_path left))

  abbrev pub IsFramed : {A : Type 0} → Result (CmdError E) A → Type 0
  IsFramed (ok a) = Unit
  IsFramed (err e) = Leaves e

  >>=-IsFramed :
      {A B : Type 0} (first : Result (CmdError E) A) (next : A → Result (CmdError E) B)
      → IsFramed first
      → ((a : A) → IsFramed (next a))
      → IsFramed (first >>= next)
  >>=-IsFramed (ok a) next h k = k a
  >>=-IsFramed (err e) next h k = h

  map_err-IsFramed :
      {F A : Type 0} (f : F → CmdError E)
      → ((e : F) → Leaves (f e))
      → (r : Result F A) → IsFramed (map_err f r)
  map_err-IsFramed f h (ok a) = tt
  map_err-IsFramed f h (err e) = h e

module _ (R : Runtime) (Y : Ghodss) (K : Yaml) (disk : String → Disk) (out_path : String)
    (files : Files) where
  selector-IsFramed :
      (s : String) → IsFramed disk out_path files (extract_node_selector {E = K.Err} s)
  unfolding extract_node_selector
  selector-IsFramed s = elim (Option-cases (split_by_equals s)) [
    | inl bad ↦ rw (bad, extract_node_selector) (inl refl)
    | inr (parts, good) ↦ rw (good, extract_node_selector) tt
  ]

  read_graph-IsFramed :
      (path : String) → IsFramed disk out_path files (read_graph R Y K disk files path)
  unfolding read_graph unmarshal_yaml
  read_graph-IsFramed path = elim (Option-cases (lookup files path)) [
    | inl missing ↦ rw (missing, read_graph) (inl refl)
    | inr (text, found) ↦ rw (found, read_graph) (of_text text)
  ]
    where
      of_text : (text : String) → IsFramed disk out_path files (unmarshal_yaml R Y K disk text)
      of_text text = elim (Option-cases (Y.to_json text)) [
        | inl bad ↦ rw (bad, unmarshal_yaml) (inl refl)
        | inr (j, read) ↦
            rw (read, unmarshal_yaml)
              (map_err-IsFramed disk out_path files invalid_graph (λ e. inl refl)
                (unmarshal_json R j initial).0)
      ]

  write_file-IsFramed :
      (text : String) → IsFramed disk out_path files (write_file R Y K disk files out_path text)
  unfolding write_file
  write_file-IsFramed text = elim (Disk-cases (disk out_path)) [
    | inl whole ↦ rw (whole, write_file) tt
    | inr (inl refused) ↦ rw (refused, write_file) (inl refl)
    | inr (inr (left, cut)) ↦ rw (cut, write_file) (inr (left, cut, refl))
  ]

pub run-IsFramed :
    (R : Runtime) (Y : Ghodss) (K : Yaml) (disk : String → Disk) (command : Invocation)
    (files : Files)
    → IsFramed disk (out_path_of command) files (run R Y K disk command files)
unfolding run run_graphviz run_kubernetes
run-IsFramed R Y K disk (graphviz in_path out_path) files =
    >>=-IsFramed disk out_path files _ _ (read_graph-IsFramed R Y K disk out_path files in_path)
      (λ g.
        >>=-IsFramed disk out_path files _ _
          (map_err-IsFramed disk out_path files no_drawing (λ e. inl refl)
            (service_graph_to_dot_language R g))
          (λ dot. write_file-IsFramed R Y K disk out_path files dot))
run-IsFramed R Y K disk (kubernetes in_path out_path s c image max_idle client) files =
    >>=-IsFramed disk out_path files _ _ (selector-IsFramed R Y K disk out_path files s) (λ ss.
      >>=-IsFramed disk out_path files _ _ (selector-IsFramed R Y K disk out_path files c) (λ cs.
        >>=-IsFramed disk out_path files _ _ (read_graph-IsFramed R Y K disk out_path files in_path)
          (λ g.
            >>=-IsFramed disk out_path files _ _
              (map_err-IsFramed disk out_path files library (λ e. inl refl)
                (service_graph_to_kubernetes_manifests K ss image (int_text max_idle) cs client g))
              (λ doc. write_file-IsFramed R Y K disk out_path files doc))))
