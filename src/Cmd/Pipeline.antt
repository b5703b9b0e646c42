-- ===== src/Cmd/Pipeline.antt =====
-- The commands from the files that they read to the file that they write.
use mathlib.Core.Path.{subst}
use isotope.Base.{String, ◌<>◌, refl, ◌≡◌, ◌⊎◌, ap, ◌∙◌, inl, inr, arith}
use isotope.Base.Dict.{Dict, insert}
use isotope.Base.Result.{ok, err, >>=-eq-ok, >>=-of-ok, Result-cases}
use isotope.Runtime.{Runtime, IsTyped}
use isotope.Ghodss.{Ghodss}
use isotope.Graph.{ServiceGraph}
use isotope.Graph.Svc.Unmarshal.{initial}
use isotope.Graph.Unmarshal.Accept.{unmarshal_json-IsValid}
use isotope.Graph.Validation.Spec.{IsValid}
use isotope.Graphviz
use isotope.Graphviz.{service_graph_to_graph}
use isotope.Base.Int.{ℤ}
use isotope.Graphviz.Dot.{graph_to_dot_language, service_graph_to_dot_language}
use isotope.Graphviz.Total.{service_graph_to_graph_total}
use isotope.Kubernetes.Types.{Yaml}
use isotope.Kubernetes.{service_graph_to_kubernetes_manifests}
use isotope.Error.Text.{Texts, int_text}
use isotope.Cmd.{
  Disk, writes, cuts, run_graphviz, run_kubernetes, CmdError, Files, Invocation, graphviz,
  kubernetes, out_path_of, map_err, no_drawing, library, message, LibraryTexts,
  extract_node_selector, read_graph, run, execute, exit_if_error,
}
use isotope.Cmd.Frame.{IsFramed, run-IsFramed}
use isotope.Cmd.Steps.{
  Reads, Reads-read_graph, read_graph-Reads, write_file-Writes, write_file-ok, map_err-ok,
}

module _ (R : Runtime) (Y : Ghodss) (K : Yaml) (disk : String → Disk) where
  run-kubernetes :
      (in_path out_path s c image : String) (max_idle : ℤ) (client_image : String) (files : Files)
      {written : Files}
      → run R Y K disk (kubernetes in_path out_path s c image max_idle client_image) files
        ≡ ok written
      → (sg : ServiceGraph) × (ss : Dict String) × (cs : Dict String) × (doc : String) × Reads R Y
          files in_path sg
        × (extract_node_selector {E = K.Err} s ≡ ok ss)
        × (extract_node_selector {E = K.Err} c ≡ ok cs)
        × (service_graph_to_kubernetes_manifests K ss image (int_text max_idle) cs client_image sg
            ≡ ok doc)
        × (written ≡ insert files out_path doc)
  unfolding run run_graphviz run_kubernetes
  run-kubernetes in_path out_path s c image max_idle client_image files h =
      let (ss, e1, h1) = >>=-eq-ok (extract_node_selector s) _ h in
      let (cs, e2, h2) = >>=-eq-ok (extract_node_selector c) _ h1 in
      let (sg, r, h3) = >>=-eq-ok (read_graph R Y K disk files in_path) _ h2 in
      let (doc, m, h4) =
        >>=-eq-ok
          (map_err library (
            service_graph_to_kubernetes_manifests K ss image (int_text max_idle) cs client_image
              sg))
          _ h3 in
      let (w, same) = write_file-Writes R Y K disk files out_path doc h4 in
      (
        sg,
        ss,
        cs,
        doc,
        read_graph-Reads R Y K disk files in_path r,
        e1,
        e2,
        map_err-ok {F = CmdError K.Err} library
            (service_graph_to_kubernetes_manifests K ss image (int_text max_idle) cs client_image
              sg)
            m,
        same,
      )

  -- A command that succeeds has written its file.
  run-Writes :
      (command : Invocation) (files : Files) {written : Files}
      → run R Y K disk command files ≡ ok written
      → (text : String) × (written ≡ insert files (out_path_of command) text)
  unfolding run run_graphviz run_kubernetes
  run-Writes (graphviz in_path out_path) files h =
      let (g, r, h') = >>=-eq-ok (read_graph R Y K disk files in_path) _ h in
      let (dot, d, h'') = >>=-eq-ok (map_err no_drawing (service_graph_to_dot_language R g)) _ h' in
      (dot, (write_file-Writes R Y K disk files out_path dot h'').1)
  run-Writes (kubernetes in_path out_path s c image max_idle client_image) files h =
      let (sg, ss, cs, doc, r, e1, e2, m, same) =
        run-kubernetes in_path out_path s c image max_idle client_image files h in
      (doc, same)

  module _ (M : Texts) (L : LibraryTexts K.Err) where
    -- A command ends with exit code 0, has printed nothing, and has written just its output file, or it
    -- fails, with exit code 1, and has printed the message of its error. The files are then as they were,
    -- unless writing failed with the output file open: it then has what that has left, and no other file
    -- has changed.
    pub execute_frame :
        (command : Invocation) (files : Files)
        → (((execute R Y K disk M L command files).0 ≡ 0)
            × ((execute R Y K disk M L command files).1 ≡ "")
            × ((text : String) × ((execute R Y K disk M L command files).2
                  ≡ insert files (out_path_of command) text)))
          ⊎ ((e : CmdError K.Err) × (run R Y K disk command files ≡ err e)
              × ((execute R Y K disk M L command files).0 ≡ 1)
              × ((execute R Y K disk M L command files).1 ≡ message R Y K disk M L e <> "\n")
              × (((execute R Y K disk M L command files).2 ≡ files)
                  ⊎ ((left : String) × (disk (out_path_of command) ≡ cuts left)
                      × ((execute R Y K disk M L command files).2
                          ≡ insert files (out_path_of command) left))))
    unfolding execute exit_if_error
    execute_frame command files = elim (Result-cases (run R Y K disk command files)) [
      | inl (written, e) ↦
          let (text, same) = run-Writes command files e in
          inl (rw e refl, rw e refl, (text, rw e same))
      | inr (x, e) ↦
          let framed =
            subst (IsFramed disk (out_path_of command) files) e
              (run-IsFramed R Y K disk command files) in
          inr (x, e, rw e refl, rw e refl, rw e framed)
    ]

    -- A file that holds a graph that is accepted is drawn: where the output can be written, the graphviz
    -- command ends with exit code 0 and has written the DOT text of the graph's drawing.
    pub execute_graphviz :
        (in_path out_path : String) (files : Files) (sg : ServiceGraph)
        → IsTyped R
        → Reads R Y files in_path sg
        → disk out_path ≡ writes
        → (d : Graphviz.Graph) × (service_graph_to_graph R sg ≡ ok d)
          × (execute R Y K disk M L (graphviz in_path out_path) files
              ≡ (0, "", insert files out_path (graph_to_dot_language d)))
    unfolding execute exit_if_error run run_graphviz run_kubernetes service_graph_to_dot_language
    execute_graphviz in_path out_path files sg T (text, j, e, f, r) w =
        let (d, drawn, names) = service_graph_to_graph_total R initial j sg T (omega arith) r in
        (
          d,
          drawn,
          ap (exit_if_error R Y K disk M L files) (
              >>=-of-ok _ (Reads-read_graph R Y K disk files in_path sg (text, j, e, f, r))
              ∙ >>=-of-ok _ (ap (map_err no_drawing) (>>=-of-ok _ drawn))
              ∙ write_file-ok R Y K disk files out_path (graph_to_dot_language d) w),
        )

    -- The kubernetes command succeeds only for a valid graph in its file and two node selectors. It has
    -- then written the manifests of that graph, with these selectors.
    pub execute_kubernetes :
        (in_path out_path s c image : String) (max_idle : ℤ) (client_image : String) (files : Files)
        → IsTyped R
        → (execute R Y K disk M L
            (kubernetes in_path out_path s c image max_idle client_image)
            files).0
          ≡ 0
        → (sg : ServiceGraph) × (ss : Dict String) × (cs : Dict String) × (doc : String) × Reads R Y
            files in_path sg
          × IsValid sg
          × (extract_node_selector {E = K.Err} s ≡ ok ss)
          × (extract_node_selector {E = K.Err} c ≡ ok cs)
          × (service_graph_to_kubernetes_manifests K ss image (int_text max_idle) cs client_image sg
              ≡ ok doc)
          × ((execute R Y K disk M L
                (kubernetes in_path out_path s c image max_idle client_image)
                files).2
              ≡ insert files out_path doc)
    unfolding execute exit_if_error
    execute_kubernetes in_path out_path s c image max_idle client_image files T h =
        elim (Result-cases
          (run R Y K disk (kubernetes in_path out_path s c image max_idle client_image) files)) [
            | inr (x, e) ↦ absurd (ground (arith, h, e))
            | inl (written, e) ↦
                let (sg, ss, cs, doc, r, e1, e2, m, same) =
                  run-kubernetes in_path out_path s c image max_idle client_image files e in
                let (text, j, found, yaml, read) = r in
                (
                  sg,
                  ss,
                  cs,
                  doc,
                  r,
                  (unmarshal_json-IsValid R initial j sg T (omega arith) read).0,
                  e1,
                  e2,
                  m,
                  rw e same,
                )
          ]
