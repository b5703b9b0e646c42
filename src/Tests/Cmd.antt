-- ===== src/Tests/Cmd.antt =====
-- The commands at the graph of three services, in the file "graph.yaml".
use isotope.Base.{ℕ, String, ◌<>◌, ◌≡◌, ◌↔◌, ◌⊎◌, refl, ap, [], ◌∷◌}
use isotope.Base.Int.{pos}
use isotope.Base.Text.Split.{split, Lacks}
use isotope.Base.Dict.{Dict, lookup, insert}
use isotope.Base.Result.{Result, ok, err, >>=-of-ok}
use isotope.Graph.{ServiceGraph}
use isotope.Graph.Validation.Spec.{IsValid}
use isotope.Graphviz
use isotope.Graphviz.{service_graph_to_graph}
use isotope.Graphviz.Dot.{graph_to_dot_language}
use isotope.Kubernetes.{
  append_manifest, make_config_map, append_services, service_graph_to_kubernetes_manifests,
}
use isotope.Error.{invalid_percentage_string}
use isotope.Error.Text.{Texts, int_text, error_text}
use isotope.Cmd.{
  Disk, writes, cuts, run_graphviz, run_kubernetes, CmdError, Files, Invocation, graphviz,
  kubernetes, equals, LibraryTexts, message, not_a_node_selector_text, extract_node_selector,
  split_by_equals, not_a_node_selector, execute, run, exit_if_error, write_file, read_graph,
}
use isotope.Cmd.Selector.{extract_node_selector_iff}
use isotope.Cmd.Steps.{Reads, Reads-read_graph}
use isotope.Cmd.Pipeline.{execute_frame, execute_graphviz, execute_kubernetes}
use isotope.Tests.Main.{three_json-read, three_json, one_file, one_graph}
use isotope.Tests.Sample.{sample, sample-IsTyped}
use isotope.Tests.GraphTheorems.{three_services}

abbrev pub files : Files
files = ("graph.yaml", "graph") ∷ []

abbrev pub anywhere : String → Disk
anywhere path = writes

three_services-Reads : Reads sample one_file files "graph.yaml" three_services
unfolding lookup
three_services-Reads = ("graph", three_json, refl, refl, three_json-read)

abbrev pool_a : Dict String
pool_a = ("pool", "a") ∷ []

selector_made : extract_node_selector {E = String} "pool=a" ≡ ok pool_a
unfolding extract_node_selector split_by_equals insert split
selector_made = refl

two_signs : extract_node_selector {E = String} "pool=a=b" ≡ err (not_a_node_selector "pool=a=b")
unfolding extract_node_selector split_by_equals split
two_signs = refl

extract_node_selector_iff_example :
    (◌≡◌ {A = Result (CmdError String) (Dict String)} (extract_node_selector "pool=a") (ok pool_a))
    ↔ ((k : String) × (v : String) × ("pool=a" ≡ k <> String.◌∷◌ equals v)
        × Lacks equals k
        × Lacks equals v
        × (pool_a ≡ (k, v) ∷ []))
extract_node_selector_iff_example = extract_node_selector_iff {E = String} "pool=a" pool_a

abbrev make_dot : Invocation
make_dot = graphviz "graph.yaml" "graph.dot"

abbrev make_manifests : Invocation
make_manifests = kubernetes "graph.yaml" "out.yaml" "pool=a" "pool=b" "image" (pos 64) "client"

abbrev pub texts : Texts
texts = record {
  float_text = λ f. "1.2";
  map_text = λ fs. "map[]";
  unmarshal_type_text = λ found wanted. "json: cannot unmarshal";
  unsupported_value_text = λ f. "json: unsupported value";
  invalid_size_text = λ s. "invalid size";
  invalid_duration_text = λ s. "invalid duration";
}

abbrev pub library_texts : LibraryTexts String
library_texts = record {
  unreadable_text = λ path. "open " <> (path <> ": no such file or directory");
  invalid_yaml_text = "error converting YAML to JSON";
  unmarshal_text = λ text. "error unmarshaling JSON: " <> text;
  library_text = λ e. e;
  unwritable_text = λ path. "open " <> (path <> ": permission denied");
  cut_text = λ path. "write " <> (path <> ": no space left on device");
}

abbrev execute_here : Invocation → Files → ℕ × String × Files
execute_here = execute sample one_file one_graph anywhere texts library_texts

missing_file : execute_here make_dot [] ≡ (1, "open graph.yaml: no such file or directory\n", [])
unfolding execute exit_if_error run run_graphviz run_kubernetes read_graph lookup message
missing_file = refl

no_selector :
    execute_here
      (kubernetes "graph.yaml" "out.yaml" "pool" "pool=b" "image" (pos 64) "client")
      files
    ≡ (1, "pool is not a valid node selector\n", files)
unfolding execute exit_if_error run run_graphviz run_kubernetes extract_node_selector
    split_by_equals split message not_a_node_selector_text
no_selector = refl

of_range :
    error_text texts (invalid_percentage_string "120%")
    ≡ "invalid percentage as string: 120% (must be between \"0%\" and \"100%\")"
unfolding error_text
of_range = refl

execute_frame_example :
    (((execute_here make_dot files).0 ≡ 0)
      × ((execute_here make_dot files).1 ≡ "")
      × ((text : String) × ((execute_here make_dot files).2 ≡ insert files "graph.dot" text)))
    ⊎ ((e : CmdError String) × (run sample one_file one_graph anywhere make_dot files ≡ err e)
        × ((execute_here make_dot files).0 ≡ 1)
        × ((execute_here make_dot files).1
            ≡ message sample one_file one_graph anywhere texts library_texts e <> "\n")
        × (((execute_here make_dot files).2 ≡ files)
            ⊎ ((left : String) × (anywhere "graph.dot" ≡ cuts left)
                × ((execute_here make_dot files).2 ≡ insert files "graph.dot" left))))
execute_frame_example =
    execute_frame sample one_file one_graph anywhere texts library_texts make_dot files

execute_graphviz_example :
    (d : Graphviz.Graph) × (service_graph_to_graph sample three_services ≡ ok d)
    × (execute_here make_dot files ≡ (0, "", insert files "graph.dot" (graph_to_dot_language d)))
execute_graphviz_example =
    execute_graphviz sample one_file one_graph anywhere texts library_texts "graph.yaml" "graph.dot"
      files three_services sample-IsTyped three_services-Reads refl

manifests_made : (execute_here make_manifests files).0 ≡ 0
unfolding execute exit_if_error run run_graphviz run_kubernetes extract_node_selector
    split_by_equals insert write_file service_graph_to_kubernetes_manifests split append_manifest
    make_config_map append_services
manifests_made =
    ap (λ r. (exit_if_error sample one_file one_graph anywhere texts library_texts files r).0)
      (>>=-of-ok _ (
        Reads-read_graph sample one_file one_graph anywhere files "graph.yaml" three_services
          three_services-Reads))

execute_kubernetes_example :
    (sg : ServiceGraph) × (ss : Dict String) × (cs : Dict String) × (doc : String) × Reads sample
      one_file files "graph.yaml" sg
    × IsValid sg
    × (extract_node_selector {E = String} "pool=a" ≡ ok ss)
    × (extract_node_selector {E = String} "pool=b" ≡ ok cs)
    × (service_graph_to_kubernetes_manifests one_graph ss "image" (int_text (pos 64)) cs "client" sg
        ≡ ok doc)
    × ((execute_here make_manifests files).2 ≡ insert files "out.yaml" doc)
execute_kubernetes_example =
    execute_kubernetes sample one_file one_graph anywhere texts library_texts "graph.yaml"
      "out.yaml" "pool=a" "pool=b" "image" (pos 64) "client" files sample-IsTyped manifests_made
