-- ===== src/Tests/Graphviz.antt =====
-- graphviz_test.go, in small, and the theorems about drawings at its data.
use isotope.Base.{◌<>◌, ◌≡◌, ◌↔◌, refl, [], ◌∷◌, Any, arith}
use isotope.Base.Result.{Result, ok}
use isotope.Error.{Error}
use isotope.Graph.Pct
use isotope.Graph.Size
use isotope.Graph.ServiceType
use isotope.Graph.{ServiceGraph}
use isotope.Graph.Svc.Unmarshal.{initial}
use isotope.Graphviz
use isotope.Graphviz.{Graph, Node, Edge, service_graph_to_graph}
use isotope.Base.Text.{decimal}
use isotope.Graphviz.Dot.{graphviz_template, graph_to_dot_language}
use isotope.Graphviz.Edges.{IsCall, edges_iff}
use isotope.Graphviz.Total.{service_graph_to_graph_total, names_of_nodes, names_of_services}
use isotope.Tests.Sample.{sample, sample-IsTyped}
use isotope.Tests.Graph.{
  run, unmarshal_many, json_with_defaults_and_many_services, graph_with_defaults_and_many_services,
}
use isotope.Tests.GraphTheorems.{three_services}

draw : ServiceGraph → Result Error Graph
unfolding service_graph_to_graph Graphviz.nodes_and_edges Graphviz.to_graphviz_node
    Graphviz.steps_and_edges Graphviz.executable_to_string_slice Graphviz.commands_to_strings
    Graphviz.non_concurrent_command_to_string Graphviz.get_edges_from_exe Pct.to_string
    Size.to_string ServiceType.to_string
draw = service_graph_to_graph sample

abbrev drawing : Graph
drawing = record {
  nodes =
      record {
        name = "a";
        type = "HTTP";
        error_rate = "0.00%";
        response_size = "128B";
        steps = ("SLEEP 100ms" ∷ []) ∷ [];
      }
      ∷ record { name = "b"; type = "HTTP"; error_rate = "0.00%"; response_size = "0B"; steps = [] }
      ∷ record {
        name = "c";
        type = "gRPC";
        error_rate = "0.00%";
        response_size = "1KiB";
        steps = ("CALL \"a\" 516B" ∷ "CALL \"b\" 516B" ∷ []) ∷ ("SLEEP 10ms" ∷ []) ∷ [];
      }
      ∷ [];
  edges =
      record { from = "c"; to = "a"; step_index = 0 }
      ∷ record { from = "c"; to = "b"; step_index = 0 }
      ∷ [];
}

draw_three : draw three_services ≡ ok drawing
unfolding draw
draw_three = refl

dot_of_drawing : graph_to_dot_language drawing ≡ (
    "digraph {\n"
    <> ("  node [\n"
        <> ("    fontsize = \"16\"\n"
            <> ("    fontname = \"courier\"\n"
                <> ("    shape = plaintext\n"
                    <> ("  ];\n"
                        <> ("\n"
                            <> ("  a [label=<\n"
                                <> ("<TABLE BORDER=\"0\" CELLBORDER=\"1\" CELLSPACING=\"0\">\n"
                                    <> ("  <TR><TD><B>a</B><BR />Type: HTTP<BR />Err: 0.00%</TD></TR>\n"
                                        <> ("  <TR><TD PORT=\"0\">SLEEP 100ms</TD></TR>\n"
                                            <> ("</TABLE>>];\n"
                                                <> ("\n"
                                                    <> ("  b [label=<\n"
                                                        <> ("<TABLE BORDER=\"0\" CELLBORDER=\"1\" CELLSPACING=\"0\">\n"
                                                            <> ("  <TR><TD><B>b</B><BR />Type: HTTP<BR />Err: 0.00%</TD></TR>\n"
                                                            <> ("</TABLE>>];\n"
                                                            <> ("\n"
                                                            <> ("  c [label=<\n"
                                                            <> ("<TABLE BORDER=\"0\" CELLBORDER=\"1\" CELLSPACING=\"0\">\n"
                                                            <> ("  <TR><TD><B>c</B><BR />Type: gRPC<BR />Err: 0.00%</TD></TR>\n"
                                                            <> ("  <TR><TD PORT=\"0\">CALL \"a\" 516B<BR />CALL \"b\" 516B</TD></TR>\n"
                                                            <> ("  <TR><TD PORT=\"1\">SLEEP 10ms</TD></TR>\n"
                                                            <> ("</TABLE>>];\n"
                                                            <> ("\n"
                                                            <> ("  \n"
                                                            <> ("  c:0 -> a\n"
                                                            <> ("  c:0 -> b\n"
                                                            <> ("}\n")))))))))))))))))))))))))))))
unfolding graph_to_dot_language graphviz_template decimal
dot_of_drawing = refl

abbrev edge_cb : Edge
edge_cb = record { from = "c"; to = "b"; step_index = 0 }

edges_iff_example : Any (λ x. x ≡ edge_cb) drawing.edges ↔ IsCall three_services.services edge_cb
unfolding draw
edges_iff_example = edges_iff sample three_services drawing edge_cb draw_three

service_graph_to_graph_total_example :
    (d : Graph) × (service_graph_to_graph sample graph_with_defaults_and_many_services ≡ ok d)
    × (names_of_nodes d.nodes ≡ names_of_services graph_with_defaults_and_many_services.services)
unfolding run
service_graph_to_graph_total_example =
    service_graph_to_graph_total sample initial json_with_defaults_and_many_services
      graph_with_defaults_and_many_services sample-IsTyped (omega arith) unmarshal_many
