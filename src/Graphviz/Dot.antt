-- ===== src/Graphviz/Dot.antt =====
-- convert/pkg/graphviz/graphviz.go: the DOT text of a drawing, as text/template executes
-- `graphvizTemplate`. A dash at an action takes the space off that side of it.
use isotope.Base.{ℕ, zero, suc, String, ◌<>◌, List, [], ◌∷◌}
use isotope.Base.Text.{decimal}
use isotope.Base.Result.{Result, ok, ◌>>=◌}
use isotope.Runtime.{Runtime}
use isotope.Error.{Error}
use isotope.Graph.{ServiceGraph}
use isotope.Graphviz.{Node, Edge, Graph, service_graph_to_graph}

-- `{{ range $j, $cmd := $cmds }}`
commands_text : ℕ → List String → String
commands_text j [] = ""
commands_text zero (cmd ∷ cmds) = cmd <> commands_text 1 cmds
commands_text (suc j) (cmd ∷ cmds) = "<BR />" <> (cmd <> commands_text (suc (suc j)) cmds)

-- `{{ range $i, $cmds := .Steps }}`
steps_text : ℕ → List (List String) → String
unfolding commands_text
steps_text i [] = ""
steps_text i (cmds ∷ steps) =
    "\n  <TR><TD PORT=\""
    <> (decimal i
        <> ("\">" <> (commands_text 0 cmds <> ("</TD></TR>" <> steps_text (suc i) steps))))

node_text : Node → String
unfolding steps_text
node_text n =
    n.name
    <> (" [label=<\n<TABLE BORDER=\"0\" CELLBORDER=\"1\" CELLSPACING=\"0\">\n  <TR><TD><B>"
        <> (n.name
            <> ("</B><BR />Type: "
                <> (n.type
                    <> ("<BR />Err: "
                        <> (n.error_rate
                            <> ("</TD></TR>"
                                <> (steps_text 0 n.steps <> "\n</TABLE>>];\n\n  "))))))))

-- `{{ range .Nodes }}`
nodes_text : List Node → String
unfolding node_text
nodes_text [] = ""
nodes_text (n ∷ nodes) = node_text n <> nodes_text nodes

edge_text : Edge → String
edge_text e = "\n  " <> (e.from <> (":" <> (decimal e.step_index <> (" -> " <> e.to))))

-- `{{ range .Edges }}`
edges_text : List Edge → String
unfolding edge_text
edges_text [] = ""
edges_text (e ∷ edges) = edge_text e <> edges_text edges

-- `graphvizTemplate`, as a function of the graph that it is executed on.
unfoldable pub graphviz_template : Graph → String
unfolding nodes_text edges_text
graphviz_template g =
    "digraph {\n  node [\n    fontsize = \"16\"\n    fontname = \"courier\"\n    shape = plaintext\n  ];\n\n  "
    <> (nodes_text g.nodes <> (edges_text g.edges <> "\n}\n"))

-- GraphToDotLanguage. The template is a constant that text/template parses, and that has no field but
-- those of the graph, so there is no error.
unfoldable pub graph_to_dot_language : Graph → String
unfolding graphviz_template
graph_to_dot_language g = graphviz_template g

-- ServiceGraphToDotLanguage
unfoldable pub service_graph_to_dot_language : Runtime → ServiceGraph → Result Error String
service_graph_to_dot_language R sg = do
  g ← service_graph_to_graph R sg
  ok (graph_to_dot_language g)
