-- ===== src/Graphviz.antt =====
-- convert/pkg/graphviz/graphviz.go: the nodes and edges that a service graph is drawn with.
pub mod Edges
pub mod Total
pub mod Dot
use isotope.Base.{ℕ, ◌+◌, String, ◌<>◌, List, [], ◌∷◌, ◌++◌}
use isotope.Base.Result.{Result, ok, err, ◌>>=◌}
use isotope.Runtime.{Runtime}
use isotope.Error.{Error, unexpected_executable}
use isotope.Graph.{ServiceGraph}
use isotope.Graph.Pct
use isotope.Graph.Size
use isotope.Graph.ServiceType
use isotope.Graph.Script.Types.{RequestCommand, Command, Commands}
use isotope.Graph.Script.{sleep_to_string}
use isotope.Graph.Svc.{Service}

pub record Node : Type 0 where
  pub name : String
  pub type : String
  pub error_rate : String
  pub response_size : String
  pub steps : List (List String)

pub record Edge : Type 0 where
  pub from : String
  pub to : String
  pub step_index : ℕ

pub record Graph : Type 0 where
  pub nodes : List Node
  pub edges : List Edge

-- getEdgesFromExe
unfoldable mutual
  pub get_edges_from_exe : Command → ℕ → String → List Edge
  get_edges_from_exe (Command.concurrent cs) idx from_service_name =
      get_edges_from_commands cs idx from_service_name
  get_edges_from_exe (Command.request r) idx from_service_name =
      record { from = from_service_name; to = r.service_name; step_index = idx } ∷ []
  get_edges_from_exe (Command.sleep d) idx from_service_name = []
  get_edges_from_exe (Command.other t) idx from_service_name = []

  pub get_edges_from_commands : Commands → ℕ → String → List Edge
  get_edges_from_commands Commands.nil idx from_service_name = []
  get_edges_from_commands (Commands.cons c cs) idx from_service_name =
      get_edges_from_exe c idx from_service_name ++ get_edges_from_commands cs idx from_service_name

module _ (R : Runtime) where
  -- `%T` of a command, the name of its type
  abbrev type_name : Command → String
  type_name (Command.sleep d) = "script.SleepCommand"
  type_name (Command.request r) = "script.RequestCommand"
  type_name (Command.concurrent cs) = "script.ConcurrentCommand"
  type_name (Command.other t) = t

  -- nonConcurrentCommandToString
  unfoldable pub non_concurrent_command_to_string : Command → Result Error String
  non_concurrent_command_to_string (Command.sleep d) = ok ("SLEEP " <> sleep_to_string R d)
  non_concurrent_command_to_string (Command.request r) =
      ok ("CALL \"" <> r.service_name <> "\" " <> Size.to_string R r.size)
  non_concurrent_command_to_string c = err (unexpected_executable (type_name c))

  -- The loop over a concurrent command in executableToStringSlice.
  unfoldable pub commands_to_strings : Commands → Result Error (List String)
  commands_to_strings Commands.nil = ok []
  commands_to_strings (Commands.cons c cs) = do
    s ← non_concurrent_command_to_string c
    ss ← commands_to_strings cs
    ok (s ∷ ss)

  unfoldable pub executable_to_string_slice : Command → Result Error (List String)
  executable_to_string_slice (Command.concurrent cs) = commands_to_strings cs
  executable_to_string_slice (Command.other t) = err (unexpected_executable t)
  executable_to_string_slice exe = do s ← non_concurrent_command_to_string exe; ok (s ∷ [])

  -- The loop of toGraphvizNode, from step `idx` on.
  unfoldable pub steps_and_edges :
      String → ℕ → Commands → Result Error (List (List String) × List Edge)
  steps_and_edges name idx Commands.nil = ok ([], [])
  steps_and_edges name idx (Commands.cons exe script) = do
    step ← executable_to_string_slice exe
    (steps, edges) ← steps_and_edges name (idx + 1) script
    ok (step ∷ steps, get_edges_from_exe exe idx name ++ edges)

  unfoldable pub to_graphviz_node : Service → Result Error (Node × List Edge)
  to_graphviz_node s = do
    (steps, edges) ← steps_and_edges s.name 0 s.script
    ok (
      record {
        name = s.name;
        type = ServiceType.to_string s.type;
        error_rate = Pct.to_string R s.error_rate;
        response_size = Size.to_string R s.response_size;
        steps = steps;
      },
      edges,
    )

  -- The loop of ServiceGraphToGraph.
  unfoldable pub nodes_and_edges : List Service → Result Error (List Node × List Edge)
  nodes_and_edges [] = ok ([], [])
  nodes_and_edges (s ∷ services) = do
    (node, connections) ← to_graphviz_node s
    (nodes, edges) ← nodes_and_edges services
    ok (node ∷ nodes, connections ++ edges)

  unfoldable pub service_graph_to_graph : ServiceGraph → Result Error Graph
  service_graph_to_graph sg = do
    (nodes, edges) ← nodes_and_edges sg.services
    ok (record { nodes = nodes; edges = edges })
