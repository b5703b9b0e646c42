-- ===== src/Graphviz/Total.antt =====
-- Drawing the graphs that ServiceGraph.UnmarshalJSON accepts: nodes, and the ends of edges.
use mathlib.Core.Path.{subst, ap₂}
use isotope.Base.{
  sym, ℕ, zero, suc, ◌+◌, String, ◌≡◌, refl, ◌∙◌, ap, inl, inr, List, [], ◌∷◌, map, All, Any,
}
use isotope.Base.Result.{ok, >>=-eq-ok, >>=-of-ok, ok-injective}
use isotope.Runtime.{Runtime, IsTyped}
use isotope.Json.{Json}
use isotope.Graph.{ServiceGraph}
use isotope.Graph.Script.Types.{Command, Commands}
use isotope.Graph.Script.Predicates.{AllCommands, Calls, SomeCalls}
use isotope.Graph.Script.Bounds.{AreBounded, IsBounded, IsBoundedRequest}
use isotope.Graph.Svc.{Service}
use isotope.Graph.Svc.Unmarshal.{Globals}
use isotope.Graph.Validation.Spec.{IsValid, IsScript, IsStep, IsLeaf, Defines}
use isotope.Graph.Unmarshal.{unmarshal_json}
use isotope.Graph.Unmarshal.Accept.{unmarshal_json-IsValid, IsBoundedAndNamed}
use isotope.Graphviz.Edges.{StepCalls, IsCall, edges_iff}
use isotope.Graphviz.{
  Node, Edge, Graph, non_concurrent_command_to_string, commands_to_strings,
  executable_to_string_slice, steps_and_edges, to_graphviz_node, nodes_and_edges,
  service_graph_to_graph,
}

module _ (R : Runtime) (D : String → Type 0) where
  strings_of_leaves :
      (cs : Commands)
      → AllCommands (IsLeaf D) cs
      → AreBounded cs
      → (ss : List String) × (commands_to_strings R cs ≡ ok ss)
  unfolding commands_to_strings non_concurrent_command_to_string
  strings_of_leaves Commands.nil h b = ([], refl)
  strings_of_leaves (Commands.cons (Command.sleep d) cs) h b =
      let (ss, e) = strings_of_leaves cs h.1 b.1 in (_ ∷ ss, >>=-of-ok _ e)
  strings_of_leaves (Commands.cons (Command.request r) cs) h b =
      let (ss, e) = strings_of_leaves cs h.1 b.1 in (_ ∷ ss, >>=-of-ok _ e)
  strings_of_leaves (Commands.cons (Command.concurrent x) cs) h b = absurd h.0
  strings_of_leaves (Commands.cons (Command.other t) cs) h b = absurd b.0

  strings_of_step :
      (c : Command)
      → IsStep D c
      → IsBounded c
      → (ss : List String) × (executable_to_string_slice R c ≡ ok ss)
  unfolding executable_to_string_slice non_concurrent_command_to_string
  strings_of_step (Command.sleep d) h b = (_, refl)
  strings_of_step (Command.request r) h b = (_, refl)
  strings_of_step (Command.concurrent cs) h b = strings_of_leaves cs h b
  strings_of_step (Command.other t) h b = absurd b

  steps_of_script :
      (name : String) (idx : ℕ) (cs : Commands)
      → IsScript D cs
      → AreBounded cs
      → (out : List (List String) × List Edge) × (steps_and_edges R name idx cs ≡ ok out)
  unfolding steps_and_edges
  steps_of_script name idx Commands.nil h b = (_, refl)
  steps_of_script name idx (Commands.cons c cs) h b =
      let (ss, e) = strings_of_step c h.0 b.0 in
      let (out, e') = steps_of_script name (idx + 1) cs h.1 b.1 in
      (_, >>=-of-ok _ e ∙ >>=-of-ok _ e')

  node_of_service :
      (s : Service)
      → IsScript D s.script
      → AreBounded s.script
      → (out : Node × List Edge) × (to_graphviz_node R s ≡ ok out)
  unfolding to_graphviz_node
  node_of_service s h b = let (out, e) = steps_of_script s.name 0 s.script h b in (_, >>=-of-ok _ e)

  nodes_of_services :
      (services : List Service)
      → All (λ s. IsScript D s.script) services
      → All IsBoundedAndNamed services
      → (out : List Node × List Edge) × (nodes_and_edges R services ≡ ok out)
  unfolding nodes_and_edges
  nodes_of_services [] h b = (_, refl)
  nodes_of_services (s ∷ services) h b =
      let (out, e) = node_of_service s h.0 b.0.1.4 in
      let (out', e') = nodes_of_services services h.1 b.1 in (_, >>=-of-ok _ e ∙ >>=-of-ok _ e')

  -- A valid script calls only what is defined.
  step_calls_defined : (c : Command) (to : String) → IsStep D c → Calls to c → D to
  step_calls_defined (Command.request r) to h k = subst D k h
  step_calls_defined (Command.concurrent cs) to h k = leaf_calls cs h k
    where
      leaf_calls : (cs : Commands) → AllCommands (IsLeaf D) cs → SomeCalls to cs → D to
      leaf_calls Commands.nil h k = absurd k
      leaf_calls (Commands.cons (Command.request r) cs) h (inl k) = subst D k h.0
      leaf_calls (Commands.cons (Command.concurrent x) cs) h (inl k) = absurd h.0
      leaf_calls (Commands.cons (Command.sleep d) cs) h (inl k) = absurd k
      leaf_calls (Commands.cons (Command.other t) cs) h (inl k) = absurd k
      leaf_calls (Commands.cons c cs) h (inr k) = leaf_calls cs h.1 k
  step_calls_defined (Command.sleep d) to h k = absurd k
  step_calls_defined (Command.other t) to h k = absurd k

  pub script_calls_defined :
      (cs : Commands) (i : ℕ) (to : String) → IsScript D cs → StepCalls cs i to → D to
  script_calls_defined Commands.nil i to h k = absurd k
  script_calls_defined (Commands.cons c cs) zero to h k = step_calls_defined c to h.0 k
  script_calls_defined (Commands.cons c cs) (suc i) to h k = script_calls_defined cs i to h.1 k

  call_ends :
      (services : List Service) (e : Edge)
      → All (λ s. IsScript D s.script) services
      → IsCall services e
      → Defines services e.from × D e.to
  call_ends [] e h k = absurd k
  call_ends (s ∷ services) e h (inl k) =
      (inl k.0, script_calls_defined s.script e.step_index e.to h.0 k.1)
  call_ends (s ∷ services) e h (inr k) = let (a, b) = call_ends services e h.1 k in (inr a, b)

node-name :
    (R : Runtime) (s : Service) {out : Node × List Edge}
    → to_graphviz_node R s ≡ ok out
    → out.0.name ≡ s.name
unfolding to_graphviz_node
node-name R s h =
    let (out', u, h') = >>=-eq-ok (steps_and_edges R s.name 0 s.script) _ h in
    ap (λ o. o.0.name) (sym (ok-injective h'))

abbrev pub names_of_nodes : List Node → List String
names_of_nodes = map (λ n. n.name)

abbrev pub names_of_services : List Service → List String
names_of_services = map (λ s. s.name)

names-nodes :
    (R : Runtime) (services : List Service) {out : List Node × List Edge}
    → nodes_and_edges R services ≡ ok out
    → names_of_nodes out.0 ≡ names_of_services services
unfolding nodes_and_edges
names-nodes R [] h = rw (← ok-injective h) refl
names-nodes R (s ∷ services) h =
    let (first, u, h') = >>=-eq-ok (to_graphviz_node R s) _ h in
    let (rest, u', h'') = >>=-eq-ok (nodes_and_edges R services) _ h' in
    rw (← ok-injective h'') (ap₂ (λ n ns. n ∷ ns) (node-name R s u) (names-nodes R services u'))

-- A graph that UnmarshalJSON accepts is drawn without error, with a node for each service, in order.
-- It is assumed that the library functions return float64 and int64 values, and that the default
-- request at the time of the call has a size below 2 ^ 63.
pub service_graph_to_graph_total :
    (R : Runtime) (g : Globals) (j : Json) (sg : ServiceGraph)
    → IsTyped R
    → IsBoundedRequest g.default_request_command
    → (unmarshal_json R j g).0 ≡ ok sg
    → (d : Graph) × (service_graph_to_graph R sg ≡ ok d)
      × (names_of_nodes d.nodes ≡ names_of_services sg.services)
unfolding service_graph_to_graph
service_graph_to_graph_total R g j sg T b e =
    let (v, w) = unmarshal_json-IsValid R g j sg T b e in
    let (out, u) = nodes_of_services R (Defines sg.services) sg.services v w in
    (record { nodes = out.0; edges = out.1 }, >>=-of-ok _ u, names-nodes R sg.services u)

-- In the drawing of a valid graph each edge runs from a service of the graph to one of the graph.
edges_closed :
    (R : Runtime) (sg : ServiceGraph) (d : Graph) (e : Edge)
    → IsValid sg
    → service_graph_to_graph R sg ≡ ok d
    → Any (λ x. x ≡ e) d.edges
    → Defines sg.services e.from × Defines sg.services e.to
edges_closed R sg d e v h k =
    call_ends R (Defines sg.services) sg.services e v ((edges_iff R sg d e h).0 k)
