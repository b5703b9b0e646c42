-- ===== src/Graphviz/Edges.antt =====
-- The edges of a drawing and the calls of the graph.
use isotope.Base.{ℕ, zero, suc, ◌+◌, String, ◌≡◌, ap, ◌↔◌, inl, inr, List, [], ◌∷◌, Any, arith}
use isotope.Base.{Any-append_left, Any-append_right, Any-append_cases}
use isotope.Base.Result.{ok, >>=-eq-ok, ok-injective}
use isotope.Runtime.{Runtime}
use isotope.Graph.{ServiceGraph}
use isotope.Graph.Script.Types.{Command, Commands}
use isotope.Graph.Script.Predicates.{Calls, SomeCalls}
use isotope.Graph.Svc.{Service}
use isotope.Graphviz.{
  Node, Edge, Graph, get_edges_from_exe, get_edges_from_commands, executable_to_string_slice,
  steps_and_edges, to_graphviz_node, nodes_and_edges, service_graph_to_graph,
}

-- The step of an index calls a service, itself or in a concurrent command.
abbrev pub StepCalls : Commands → ℕ → String → Type 0
StepCalls Commands.nil i to = ⊥
StepCalls (Commands.cons c cs) zero to = Calls to c
StepCalls (Commands.cons c cs) (suc i) to = StepCalls cs i to

-- A service has the edge's source for its name, and calls the edge's target at the edge's step.
abbrev pub IsCall : List Service → Edge → Type 0
IsCall services e = Any (λ s. (s.name ≡ e.from) × StepCalls s.script e.step_index e.to) services

module _ (e : Edge) where
  abbrev pub Has : List Edge → Type 0
  Has = Any (λ x. x ≡ e)

  mutual
    unfolding get_edges_from_exe

    exe-Calls :
        (c : Command) (idx : ℕ) (name : String)
        → Has (get_edges_from_exe c idx name)
        → (name ≡ e.from) × (idx ≡ e.step_index) × Calls e.to c
    exe-Calls (Command.concurrent cs) idx name h = commands-SomeCalls cs idx name h
    exe-Calls (Command.request r) idx name (inl h) =
        (ap (λ x. x.from) h, ap (λ x. x.step_index) h, ap (λ x. x.to) h)
    exe-Calls (Command.request r) idx name (inr h) = absurd h
    exe-Calls (Command.sleep d) idx name h = absurd h
    exe-Calls (Command.other t) idx name h = absurd h

    commands-SomeCalls :
        (cs : Commands) (idx : ℕ) (name : String)
        → Has (get_edges_from_commands cs idx name)
        → (name ≡ e.from) × (idx ≡ e.step_index) × SomeCalls e.to cs
    commands-SomeCalls Commands.nil idx name h = absurd h
    commands-SomeCalls (Commands.cons c cs) idx name h =
        elim (Any-append_cases (λ x. x ≡ e) (get_edges_from_exe c idx name) _ h) [
          | inl a ↦ let (f, i, k) = exe-Calls c idx name a in (f, i, inl k)
          | inr b ↦ let (f, i, k) = commands-SomeCalls cs idx name b in (f, i, inr k)
        ]

  mutual
    unfolding get_edges_from_exe

    Calls-exe :
        (c : Command) (idx : ℕ) (name : String)
        → name ≡ e.from
        → idx ≡ e.step_index
        → Calls e.to c
        → Has (get_edges_from_exe c idx name)
    Calls-exe (Command.concurrent cs) idx name f i k = SomeCalls-commands cs idx name f i k
    Calls-exe (Command.request r) idx name f i k = inl (ground arith)
    Calls-exe (Command.sleep d) idx name f i k = k
    Calls-exe (Command.other t) idx name f i k = k

    SomeCalls-commands :
        (cs : Commands) (idx : ℕ) (name : String)
        → name ≡ e.from
        → idx ≡ e.step_index
        → SomeCalls e.to cs
        → Has (get_edges_from_commands cs idx name)
    SomeCalls-commands Commands.nil idx name f i k = k
    SomeCalls-commands (Commands.cons c cs) idx name f i (inl k) =
        Any-append_left (λ x. x ≡ e) _ _ (Calls-exe c idx name f i k)
    SomeCalls-commands (Commands.cons c cs) idx name f i (inr k) =
        Any-append_right (λ x. x ≡ e) (get_edges_from_exe c idx name) _
          (SomeCalls-commands cs idx name f i k)

  module _ (R : Runtime) where
    steps_edges :
        (name : String) (idx : ℕ) (cs : Commands) {out : List (List String) × List Edge}
        → steps_and_edges R name idx cs ≡ ok out
        → (Has out.1 → (i : ℕ) × (name ≡ e.from) × (idx + i ≡ e.step_index) × StepCalls cs i e.to)
          × ((i : ℕ) → name ≡ e.from → idx + i ≡ e.step_index → StepCalls cs i e.to → Has out.1)
    unfolding steps_and_edges
    steps_edges name idx Commands.nil h = rw (← ok-injective h) (λ a. absurd a, λ i f s k. k)
    steps_edges name idx (Commands.cons c cs) h =
        let (step, u, h') = >>=-eq-ok (executable_to_string_slice R c) _ h in
        let (rest, u', h'') = >>=-eq-ok (steps_and_edges R name (idx + 1) cs) _ h' in
        let ih = steps_edges name (idx + 1) cs u' in
        rw (← ok-injective h'') (
          λ a. elim (Any-append_cases (λ x. x ≡ e) (get_edges_from_exe c idx name) _ a) [
            | inl b ↦ let (f, i, k) = exe-Calls c idx name b in (0, f, omega arith, k)
            | inr b ↦ let (i, f, s, k) = ih.0 b in (suc i, f, omega arith, k)
          ],
          elim [
            | zero ↦
                λ f s k. Any-append_left (λ x. x ≡ e) _ _ (Calls-exe c idx name f (omega arith) k)
            | suc i ↦ λ f s k.
                Any-append_right (λ x. x ≡ e) (get_edges_from_exe c idx name) _
                  (ih.1 i f (omega arith) k)
          ],
        )

    node_edges :
        (s : Service) {out : Node × List Edge}
        → to_graphviz_node R s ≡ ok out
        → Has out.1 ↔ ((s.name ≡ e.from) × StepCalls s.script e.step_index e.to)
    unfolding to_graphviz_node
    node_edges s h =
        let (out', u, h') = >>=-eq-ok (steps_and_edges R s.name 0 s.script) _ h in
        let both = steps_edges s.name 0 s.script u in
        rw (← ok-injective h') (
          λ a.
              let (i, f, n, k) = both.0 a in
              let n' : i ≡ e.step_index = omega arith in (f, rw (← n') k),
          λ (f, k). both.1 e.step_index f (omega arith) k,
        )

    services_edges :
        (services : List Service) {out : List Node × List Edge}
        → nodes_and_edges R services ≡ ok out
        → Has out.1 ↔ IsCall services e
    unfolding nodes_and_edges
    services_edges [] h = rw (← ok-injective h) (λ a. a, λ a. a)
    services_edges (s ∷ services) h =
        let (first, u, h') = >>=-eq-ok (to_graphviz_node R s) _ h in
        let (rest, u', h'') = >>=-eq-ok (nodes_and_edges R services) _ h' in
        let node = node_edges s u in
        let ih = services_edges services u' in
        rw (← ok-injective h'') (
          λ a. elim (Any-append_cases (λ x. x ≡ e) first.1 rest.1 a) [
            | inl b ↦ inl (node.0 b)
            | inr b ↦ inr (ih.0 b)
          ],
          elim [
            | inl k ↦ Any-append_left (λ x. x ≡ e) first.1 rest.1 (node.1 k)
            | inr k ↦ Any-append_right (λ x. x ≡ e) first.1 rest.1 (ih.1 k)
          ],
        )

-- An edge is drawn exactly if a service of its source's name calls its target at the step of its
-- index, by itself or in a concurrent command of any depth.
pub edges_iff :
    (R : Runtime) (sg : ServiceGraph) (g : Graph) (e : Edge)
    → service_graph_to_graph R sg ≡ ok g
    → Any (λ x. x ≡ e) g.edges ↔ IsCall sg.services e
unfolding service_graph_to_graph
edges_iff R sg g e h =
    let (out, u, h') = >>=-eq-ok (nodes_and_edges R sg.services) _ h in
    rw (← ok-injective h') (services_edges e R sg.services u)
