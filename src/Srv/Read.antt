-- ===== src/Srv/Read.antt =====
-- service/pkg/srv/graph.go: the handler of a service from the YAML file of its graph.
use isotope.Base.{String, Option, none, some}
use isotope.Base.Result.{Result, ok, err, ◌>>=◌}
use isotope.Error.{Error}
use isotope.Runtime.{Runtime}
use isotope.Ghodss.{Ghodss}
use isotope.Graph.{ServiceGraph}
use isotope.Graph.Svc.Unmarshal.{Globals}
use isotope.Graph.Unmarshal.{unmarshal_json}
use isotope.Srv.Lookup.{Handler, handler_from_service_graph}

-- Why no handler is made.
pub data StartError : Type 0 where
  unreadable_file : String → StartError
  -- the text of the file is no YAML
  invalid_yaml : StartError
  invalid_graph : Error → StartError
  no_service : String → StartError
  unset_variable : String → StartError
  cannot_listen : String → StartError

-- ioutil.ReadFile, which is `none` on an error
abbrev pub Files : Type 0
Files = String → Option String

abbrev pub of_graph : Result Error ServiceGraph → Result StartError ServiceGraph
of_graph (ok sg) = ok sg
of_graph (err e) = err (invalid_graph e)

abbrev pub found : String → Option Handler → Result StartError Handler
found name none = err (no_service name)
found name (some h) = ok h

module _ (R : Runtime) (Y : Ghodss) (g : Globals) where
  -- yaml.Unmarshal into a ServiceGraph
  unfoldable pub unmarshal_yaml : String → Result StartError ServiceGraph
  unmarshal_yaml text = elim (Y.to_json text) [
    | none ↦ err invalid_yaml
    | some j ↦ of_graph (unmarshal_json R j g).0
  ]

  unfoldable pub service_graph_from_yaml_file : Files → String → Result StartError ServiceGraph
  service_graph_from_yaml_file files path = elim (files path) [
    | none ↦ err (unreadable_file path)
    | some text ↦ unmarshal_yaml text
  ]

  -- HandlerFromServiceGraphYAML. What it logs is left out.
  unfoldable pub handler_from_service_graph_yaml :
      Files → String → String → Result StartError Handler
  handler_from_service_graph_yaml files path name = do
    sg ← service_graph_from_yaml_file files path
    found name (handler_from_service_graph sg name)
