-- ===== src/Lib.antt =====
-- Isotope benchmarks Istio with service graphs: convert/ reads a graph and writes it for Graphviz
-- and Kubernetes, and service/ runs as one node of the graph. This library models the Go code of
-- both, with theorems about it.
--
-- Parts, and the files that model them:
--   Base        shared names, lists, maps with text keys (Dict), signed integers (Int), float64 as
--               patterns of IEEE 754 bits (Float), results of fallible functions (Result), and the
--               parts of Go's strings package that are called (Text).
--   Json        JSON values. A `[]byte` that the source hands on is the text of one value, and the
--               model has the value: `b[0] == '"'` tells a string. Json.Decode is what the source
--               uses of json.Unmarshal: structs field by field, keys without case, null, saved
--               type errors, and the end of reading at an error of an `UnmarshalJSON` method.
--   Error       the error values of the program, and their messages (Text).
--   Runtime     what the program calls and the repository does not implement: texts and arithmetic
--               of float64, texts of durations, and the texts of sizes of docker/go-units.
--   Graph       convert/pkg/graph: Pct (pct), Size (size), ServiceType (svctype), Script (script),
--               Svc (svc), Unmarshal (unmarshal.go), Validation (validation.go), Lock (goroutines
--               that read graphs at the same time, with a step for each write to what they share),
--               Marshal (the tags of the structs), Rounding (what the text of a size loses).
--               Functions have the source's names in snake case; a method named UnmarshalJSON or
--               MarshalJSON is `unmarshal_json` or `marshal_json` of its module.
--   Graphviz    convert/pkg/graphviz: nodes, edges and the texts of steps, and the DOT text (Dot).
--   Kubernetes  convert/pkg/kubernetes: the manifests as data, with the fields that the code sets.
--               `Yaml` is the YAML library, and the readings of the clock. Order is about the
--               whole document, and Select about selectors and labels.
--   Ghodss      the YAML library that goes by JSON, as a record of functions.
--   Main        service/main.go, from the environment to the served routes. Started is about its
--               results, Deployed about the pods that Kubernetes makes of the manifests, and
--               Reach about where their calls go.
--   Consts      convert/pkg/consts.
--   Srv         service/pkg/srv: Lookup and Read (graph.go), Header (header.go), Request (request.go),
--               Execute (executable.go and handler.go as functions). Runs has the same as relations,
--               in which goroutines interleave and share a variable, and Total relates the two.
--               Race, Failures, Sent, Serve, Calls and Work are about all runs, and Closed is how such
--               properties are proved. Timing adds to the runs when each call and step begins and
--               ends, and Mesh puts the handlers of all services of a graph together: Needs, Cycle
--               and Reply are about when they can respond, and Load about how many requests they
--               send. Metrics (prometheus/handler.go) are the collectors and what a run records.
--               net/http, go-multierror and the allocator are the record `Net`, and what the
--               services called respond is chosen by the run.
--   Cmd         convert/cmd: the two commands, as functions of the files that they read. Selector is
--               about node selectors, Frame about the files after an error, where a write may
--               break off, and Steps and Pipeline about whole commands. Line is the
--               program from its command line on, for a `Cobra` that is given the commands as data.
--   Tests       the repository's test inputs, and the theorems at concrete data.
--
-- The package variables svc.DefaultService and script.DefaultRequestCommand are the record
-- `Graph.Svc.Unmarshal.Globals`, passed in and out. All recursion is structural, on JSON values,
-- commands and lists, so no fuel is used. Sizes are numbers below 2 ^ 64, replicas and durations are
-- integers with a test of their width.
--
-- Not modelled: how cobra parses a command line, the parsing of the DOT template (its text is
-- written out as a function), flags and logs of the mock service, the scheduler of goroutines, what
-- an interleaved write does to the first, unlocked json.Unmarshal of a graph (one step), what the
-- Prometheus library does with samples, and the scripts that deploy and measure. These are
-- libraries, logs, one simplification, and no Go code.
pub mod Base
pub mod Cmd
pub mod Consts
pub mod Error
pub mod Ghodss
pub mod Graph
pub mod Graphviz
pub mod Json
pub mod Kubernetes
pub mod Main
pub mod Runtime
pub mod Srv
pub mod Tests
