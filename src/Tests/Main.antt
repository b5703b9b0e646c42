-- ===== src/Tests/Main.antt =====
-- A pod of the service "c" of three services, from the manifest to the handler.
use isotope.Base.{
  nat_eq, String, ◌==◌, ◌≡◌, refl, ap, ◌∙◌, none, some, [], ◌∷◌, All, if◌then◌else◌, arith, eq_iff,
}
use isotope.Base.Int.{pos}
use isotope.Base.Dict.{Dict, lookup, insert}
use isotope.Base.Result.{Result, ok, err, >>=-eq-ok}
use isotope.Srv.Read.{unmarshal_yaml, of_graph}
use isotope.Error.{Error}
use isotope.Json.{Json, null}
use isotope.Ghodss.{Ghodss}
use isotope.Graph.{ServiceGraph}
use isotope.Graph.Marshal as GraphMarshal
use isotope.Kubernetes.Types.{Manifest, Yaml, ObjectMeta}
use isotope.Kubernetes.{
  make_config_map, make_deployment, service_graph_config_name, service_graph_app_labels,
}
use isotope.Srv.Lookup.{extract_service_types, IsFirst, here, later}
use isotope.Main.{Machine, Process, dispatch, main}
use isotope.Main.Started.{endpoint_of, main-IsKnown}
use isotope.Main.Reach.{Serves-IsDelivered, IsDelivered, all_manifests}
use isotope.Main.Deployed.{pod_serves, IsPodOf}
use isotope.Srv.Calls.{IsKnown}
use isotope.Runtime.{Runtime}
use isotope.Base.Float.{float_le}
use isotope.Base.Result.{◌>>=◌}
use isotope.Json.{integer}
use isotope.Graph.Pct.{from_float64}
use isotope.Graph.Size.{ByteSize}
use isotope.Graph.Svc.{Service}
use isotope.Graph.Svc.Marshal.RoundTrip.{IsReadableService}
use isotope.Graph.Svc.Unmarshal.{initial}
use isotope.Graph.Unmarshal.{unmarshal_json}
use isotope.Graph.Rounding.{round_graph, round_service}
use isotope.Graph.Marshal.{graph_read_rounded, graph_round_trip}
use isotope.Tests.Srv.{
  net, incoming, handler_c, trace_c, handler_c-Serves, made_c, net-IsNewRequest,
}
use isotope.Tests.Sample.{sample, sample-IsTyped}
use isotope.Consts.{service_graph_namespace}
use isotope.Tests.GraphTheorems.{
  three_services, three_services-AreWritable, three_services-IsValid, service_c, service_b,
  a_not_empty,
}

-- The JSON of the three services.
abbrev pub or_null : Result Error Json → Json
or_null (ok j) = j
or_null (err e) = null

abbrev pub three_json : Json
three_json = or_null (GraphMarshal.marshal_json sample three_services)

abbrev pub one_file : Ghodss
one_file = record {
  to_yaml = λ j. "graph";
  to_json = λ text. if text == "graph" then some three_json else none;
}

abbrev pub one_graph : Yaml
one_graph = record {
  Err = String;
  marshal = λ m. ok "manifest";
  marshal_graph = λ g. ok "graph";
  now = λ n. n;
}

abbrev pod : Machine
pod = record {
  env = λ key. if key == "SERVICE_NAME" then some "c" else none;
  files = λ path. if path == "/etc/config/service-graph.yaml" then some "graph" else none;
  num_cpu = 4;
  max_procs = 2;
  max_idle_connections_per_host = pos 64;
  listen = λ address. none;
}

abbrev config_meta : ObjectMeta
config_meta = record {
  name = service_graph_config_name;
  namespace = service_graph_namespace;
  labels = service_graph_app_labels;
  annotations = [];
  creation_timestamp = some 1;
}

abbrev config : Dict String
config = ("service-graph", "graph") ∷ []

pod-IsPodOf : IsPodOf (make_deployment 2 3 service_c [] "image" "64") config_meta.name config pod
unfolding make_deployment lookup
pod-IsPodOf = (((refl, tt), ((((λ e f. ((λ text h. h), tt)), tt), tt))), tt)

config_made :
    make_config_map one_graph 1 three_services ≡ ok (Manifest.config_map config_meta config)
unfolding make_config_map
config_made = refl

pub service_c-IsFirst : IsFirst "c" service_c three_services.services
service_c-IsFirst =
    later _ (λ e. ground (arith, eq_iff "a" "c", e))
      (later _ (λ e. ground (arith, eq_iff "b" "c", e)) (here [] refl))

-- units.BytesSize gives "976.6KiB" for a million bytes, which units.RAMInBytes reads as 1000038.
abbrev rounding : Runtime
rounding = record sample {
  bytes_size = λ z. if nat_eq z 1000000 then "976.6KiB" else sample.bytes_size z;
  ram_in_bytes = λ s. if s == "976.6KiB" then some (pos 1000038) else sample.ram_in_bytes s;
}

abbrev rounded : ByteSize → ByteSize
rounded z = if nat_eq z 1000000 then 1000038 else z

abbrev large : Service
large = record service_b { name = "large"; response_size = 1000000 }

abbrev large_graph : ServiceGraph
large_graph = record { services = large ∷ [] }

large-IsReadable : IsReadableService rounding rounded large
unfolding from_float64 float_le
large-IsReadable = record {
  name = a_not_empty "large" refl;
  type = λ e. cc;
  replicas = λ e. ground arith;
  int32 = refl;
  rate = record {
    text = integer (pos 0);
    written = refl;
    read = refl;
    in_range = refl;
    positive_zero = λ h. refl;
  };
  size = refl;
  script = tt;
}

graph_read_rounded_example :
    (GraphMarshal.marshal_json rounding large_graph >>= λ j. (unmarshal_json rounding j initial).0)
    ≡ ok (round_graph rounded large_graph)
graph_read_rounded_example =
    graph_read_rounded rounding rounded initial large_graph refl (tt, tt) (large-IsReadable, tt)

-- The service that is read is not the one that was written.
large_differs : (round_service rounded large).response_size ≡ 1000038
large_differs = refl

abbrev large_json : Json
large_json = or_null (GraphMarshal.marshal_json rounding large_graph)

abbrev large_file : Ghodss
large_file = record {
  to_yaml = λ j. "graph";
  to_json = λ text. if text == "graph" then some large_json else none;
}

abbrev large_pod : Machine
large_pod = record pod { env = λ key. if key == "SERVICE_NAME" then some "large" else none }

large_pod-IsPodOf :
    IsPodOf (make_deployment 2 3 large [] "image" "64") config_meta.name config large_pod
unfolding make_deployment lookup
large_pod-IsPodOf = (((refl, tt), ((((λ e f. ((λ text h. h), tt)), tt), tt))), tt)

large_config_made :
    make_config_map one_graph 1 large_graph ≡ ok (Manifest.config_map config_meta config)
unfolding make_config_map
large_config_made = refl

large_read :
    unmarshal_yaml rounding large_file initial "graph" ≡ ok (round_graph rounded large_graph)
unfolding unmarshal_yaml
large_read =
    let (j, written, read) = >>=-eq-ok (GraphMarshal.marshal_json rounding large_graph) _ (
      graph_read_rounded rounding rounded initial large_graph refl (tt, tt)
        (large-IsReadable, tt)) in
    ap of_graph (ap (λ r. (unmarshal_json rounding (or_null r) initial).0) written ∙ read)

pod_serves_example :
    (p : Process) × (main rounding large_file large_pod ≡ ok p)
    × ((clean_path : String → String) (path : String)
        → dispatch clean_path p path
          ≡ some (
              endpoint_of clean_path path (record {
                service = round_service rounded large;
                service_types = extract_service_types (round_graph rounded large_graph);
              })))
pod_serves_example =
    pod_serves rounding large_file one_graph 1 2 3 large_graph (round_graph rounded large_graph)
      "graph" large (round_service rounded large) [] "image" "64" config_meta config large_pod refl
      large_read (here [] refl) large_config_made large_pod-IsPodOf refl

-- The JSON of the three services is read as the three services.
pub three_json-read : (unmarshal_json sample three_json initial).0 ≡ ok three_services
three_json-read =
    let (j, written, read) = >>=-eq-ok (GraphMarshal.marshal_json sample three_services) _ (
      graph_round_trip sample initial three_services three_services-IsValid
        three_services-AreWritable) in
    ap (λ r. (unmarshal_json sample (or_null r) initial).0) written ∙ read

three_read : unmarshal_yaml sample one_file initial "graph" ≡ ok three_services
unfolding unmarshal_yaml
three_read = ap of_graph three_json-read

started_pod :
    (p : Process) × (main sample one_file pod ≡ ok p)
    × ((clean_path : String → String) (path : String)
        → dispatch clean_path p path ≡ some (endpoint_of clean_path path handler_c))
unfolding extract_service_types insert
started_pod =
    pod_serves sample one_file one_graph 1 2 3 three_services three_services "graph" service_c
      service_c [] "image" "64" config_meta config pod refl three_read service_c-IsFirst config_made
      pod-IsPodOf refl

main-IsKnown_example : All IsKnown trace_c
main-IsKnown_example =
    main-IsKnown sample one_file net pod started_pod.0 (λ path. path) "/" handler_c incoming trace_c
      sample-IsTyped started_pod.1 (started_pod.2 (λ path. path) "/") handler_c-Serves

Serves-IsDelivered_example :
    All
      (IsDelivered (all_manifests [] "image" "64" [] "client" one_graph.now three_services "graph"))
      trace_c
Serves-IsDelivered_example =
    Serves-IsDelivered [] "image" "64" [] "client" one_graph.now net three_services "graph" "c"
      handler_c incoming trace_c net-IsNewRequest three_services-IsValid made_c handler_c-Serves
