-- ===== src/Kubernetes.antt =====
-- convert/pkg/kubernetes: the manifests of a service graph.
pub mod Types
pub mod Select
pub mod Order
use isotope.Base.{ℕ, ◌+◌, String, ◌<>◌, Option, none, some, List, [], ◌∷◌, ◌++◌}
use isotope.Base.Int.{ℤ}
use isotope.Base.Dict.{Dict, insert}
use isotope.Base.Result.{Result, ok, err, ◌>>=◌}
use isotope.Consts.{
  service_container_name, service_port, service_graph_namespace, config_path,
  service_graph_yaml_file_name, service_graph_config_map_key, service_name_env_key,
  fortio_metrics_port,
}
use isotope.Graph.{ServiceGraph}
use isotope.Graph.Svc
use isotope.Graph.Svc.{Service}
use isotope.Kubernetes.Types.{
  ObjectMeta, Container, Volume, Deployment, KubernetesService, Manifest, Yaml,
}

abbrev pub config_volume : String
config_volume = "config-volume"

abbrev pub service_graph_config_name : String
service_graph_config_name = "service-graph-config"

abbrev pub service_graph_app_labels : Dict String
service_graph_app_labels = ("app", "service-graph") ∷ []

abbrev pub service_graph_node_labels : Dict String
service_graph_node_labels = ("role", "service") ∷ []

abbrev pub prometheus_scrape_annotations : Dict String
prometheus_scrape_annotations = ("prometheus.io/scrape", "true") ∷ []

abbrev pub fortio_client_labels : Dict String
fortio_client_labels = ("app", "client") ∷ []

-- The two loops of combineLabels.
copy_labels : Dict String → Dict String → Dict String
copy_labels c [] = c
copy_labels c ((k, v) ∷ labels) = copy_labels (insert c k v) labels

unfoldable pub combine_labels : Dict String → Dict String → Dict String
unfolding copy_labels
combine_labels a b = copy_labels (copy_labels [] a) b

-- `timestamp`, at a time that time.Now gives.
abbrev pub timestamp : ℕ → ObjectMeta → ObjectMeta
timestamp now meta = record meta { creation_timestamp = some now }

-- The functions that make an object take the times at which they call `timestamp`.
unfoldable pub make_service_graph_namespace : ℕ → Manifest
make_service_graph_namespace now = Manifest.namespace (
    timestamp now (record {
      name = service_graph_namespace;
      namespace = "";
      labels = ("istio-injection", "enabled") ∷ [];
      annotations = [];
      creation_timestamp = none;
    }))

unfoldable pub make_config_map : (Y : Yaml) → ℕ → ServiceGraph → Result Y.Err Manifest
make_config_map Y now g = do
  graph_yaml ← Y.marshal_graph g
  ok (
      Manifest.config_map
        (timestamp now (record {
          name = service_graph_config_name;
          namespace = service_graph_namespace;
          labels = service_graph_app_labels;
          annotations = [];
          creation_timestamp = none;
        }))
        ((service_graph_config_map_key, graph_yaml) ∷ []))

meta_of : Service → ObjectMeta
meta_of s = record {
  name = s.name;
  namespace = service_graph_namespace;
  labels = service_graph_app_labels;
  annotations = prometheus_scrape_annotations;
  creation_timestamp = none;
}

unfoldable pub make_service : ℕ → Service → KubernetesService
unfolding meta_of
make_service now s = record {
  meta = timestamp now (meta_of s);
  ports = service_port ∷ [];
  selector = ("name", s.name) ∷ [];
}

-- The last argument is `fmt.Sprintf("%v", serviceMaxIdleConnectionsPerHost)`.
unfoldable pub make_deployment : ℕ → ℕ → Service → Dict String → String → String → Deployment
unfolding meta_of
make_deployment now template_now s node_selector service_image max_idle = record {
  meta = timestamp now (meta_of s);
  replicas = some s.num_replicas;
  match_labels = ("name", s.name) ∷ [];
  template = timestamp template_now (record {
    name = "";
    namespace = "";
    labels = combine_labels service_graph_node_labels (("name", s.name) ∷ []);
    annotations = [];
    creation_timestamp = none;
  });
  node_selector = node_selector;
  containers =
      record {
        name = service_container_name;
        image = service_image;
        args = ("--max-idle-connections-per-host=" <> max_idle) ∷ [];
        env = (service_name_env_key, s.name) ∷ [];
        volume_mounts = (config_volume, config_path) ∷ [];
        container_ports = service_port ∷ [];
      }
      ∷ [];
  volumes =
      record {
        name = config_volume;
        config_map = service_graph_config_name;
        items = (service_graph_config_map_key, service_graph_yaml_file_name) ∷ [];
      }
      ∷ [];
}

unfoldable pub make_fortio_deployment : ℕ → ℕ → Dict String → String → Deployment
make_fortio_deployment now template_now node_selector client_image = record {
  meta = timestamp now (record {
    name = "client";
    namespace = "";
    labels = fortio_client_labels;
    annotations = [];
    creation_timestamp = none;
  });
  replicas = none;
  match_labels = fortio_client_labels;
  template = timestamp template_now (record {
    name = "";
    namespace = "";
    labels = fortio_client_labels;
    annotations = [];
    creation_timestamp = none;
  });
  node_selector = node_selector;
  containers =
      record {
        name = "fortio-client";
        image = client_image;
        args = "server" ∷ [];
        env = [];
        volume_mounts = [];
        container_ports = service_port ∷ fortio_metrics_port ∷ [];
      }
      ∷ [];
  volumes = [];
}

unfoldable pub make_fortio_service : ℕ → KubernetesService
make_fortio_service now = record {
  meta = timestamp now (record {
    name = "client";
    namespace = "";
    labels = fortio_client_labels;
    annotations = prometheus_scrape_annotations;
    creation_timestamp = none;
  });
  ports = service_port ∷ [];
  selector = fortio_client_labels;
}

-- `strings.Join`
unfoldable pub join : String → List String → String
join separator [] = ""
join separator (s ∷ []) = s
join separator (s ∷ (t ∷ ss)) = s <> (separator <> join separator (t ∷ ss))

module _ (Y : Yaml) (node_selector : Dict String) (service_image max_idle : String)
    (client_node_selector : Dict String) (client_image : String) where
  -- `appendManifest`, with the manifests before.
  unfoldable pub append_manifest : List String → Manifest → Result Y.Err (List String)
  append_manifest manifests manifest = do doc ← Y.marshal manifest; ok (manifests ++ (doc ∷ []))

  -- The loop over the services, with the number of calls of time.Now before and after.
  unfoldable pub append_services : ℕ → List Service → List String → Result Y.Err (List String × ℕ)
  append_services n [] manifests = ok (manifests, n)
  append_services n (s ∷ services) manifests = do
    manifests ← append_manifest manifests (
        Manifest.deployment
          (make_deployment (Y.now n) (Y.now (n + 1)) s node_selector service_image max_idle))
    manifests ← append_manifest manifests (Manifest.service (make_service (Y.now (n + 2)) s))
    append_services (n + 3) services manifests

  unfoldable pub service_graph_to_kubernetes_manifests : ServiceGraph → Result Y.Err String
  service_graph_to_kubernetes_manifests g = do
    manifests ← append_manifest [] (make_service_graph_namespace (Y.now 0))
    config ← make_config_map Y (Y.now 1) g
    manifests ← append_manifest manifests config
    made ← append_services 2 g.services manifests
    manifests ← append_manifest made.0 (
        Manifest.deployment (
          make_fortio_deployment (Y.now made.1) (Y.now (made.1 + 1)) client_node_selector
            client_image))
    manifests ←
        append_manifest manifests (Manifest.service (make_fortio_service (Y.now (made.1 + 2))))
    ok (join "---\n" manifests)
