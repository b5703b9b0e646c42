-- ===== src/Main/Deployed.antt =====
-- convert/pkg/kubernetes/kubernetes.go beside service/main.go: what a pod of a deployment serves.
use isotope.Base.{ℕ, String, ◌<>◌, ◌≡◌, refl, sym, ap, ◌∙◌, none, some, List, All}
use isotope.Base.Dict.{Dict, lookup}
use isotope.Base.Result.{Result, ok, >>=-of-ok}
use isotope.Base.Text.{decimal}
use isotope.Consts.{service_port, service_graph_config_map_key}
use isotope.Runtime.{Runtime}
use isotope.Ghodss.{Ghodss}
use isotope.Graph.{ServiceGraph}
use isotope.Graph.Svc.{Service}
use isotope.Graph.Svc.Unmarshal.{initial}
use isotope.Kubernetes.Types.{ObjectMeta, Container, Volume, Deployment, Manifest, Yaml}
use isotope.Kubernetes.{make_deployment, make_config_map}
use isotope.Srv.Lookup.{Handler, IsFirst, handler_iff, extract_service_types}
use isotope.Srv.Read.{unmarshal_yaml}
use isotope.Main.Started.{endpoint_of, dispatch-serving, main-serving}
use isotope.Main.{Machine, Process, serving, set_max_procs, dispatch, main}

-- What Kubernetes documents of the containers of a pod, for one config map: the variables are set,
-- and a volume of the config map has a file at its mount path for each of its items.
abbrev pub HasVariables : Machine → Container → Type 0
HasVariables machine c = All (λ variable. machine.env variable.0 ≡ some variable.1) c.env

abbrev pub HasItems : Machine → Dict String → String → Dict String → Type 0
HasItems machine config mount_path = All λ item.
    (text : String)
    → lookup config item.0 ≡ some text
    → machine.files (mount_path <> ("/" <> item.1)) ≡ some text

abbrev pub HasFiles : Machine → String → Dict String → List Volume → Container → Type 0
HasFiles machine config_name config volumes c =
    All
      (λ mount.
        All
          (λ v.
            v.name ≡ mount.0 → v.config_map ≡ config_name → HasItems machine config mount.1 v.items)
          volumes)
      c.volume_mounts

abbrev pub IsPodOf : Deployment → String → Dict String → Machine → Type 0
IsPodOf d config_name config machine =
    All (λ c. HasVariables machine c × HasFiles machine config_name config d.volumes c) d.containers

module _ (R : Runtime) (Y : Ghodss) (K : Yaml) where
  config-injective :
      {m m' : ObjectMeta} {d d' : Dict String}
      → ◌≡◌ {A = Result K.Err Manifest}
          (ok (Manifest.config_map m d))
          (ok (Manifest.config_map m' d'))
      → (m ≡ m') × (d ≡ d')
  config-injective e = (cc, cc)

  -- The config map is made of a graph whose YAML text is read as the graph `read_back`, and the pod is
  -- one of the deployment of a service whose name `read_back` has. Kubernetes gives the container its
  -- variables and files, and listening succeeds. Then the mock service starts and acts as the first
  -- service of that name in `read_back`, under every clean path but that of the metrics, and knows the
  -- types of all services of `read_back`.
  pub pod_serves :
      (config_at deployment_at pod_at : ℕ) (sg read_back : ServiceGraph) (doc : String)
      (s own : Service) (node_selector : Dict String) (image max_idle : String) (meta : ObjectMeta)
      (config : Dict String) (machine : Machine)
      → K.marshal_graph sg ≡ ok doc
      → unmarshal_yaml R Y initial doc ≡ ok read_back
      → IsFirst s.name own read_back.services
      → make_config_map K config_at sg ≡ ok (Manifest.config_map meta config)
      → IsPodOf
          (make_deployment deployment_at pod_at s node_selector image max_idle)
          meta.name
          config
          machine
      → machine.listen (":" <> decimal service_port) ≡ none
      → (p : Process) × (main R Y machine ≡ ok p)
        × ((clean_path : String → String) (path : String)
            → dispatch clean_path p path
              ≡ some (
                  endpoint_of clean_path path
                    (record { service = own; service_types = extract_service_types read_back })))
  unfolding make_config_map make_deployment lookup
  pod_serves config_at deployment_at pod_at sg read_back doc s own node_selector image max_idle meta
        config machine marshalled read first made pod listens =
      let (same_meta, same_config) = config-injective (sym (>>=-of-ok _ marshalled) ∙ made) in
      let h : Handler = record { service = own; service_types = extract_service_types read_back } in
      let items = pod.0.1.0.0 refl (ap (λ m. m.name) same_meta) in
      let file = items.0 doc (ap (λ c. lookup c service_graph_config_map_key) (sym same_config)) in
      (
        serving (set_max_procs machine.num_cpu machine.max_procs)
            machine.max_idle_connections_per_host h,
        main-serving R Y machine s.name doc read_back h pod.0.0.0 file read
            ((handler_iff read_back s.name h).1 (first, refl)) listens,
        dispatch-serving R Y (set_max_procs machine.num_cpu machine.max_procs)
            machine.max_idle_connections_per_host h,
      )
