-- ===== src/Main.antt =====
-- service/main.go: a mock service from its start to the state in which it serves.
pub mod Started
pub mod Deployed
pub mod Reach
use isotope.Base.{ℕ, String, ◌<>◌, ◌==◌, ltb, if◌then◌else◌, Option, none, some, List, [], ◌∷◌}
use isotope.Base.Dict.{Dict, lookup}
use isotope.Base.Text.{decimal}
use isotope.Base.Int.{ℤ}
use isotope.Base.Result.{Result, ok, err, ◌>>=◌}
use isotope.Consts.{config_path, service_graph_yaml_file_name, service_name_env_key, service_port}
use isotope.Runtime.{Runtime}
use isotope.Ghodss.{Ghodss}
use isotope.Graph.Svc.Unmarshal.{initial}
use isotope.Srv.Lookup.{Handler}
use isotope.Srv.Read.{
  StartError, unset_variable, cannot_listen, Files, handler_from_service_graph_yaml,
}

abbrev pub prom_endpoint : String
prom_endpoint = "/metrics"

abbrev pub default_endpoint : String
default_endpoint = "/"

-- `path.Join` of two clean paths
abbrev pub service_graph_yaml_file_path : String
service_graph_yaml_file_path = config_path <> ("/" <> service_graph_yaml_file_name)

-- What the process finds: its environment, files and processors, and the flag
-- `--max-idle-connections-per-host`.
pub record Machine : Type 0 where
  pub env : String → Option String
  pub files : Files
  pub num_cpu : ℕ
  pub max_procs : ℕ
  pub max_idle_connections_per_host : ℤ
  -- `none` where http.ListenAndServe goes on to serve, and else its error
  pub listen : String → Option String

pub data Endpoint : Type 0 where
  -- promhttp.Handler()
  metrics : Endpoint
  service : Handler → Endpoint
  -- http.RedirectHandler
  redirect : String → Endpoint

-- The process that serves.
pub record Process : Type 0 where
  pub max_procs : ℕ
  -- http.DefaultTransport's MaxIdleConnsPerHost
  pub max_idle_connections_per_host : ℤ
  -- the patterns of http.Handle
  pub routes : Dict Endpoint
  pub address : String

-- The argument of the last `runtime.GOMAXPROCS` that sets a value, or else the old value.
unfoldable pub set_max_procs : ℕ → ℕ → ℕ
set_max_procs num_cpu max_procs = if ltb max_procs num_cpu then num_cpu else max_procs

abbrev pub serving : ℕ → ℤ → Handler → Process
serving max_procs max_idle default_handler = record {
  max_procs = max_procs;
  max_idle_connections_per_host = max_idle;
  routes = (prom_endpoint, metrics) ∷ ((default_endpoint, service default_handler) ∷ []);
  address = ":" <> decimal service_port;
}

unfoldable pub serve_with_prometheus : Machine → ℕ → ℤ → Handler → Result StartError Process
serve_with_prometheus machine max_procs max_idle default_handler =
    elim (machine.listen (":" <> decimal service_port)) [
      | some e ↦ err (cannot_listen e)
      | none ↦ ok (serving max_procs max_idle default_handler)
    ]

-- http.ServeMux, where `clean_path` is net/http's: a path that is not clean is redirected to the clean
-- one. Else a pattern is a path, and "/" takes the paths that no other does.
unfoldable pub dispatch : (String → String) → Process → String → Option Endpoint
dispatch clean_path process path =
    if clean_path path == path
    then (elim (lookup process.routes path) [ some e ↦ some e | none ↦ lookup process.routes "/" ])
    else some (redirect (clean_path path))

module _ (R : Runtime) (Y : Ghodss) where
  unfoldable pub main : Machine → Result StartError Process
  main machine =
      let max_procs = set_max_procs machine.num_cpu machine.max_procs in
      let max_idle = machine.max_idle_connections_per_host in
      elim (machine.env service_name_env_key) [
        | none ↦ err (unset_variable service_name_env_key)
        | some name ↦
            handler_from_service_graph_yaml R Y initial machine.files service_graph_yaml_file_path
              name
            >>= serve_with_prometheus machine max_procs max_idle
      ]
