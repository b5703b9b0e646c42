-- ===== src/Main/Started.antt =====
-- What a mock service that has started serves.
use mathlib.Core.Path.{subst}
use isotope.Base.{
  ◌==◌, if◌then◌else◌, Bool-cases, ℕ, ◌≤◌, String, ◌<>◌, eq_iff, ◌≡◌, refl, ap, sym, ◌∙◌, Option,
  none, some, [], ◌∷◌, Option-cases, inl, inr, All, arith,
}
use isotope.Base.Int.{ℤ}
use isotope.Base.Dict.{lookup}
use isotope.Base.Result.{Result, ok, err, >>=-eq-ok, >>=-of-ok, ok-injective}
use isotope.Consts.{service_name_env_key, service_port}
use isotope.Base.Text.{decimal}
use isotope.Error.{Error}
use isotope.Runtime.{Runtime, IsTyped}
use isotope.Json.{Json}
use isotope.Ghodss.{Ghodss}
use isotope.Graph.{ServiceGraph}
use isotope.Graph.Svc.Unmarshal.{Globals, initial}
use isotope.Graph.Unmarshal.{unmarshal_json}
use isotope.Graph.Unmarshal.Accept.{unmarshal_json-IsValid}
use isotope.Srv.Lookup.{Handler, handler_from_service_graph}
use isotope.Srv.Header.{Header}
use isotope.Srv.Execute.{Net, Trace}
use isotope.Srv.Runs.{Serves}
use isotope.Srv.Calls.{IsKnown, Serves-IsKnown}
use isotope.Srv.Read.{
  StartError, Files, of_graph, found, unmarshal_yaml, service_graph_from_yaml_file,
  handler_from_service_graph_yaml,
}
use isotope.Main.{
  Machine, Process, Endpoint, metrics, service, redirect, set_max_procs, serve_with_prometheus,
  serving, dispatch, main, service_graph_yaml_file_path,
}

-- The handler under every clean path but that of the metrics.
abbrev pub endpoint_of : (String → String) → String → Handler → Endpoint
endpoint_of clean_path path h =
    if clean_path path == path
    then (if path == "/metrics" then metrics else service h)
    else redirect (clean_path path)

module _ (R : Runtime) (Y : Ghodss) where
  -- The graph in a file.
  abbrev pub HoldsGraph : Globals → Files → String → ServiceGraph → Type 0
  HoldsGraph g files path sg =
      (text : String) × (j : Json) × (files path ≡ some text)
      × (Y.to_json text ≡ some j)
      × ((unmarshal_json R j g).0 ≡ ok sg)

  of_graph-ok : (r : Result Error ServiceGraph) {sg : ServiceGraph} → of_graph r ≡ ok sg → r ≡ ok sg
  of_graph-ok (ok x) h = ap ok (ok-injective h)
  of_graph-ok (err e) h = cc

  read-HoldsGraph :
      (g : Globals) (files : Files) (path : String) {sg : ServiceGraph}
      → service_graph_from_yaml_file R Y g files path ≡ ok sg
      → HoldsGraph g files path sg
  unfolding service_graph_from_yaml_file unmarshal_yaml
  read-HoldsGraph g files path h = elim (Option-cases (files path)) [
    | inl e ↦ absurd (ground (arith, h, e))
    | inr (text, e) ↦ elim (Option-cases (Y.to_json text)) [
      | inl f ↦ absurd (ground (arith, h, e, f))
      | inr (j, f) ↦ (text, j, e, f, of_graph-ok (unmarshal_json R j g).0 (ground (arith, h, e, f)))
    ]
  ]

  found-ok : (name : String) (o : Option Handler) {h : Handler} → found name o ≡ ok h → o ≡ some h
  found-ok name (some x) e = ap some (ok-injective e)
  found-ok name none e = cc

  -- What a mock service that starts has found: the name of its service in the environment, and the
  -- graph in its file, with a service of that name.
  pub record HasStarted (machine : Machine) (p : Process) (name : String) (sg : ServiceGraph)
      (h : Handler) : Type 0 where
    pub named : machine.env "SERVICE_NAME" ≡ some name
    pub read : HoldsGraph initial machine.files "/etc/config/service-graph.yaml" sg
    pub made : handler_from_service_graph sg name ≡ some h
    pub listens : machine.listen ":8080" ≡ none
    pub process : p ≡ record {
      max_procs = set_max_procs machine.num_cpu machine.max_procs;
      max_idle_connections_per_host = machine.max_idle_connections_per_host;
      routes = ("/metrics", metrics) ∷ ("/", service h) ∷ [];
      address = ":8080";
    }
    pub procs : (machine.num_cpu ≤ p.max_procs) × (machine.max_procs ≤ p.max_procs)
    pub serves :
        (clean_path : String → String) (path : String)
        → dispatch clean_path p path ≡ some (endpoint_of clean_path path h)

  pub dispatch-serving :
      (max_procs : ℕ) (max_idle : ℤ) (h : Handler) (clean_path : String → String) (path : String)
      → dispatch clean_path (serving max_procs max_idle h) path
        ≡ some (endpoint_of clean_path path h)
  unfolding dispatch lookup
  dispatch-serving max_procs max_idle h clean_path path =
      ground (arith, eq_iff "/metrics" path, eq_iff path "/metrics", eq_iff "/" path)

  serve-serving :
      (machine : Machine) (max_procs : ℕ) (max_idle : ℤ) (h : Handler) {p : Process}
      → serve_with_prometheus machine max_procs max_idle h ≡ ok p
      → (serving max_procs max_idle h ≡ p) × (machine.listen (":" <> decimal service_port) ≡ none)
  unfolding serve_with_prometheus
  serve-serving machine max_procs max_idle h e =
      elim (Option-cases (machine.listen (":" <> decimal service_port))) [
        | inl goes_on ↦ (ok-injective {E = StartError} (ground (arith, e, goes_on)), goes_on)
        | inr (x, stops) ↦ absurd (ground (arith, e, stops))
      ]

  set_max_procs-le :
      (num_cpu max_procs : ℕ)
      → (num_cpu ≤ set_max_procs num_cpu max_procs) × (max_procs ≤ set_max_procs num_cpu max_procs)
  unfolding set_max_procs
  set_max_procs-le num_cpu max_procs = ground arith

  handler-HasStarted :
      (machine : Machine) (name : String) (h : Handler)
      → machine.env service_name_env_key ≡ some name
      → machine.listen (":" <> decimal service_port) ≡ none
      → handler_from_service_graph_yaml R Y initial machine.files service_graph_yaml_file_path name
        ≡ ok h
      → (sg : ServiceGraph) × HasStarted machine
          (serving
            (set_max_procs machine.num_cpu machine.max_procs)
            machine.max_idle_connections_per_host
            h)
          name
          sg
          h
  unfolding handler_from_service_graph_yaml dispatch lookup decimal
  handler-HasStarted machine name h e listens made =
      let (sg, read, found_it) =
        >>=-eq-ok
          (service_graph_from_yaml_file R Y initial machine.files service_graph_yaml_file_path)
          (λ sg. found name (handler_from_service_graph sg name)) made in
      (
        sg,
        record {
          named = e;
          read = read-HoldsGraph initial machine.files service_graph_yaml_file_path read;
          made = found-ok name (handler_from_service_graph sg name) found_it;
          listens = listens;
          process = refl;
          procs = set_max_procs-le machine.num_cpu machine.max_procs;
          serves =
              dispatch-serving (set_max_procs machine.num_cpu machine.max_procs)
                machine.max_idle_connections_per_host h;
        },
      )

  -- A mock service that starts has its name in the environment and a graph with a service of the name
  -- in its file. It runs on all processors, and serves its metrics and else the handler of the service.
  pub main-HasStarted :
      (machine : Machine) (p : Process)
      → main R Y machine ≡ ok p
      → (name : String) × (sg : ServiceGraph) × (h : Handler) × HasStarted machine p name sg h
  unfolding main
  main-HasStarted machine p e = elim (Option-cases (machine.env service_name_env_key)) [
    | inl unset ↦ absurd (ground (arith, e, unset))
    | inr (name, set) ↦
        let (h, made, served) =
          >>=-eq-ok
            (handler_from_service_graph_yaml R Y initial machine.files service_graph_yaml_file_path
              name)
            (serve_with_prometheus machine (set_max_procs machine.num_cpu machine.max_procs)
              machine.max_idle_connections_per_host)
            (ground (arith, e, set)) in
        let (same, listens) =
          serve-serving machine (set_max_procs machine.num_cpu machine.max_procs)
            machine.max_idle_connections_per_host h served in
        let (sg, started) = handler-HasStarted machine name h set listens made in
        (name, sg, h, subst (λ x. HasStarted machine x name sg h) same started)
  ]

  file-read :
      (machine : Machine) (path doc : String) (sg : ServiceGraph)
      → machine.files path ≡ some doc
      → unmarshal_yaml R Y initial doc ≡ ok sg
      → service_graph_from_yaml_file R Y initial machine.files path ≡ ok sg
  unfolding service_graph_from_yaml_file
  file-read machine path doc sg file read = rw (file, service_graph_from_yaml_file) read

  pub main-serving :
      (machine : Machine) (name doc : String) (sg : ServiceGraph) (h : Handler)
      → machine.env "SERVICE_NAME" ≡ some name
      → machine.files service_graph_yaml_file_path ≡ some doc
      → unmarshal_yaml R Y initial doc ≡ ok sg
      → handler_from_service_graph sg name ≡ some h
      → machine.listen (":" <> decimal service_port) ≡ none
      → main R Y machine
        ≡ ok (
            serving
              (set_max_procs machine.num_cpu machine.max_procs)
              machine.max_idle_connections_per_host
              h)
  unfolding main handler_from_service_graph_yaml serve_with_prometheus
  main-serving machine name doc sg h named file read made listens =
      rw (named, main)
        (>>=-of-ok _ (
            >>=-of-ok _ (file-read machine service_graph_yaml_file_path doc sg file read)
            ∙ ap (found name) made)
          ∙ rw (listens, serve_with_prometheus) refl)

  endpoint_of-service :
      (clean_path : String → String) (path : String) (h k : Handler)
      → ◌≡◌ {A = Option Endpoint} (some (endpoint_of clean_path path h)) (some (service k))
      → h ≡ k
  endpoint_of-service clean_path path h k e = elim (Bool-cases (clean_path path == path)) [
    | inr unclean ↦ absurd (ground (arith, e, unclean))
    | inl clean ↦ elim (Bool-cases (path == "/metrics")) [
      | inl scraped ↦ absurd (ground (arith, e, clean, scraped))
      | inr other ↦ ground (arith, e, clean, other)
    ]
  ]

  -- The handler of a mock service that has started never refuses a call as its service does not
  -- exist, whatever was in its file.
  pub main-IsKnown :
      (N : Net) (machine : Machine) (p : Process) (clean_path : String → String) (path : String)
      (h : Handler) (header : Header) (t : Trace)
      → IsTyped R
      → main R Y machine ≡ ok p
      → dispatch clean_path p path ≡ some (service h)
      → Serves N h header t
      → All IsKnown t
  main-IsKnown N machine p clean_path path h header t T e served runs =
      let (name, sg, h', started) = main-HasStarted machine p e in
      let same =
        endpoint_of-service clean_path path h' h (sym (started.serves clean_path path) ∙ served) in
      let (text, j, file, yaml, read) = started.read in
      Serves-IsKnown N sg name h' header t
        (unmarshal_json-IsValid R initial j sg T (omega arith) read).0 started.made
        (subst (λ x. Serves N x header t) (sym same) runs)
