-- ===== src/Main/Reach.antt =====
-- Where the calls of the mock services go in the cluster of the manifests.
use mathlib.Core.Path.{subst}
use isotope.Base.{
  ℕ, ◌+◌, String, ◌<>◌, ◌≡◌, refl, sym, ap, some, List, [], ◌∷◌, All, Any, inl, inr,
  Any-append_left,
}
use isotope.Base.Dict.{Dict, lookup}
use isotope.Base.Text.{decimal}
use isotope.Consts.{service_port, service_name_env_key, service_graph_namespace}
use isotope.Graph.{ServiceGraph}
use isotope.Graph.Svc.{Service}
use isotope.Graph.Validation.Spec.{IsValid, IsScript, Defines}
use isotope.Kubernetes.{make_service, make_deployment}
use isotope.Kubernetes.Types.{Manifest, Deployment, KubernetesService}
use isotope.Kubernetes.Order.{manifests_of, of_services}
use isotope.Kubernetes.Select.{Selects, select_iff}
use isotope.Srv.Header.{Header}
use isotope.Srv.Lookup.{Handler, handler_from_service_graph, handler_iff}
use isotope.Srv.Request.{IsNewRequest, url_of}
use isotope.Srv.Execute.{Net, Event, Trace}
use isotope.Srv.Runs.{Serves}
use isotope.Srv.Calls.{IsCallOf, Serves-IsCallOf, script-AllRequests, first-All}

-- The url names a Kubernetes service of the manifests and one of its ports. That selects the pods of
-- a deployment of the manifests, which is in the namespace of the service graph like the Kubernetes
-- service, and has a container that listens at the port as the service named.
abbrev pub IsRouted : List Manifest → String → Type 0
IsRouted manifests url =
    (k : KubernetesService) × (d : Deployment) × (port : ℕ) × Any (λ m. m ≡ Manifest.service k)
      manifests
    × Any (λ m. m ≡ Manifest.deployment d) manifests
    × (url ≡ "http://" <> (k.meta.name <> (":" <> decimal port)))
    × Any (λ p. p ≡ port) k.ports
    × (k.meta.namespace ≡ service_graph_namespace)
    × (d.meta.namespace ≡ service_graph_namespace)
    × Selects k.selector d.template.labels
    × Any
        (λ c.
          Any (λ p. p ≡ port) c.container_ports
          × (lookup c.env service_name_env_key ≡ some k.meta.name))
        d.containers

abbrev pub IsDelivered : List Manifest → Event → Type 0
IsDelivered manifests (Event.sent q) = IsRouted manifests q.url
IsDelivered manifests _ = Unit

module _ (node_selector : Dict String) (image max_idle : String)
    (client_node_selector : Dict String) (client_image : String) (now : ℕ → ℕ) where
  abbrev HasManifests : List Manifest → Service → Type 0
  HasManifests manifests s =
      (n : ℕ) × Any (λ m. m ≡ Manifest.service (make_service (now (n + 2)) s)) manifests
      × Any
          (λ m.
            m
            ≡ Manifest.deployment
                (make_deployment (now n) (now (n + 1)) s node_selector image max_idle))
          manifests

  abbrev two_each : ℕ → List Service → List Manifest
  two_each = of_services node_selector image max_idle client_node_selector client_image now

  Defines-HasManifests :
      (n : ℕ) (services : List Service) {name : String}
      → Defines services name
      → (s : Service) × (s.name ≡ name) × HasManifests (two_each n services) s
  Defines-HasManifests n [] h = absurd h
  Defines-HasManifests n (s ∷ services) (inl e) = (s, e, (n, inr (inl refl), inl refl))
  Defines-HasManifests n (s ∷ services) (inr h) =
      let (t, e, found) = Defines-HasManifests (n + 3) services h in
      let (m, k, d) = found in (t, e, (m, inr (inr k), inr (inr d)))

  abbrev pub all_manifests : ServiceGraph → String → List Manifest
  all_manifests = manifests_of node_selector image max_idle client_node_selector client_image now

  routed :
      (manifests : List Manifest) (s : Service) (name : String)
      → s.name ≡ name
      → HasManifests manifests s
      → IsRouted manifests (url_of name)
  unfolding make_service make_deployment lookup url_of
  routed manifests s name e (n, k, d) = (
    make_service (now (n + 2)) s,
    make_deployment (now n) (now (n + 1)) s node_selector image max_idle,
    service_port,
    k,
    d,
    ap url_of (sym e),
    inl refl,
    refl,
    refl,
    (select_iff (now (n + 2)) (now n) (now (n + 1)) s s node_selector client_node_selector image
          max_idle client_image).0.1
        refl,
    inl (inl refl, refl),
  )

  -- In every run of a handler that is made from a valid graph, each request sent goes to the name and
  -- a port of a Kubernetes service of the graph's manifests, which selects the pods of a deployment of
  -- the manifests, in the one namespace, with a container that listens at the port as the service.
  pub Serves-IsDelivered :
      (N : Net) (g : ServiceGraph) (doc name : String) (h : Handler) (header : Header) (t : Trace)
      → IsNewRequest N.new_request
      → IsValid g
      → handler_from_service_graph g name ≡ some h
      → Serves N h header t
      → All (IsDelivered (all_manifests g doc)) t
  Serves-IsDelivered N g doc name h header t n valid made runs = delivered t (
      Serves-IsCallOf N (λ r. Defines g.services r.service_name) h header t n
        (script-AllRequests (Defines g.services) h.service.script (
          first-All (λ s. IsScript (Defines g.services) s.script) ((handler_iff g name h).0 made).0
            valid))
        runs)
    where
      event :
          (e : Event)
          → IsCallOf (λ r. Defines g.services r.service_name) header e
          → IsDelivered (all_manifests g doc) e
      event (Event.sent q) (r, defined, method, url, size, headers) =
          let (s, e, found) = Defines-HasManifests 2 g.services defined in
          let (m, k, d) = found in
          subst (IsRouted (all_manifests g doc)) (sym url) (
            routed (all_manifests g doc) s r.service_name e (
              m,
              inr (inr (Any-append_left _ (two_each 2 g.services) _ k)),
              inr (inr (Any-append_left _ (two_each 2 g.services) _ d)),
            ))
      event Event.received h = tt
      event (Event.slept d) h = tt
      event (Event.refused e) h = tt
      event (Event.unanswered name) h = tt
      event (Event.answered name status) h = tt
      event (Event.recorded_sent name size) h = tt
      event (Event.drained name) h = tt
      event (Event.responded status) h = tt
      event (Event.recorded_response size status) h = tt

      delivered :
          (t : Trace)
          → All (IsCallOf (λ r. Defines g.services r.service_name) header) t
          → All (IsDelivered (all_manifests g doc)) t
      delivered [] h = tt
      delivered (e ∷ t) h = (event e h.0, delivered t h.1)
