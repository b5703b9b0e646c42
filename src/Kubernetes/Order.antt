-- ===== src/Kubernetes/Order.antt =====
-- The manifests of the document, in order.
use mathlib.Core.List.{append_assoc, append-nil}
use isotope.Base.{
  ℕ, ◌+◌, ◌*◌, some, String, ◌≡◌, refl, ap, sym, ◌∙◌, List, [], ◌∷◌, ◌++◌, map, length,
  length-append, arith,
}
use isotope.Base.Dict.{Dict}
use isotope.Base.Result.{ok, >>=-of-ok}
use isotope.Consts.{service_graph_namespace, service_graph_config_map_key}
use isotope.Graph.{ServiceGraph}
use isotope.Graph.Svc.{Service}
use isotope.Kubernetes.{
  service_graph_config_name, service_graph_app_labels, make_service_graph_namespace,
  make_config_map, make_service, make_deployment, make_fortio_service, make_fortio_deployment, join,
  append_manifest, append_services, service_graph_to_kubernetes_manifests,
}
use isotope.Kubernetes.Types.{Yaml, Manifest}

-- The config map that holds the text of the graph.
abbrev pub config_of : ℕ → String → Manifest
config_of now doc =
    Manifest.config_map
      (record {
        name = service_graph_config_name;
        namespace = service_graph_namespace;
        labels = service_graph_app_labels;
        annotations = [];
        creation_timestamp = some now;
      })
      ((service_graph_config_map_key, doc) ∷ [])

-- Each service takes three readings of the clock: the number of the next, from the n-th on.
abbrev pub reading : ℕ → List Service → ℕ
reading n [] = n
reading n (s ∷ services) = reading (n + 3) services

append_two :
    (xs : List String) (a b : String) (ys : List String)
    → (((xs ++ (a ∷ [])) ++ (b ∷ [])) ++ ys) ≡ (xs ++ (a ∷ (b ∷ ys)))
append_two xs a b ys = append_assoc (xs ++ (a ∷ [])) (b ∷ []) ys ∙ append_assoc xs (a ∷ []) (b ∷ ys)

module _ (node_selector : Dict String) (service_image max_idle : String)
    (client_node_selector : Dict String) (client_image : String) (now : ℕ → ℕ) where
  -- A deployment and a service for each service, with three readings of the clock from the n-th on.
  abbrev pub of_services : ℕ → List Service → List Manifest
  of_services n [] = []
  of_services n (s ∷ services) =
      Manifest.deployment
        (make_deployment (now n) (now (n + 1)) s node_selector service_image max_idle)
      ∷ Manifest.service (make_service (now (n + 2)) s)
      ∷ of_services (n + 3) services

  abbrev pub of_client : ℕ → List Manifest
  of_client n =
      Manifest.deployment
        (make_fortio_deployment (now n) (now (n + 1)) client_node_selector client_image)
      ∷ Manifest.service (make_fortio_service (now (n + 2)))
      ∷ []

  -- All manifests, for the text of the graph.
  abbrev pub manifests_of : ServiceGraph → String → List Manifest
  manifests_of g doc =
      make_service_graph_namespace (now 0)
      ∷ config_of (now 1) doc
      ∷ (of_services 2 g.services ++ of_client (reading 2 g.services))

  length-of_services :
      (n : ℕ) (services : List Service) → length (of_services n services) ≡ 2 * length services
  length-of_services n [] = refl
  length-of_services n (s ∷ services) = omega (arith, length-of_services (n + 3) services)

  map-client :
      (text : Manifest → String) (n m : ℕ) (services : List Service)
      → ((map text (of_services n services)
            ++ (text (
                  Manifest.deployment (
                    make_fortio_deployment (now m) (now (m + 1)) client_node_selector client_image))
                ∷ []))
          ++ (text (Manifest.service (make_fortio_service (now (m + 2)))) ∷ []))
        ≡ map text (of_services n services ++ of_client m)
  map-client text n m [] = refl
  map-client text n m (s ∷ services) =
      ap
        (λ r.
          text (
            Manifest.deployment
              (make_deployment (now n) (now (n + 1)) s node_selector service_image max_idle))
          ∷ (text (Manifest.service (make_service (now (n + 2)) s)) ∷ r))
        (map-client text (n + 3) m services)

module _ (node_selector : Dict String) (service_image max_idle : String)
    (client_node_selector : Dict String) (client_image : String) where
  module _ (Y : Yaml) (text : Manifest → String)
      (marshals : (m : Manifest) → Y.marshal m ≡ ok (text m)) where
    append_manifest-ok :
        (manifests : List String) (m : Manifest)
        → append_manifest Y node_selector service_image max_idle client_node_selector client_image
            manifests m
          ≡ ok (manifests ++ (text m ∷ []))
    unfolding append_manifest
    append_manifest-ok manifests m = >>=-of-ok _ (marshals m)

    append_services-ok :
        (n : ℕ) (services : List Service) (manifests : List String)
        → append_services Y node_selector service_image max_idle client_node_selector client_image n
            services manifests
          ≡ ok (
            manifests
                ++ map text (
                    of_services node_selector service_image max_idle client_node_selector
                      client_image Y.now n services),
            reading n services,
          )
    unfolding append_services
    append_services-ok n [] manifests = ap (λ ms. ok (ms, n)) (sym (append-nil manifests))
    append_services-ok n (s ∷ services) manifests =
        >>=-of-ok _ (append_manifest-ok manifests _)
        ∙ >>=-of-ok _ (append_manifest-ok _ _)
        ∙ append_services-ok (n + 3) services _
        ∙ ap (λ ms. ok (ms, reading (n + 3) services)) (append_two manifests _ _ _)

  -- Where the graph and each manifest have a YAML text, the document has those of the namespace,
  -- of the config map with the graph, of a deployment and a service for each service in order,
  -- and of the client, with a line of dashes between each two: 4 and twice the number of services.
  -- Each is made with the next reading of the clock, and a deployment with the next two.
  pub manifests_in_order :
      (Y : Yaml) (text : Manifest → String) (g : ServiceGraph) (doc : String)
      → ((m : Manifest) → Y.marshal m ≡ ok (text m))
      → Y.marshal_graph g ≡ ok doc
      → (service_graph_to_kubernetes_manifests Y node_selector service_image max_idle
            client_node_selector client_image g
          ≡ ok (
              join "---\n" (
                map text (
                  manifests_of node_selector service_image max_idle client_node_selector
                    client_image Y.now g doc))))
        × (length (
              manifests_of node_selector service_image max_idle client_node_selector client_image
                Y.now g doc)
            ≡ 4 + 2 * length g.services)
  unfolding service_graph_to_kubernetes_manifests make_config_map
  manifests_in_order Y text g doc marshals h = (
    >>=-of-ok _ (append_manifest-ok Y text marshals [] _)
        ∙ >>=-of-ok _ (>>=-of-ok _ h)
        ∙ >>=-of-ok _ (append_manifest-ok Y text marshals _ _)
        ∙ >>=-of-ok _ (append_services-ok Y text marshals 2 g.services _)
        ∙ >>=-of-ok _ (append_manifest-ok Y text marshals _ _)
        ∙ >>=-of-ok _ (append_manifest-ok Y text marshals _ _)
        ∙ ap
            (λ rest. ok (
              join "---\n" (
                text (make_service_graph_namespace (Y.now 0))
                ∷ (text (config_of (Y.now 1) doc) ∷ rest))))
            (map-client node_selector service_image max_idle client_node_selector client_image Y.now
              text 2 _ g.services),
    omega (
      arith,
      length-append
          (of_services node_selector service_image max_idle client_node_selector client_image Y.now
            2 g.services)
          (of_client node_selector service_image max_idle client_node_selector client_image Y.now
            _),
      length-of_services node_selector service_image max_idle client_node_selector client_image
          Y.now 2 g.services,
    ),
  )
