-- ===== src/Tests/Kubernetes.antt =====
-- The Kubernetes manifests of three services.
use isotope.Base.{
  ℕ, Option, some, none, ◌+◌, ◌*◌, String, ◌<>◌, ◌≡◌, refl, ◌↔◌, [], ◌∷◌, map, length,
}
use isotope.Base.Dict.{Dict}
use isotope.Base.Result.{ok}
use isotope.Base.Text.{decimal}
use isotope.Kubernetes.{
  make_service, make_deployment, make_fortio_service, make_fortio_deployment, join,
  service_graph_to_kubernetes_manifests, append_manifest, append_services, make_config_map,
  make_service_graph_namespace,
}
use isotope.Kubernetes.Types.{Yaml, Manifest}
use isotope.Kubernetes.Order.{manifests_in_order, manifests_of}
use isotope.Kubernetes.Select.{select_iff, Selects}
use isotope.Tests.GraphTheorems.{three_services, service_a, service_b}

abbrev time_text : Option ℕ → String
time_text none = "\n"
time_text (some t) = " " <> (decimal t <> "\n")

abbrev short_text : Manifest → String
short_text (Manifest.namespace m) = "namespace" <> time_text m.creation_timestamp
short_text (Manifest.config_map m data_of_map) = "config" <> time_text m.creation_timestamp
short_text (Manifest.deployment d) =
    "deployment " <> (d.meta.name <> time_text d.meta.creation_timestamp)
short_text (Manifest.service s) = "service " <> (s.meta.name <> time_text s.meta.creation_timestamp)

abbrev short_yaml : Yaml
short_yaml = record {
  Err = String;
  marshal = λ m. ok (short_text m);
  marshal_graph = λ g. ok "graph";
  now = λ n. 100 + n;
}

abbrev node : Dict String
node = ("cloud.google.com/gke-nodepool", "pool") ∷ []

document :
    service_graph_to_kubernetes_manifests short_yaml node "image" "64" node "client" three_services
    ≡ ok
        "namespace 100\n---\nconfig 101\n---\ndeployment a 102\n---\nservice a 104\n---\ndeployment b 105\n---\nservice b 107\n---\ndeployment c 108\n---\nservice c 110\n---\ndeployment client 111\n---\nservice client 113\n"
unfolding service_graph_to_kubernetes_manifests append_manifest append_services make_config_map
    make_service_graph_namespace make_service make_deployment make_fortio_service
    make_fortio_deployment join decimal
document = refl

manifests_in_order_example :
    (service_graph_to_kubernetes_manifests short_yaml node "image" "64" node "client" three_services
      ≡ ok (
          join "---\n" (
            map short_text (
              manifests_of node "image" "64" node "client" short_yaml.now three_services "graph"))))
    × (length (manifests_of node "image" "64" node "client" short_yaml.now three_services "graph")
        ≡ 4 + 2 * length three_services.services)
manifests_in_order_example =
    manifests_in_order node "image" "64" node "client" short_yaml short_text three_services "graph"
      (λ m. refl) refl

select_iff_example :
    (Selects
        (make_service 1 service_a).selector
        (make_deployment 2 3 service_b node "image" "64").template.labels
      ↔ (service_a.name ≡ service_b.name))
    × (Selects
          (make_service 1 service_a).selector
          (make_fortio_deployment 2 3 node "client").template.labels
        → ⊥)
    × (Selects
          (make_fortio_service 1).selector
          (make_deployment 2 3 service_b node "image" "64").template.labels
        → ⊥)
select_iff_example = select_iff 1 2 3 service_a service_b node node "image" "64" "client"
