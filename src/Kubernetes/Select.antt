-- ===== src/Kubernetes/Select.antt =====
-- Which pods a selector selects.
use mathlib.Core.Path.{subst}
use isotope.Base.{
  true, false, Option, Bool-cases, ◌⊎◌, inl, inr, ℕ, String, ◌==◌, eq_iff, ◌≡◌, ◌↔◌, refl, some,
  none, arith,
}
use isotope.Base.Dict.{Dict, lookup, insert}
use isotope.Graph.Svc.{Service}
use isotope.Kubernetes.{
  make_service, make_deployment, make_fortio_service, make_fortio_deployment, combine_labels,
}

-- The labels have each of the selector's keys, with its value.
abbrev pub Selects : Dict String → Dict String → Type 0
Selects selector labels =
    (key value : String) → lookup selector key ≡ some value → lookup labels key ≡ some value

role_or_name : (key : String) → ("name" == key) ≡ true → ("role" == key) ≡ false
role_or_name key h = subst (λ k. ("role" == k) ≡ false) ((eq_iff "name" key).0 h) refl

-- The Kubernetes service of a service selects the pods of the deployments of its name, and only
-- those. It does not select the client's pods, and the client's service not those of a service.
pub select_iff :
    (at deployed_at pod_at : ℕ) (s t : Service) (node_selector client_selector : Dict String)
    (image max_idle client_image : String)
    → (Selects
          (make_service at s).selector
          (make_deployment deployed_at pod_at t node_selector image max_idle).template.labels
        ↔ (s.name ≡ t.name))
      × (Selects
            (make_service at s).selector
            (make_fortio_deployment deployed_at pod_at client_selector client_image).template.labels
          → ⊥)
      × (Selects
            (make_fortio_service at).selector
            (make_deployment deployed_at pod_at t node_selector image max_idle).template.labels
          → ⊥)
unfolding make_service make_deployment make_fortio_service make_fortio_deployment combine_labels
    lookup insert
select_iff at deployed_at pod_at s t node_selector client_selector image max_idle client_image = (
  (
    (λ h. same (h "name" s.name refl)),
    (λ e key value h. selected e key value (Bool-cases ("name" == key)) h),
  ),
  (λ h. absurd (missing (h "name" s.name refl))),
  (λ h. absurd (missing (h "app" "client" refl))),
)
  where
    same : ◌≡◌ {A = Option String} (some t.name) (some s.name) → s.name ≡ t.name
    same e = ground (arith, e)

    missing : {value : String} → ◌≡◌ {A = Option String} none (some value) → ⊥
    missing e = ground (arith, e)

    selected :
        s.name ≡ t.name
        → (key value : String) → (("name" == key) ≡ true) ⊎ (("name" == key) ≡ false)
        → lookup (make_service at s).selector key ≡ some value
        → lookup
            (make_deployment deployed_at pod_at t node_selector image max_idle).template.labels
            key
          ≡ some value
    selected e key value (inl yes_name) h = ground (arith, role_or_name key yes_name)
    selected e key value (inr no_name) h = absurd (ground arith)
