-- ===== src/Graph/Svc/Defaults.antt =====
-- The settings that the object of a service omits, for svc.Service.UnmarshalJSON.
use isotope.Base.{String, ◌≡◌, refl, false, arith}
use isotope.Base.Result.{ok, >>=-eq-ok}
use isotope.Runtime.{Runtime}
use isotope.Json.{Json, Fields, object}
use isotope.Json.Decode.{into_struct, decode_fields, same_key}
use isotope.Json.Decode.Keeps.{Reads, Reads-fields_without, finish-Reads, has_key}
use isotope.Graph.Svc.{Service}
use isotope.Graph.Svc.Unmarshal.{Globals, set_service_field, named, unmarshal_json}

-- The service has the default's setting wherever the object has no key for it.
pub record Inherits (default : Service) (fs : Fields) (s : Service) : Type 0 where
  pub type : has_key "type" fs ≡ false → s.type ≡ default.type
  pub num_replicas : has_key "numReplicas" fs ≡ false → s.num_replicas ≡ default.num_replicas
  pub is_entrypoint : has_key "isEntrypoint" fs ≡ false → s.is_entrypoint ≡ default.is_entrypoint
  pub error_rate : has_key "errorRate" fs ≡ false → s.error_rate ≡ default.error_rate
  pub response_size : has_key "responseSize" fs ≡ false → s.response_size ≡ default.response_size
  pub script : has_key "script" fs ≡ false → s.script ≡ default.script

module _ (R : Runtime) (g : Globals) where
  keeps_type :
      (s : Service) (k : String) (v : Json)
      → same_key k "type" ≡ false
      → s.type ≡ g.default_service.type
      → Reads (λ s. s.type ≡ g.default_service.type) (set_service_field R g s k v)
  unfolding set_service_field
  keeps_type s k v n h = ground arith

  keeps_num_replicas :
      (s : Service) (k : String) (v : Json)
      → same_key k "numReplicas" ≡ false
      → s.num_replicas ≡ g.default_service.num_replicas
      → Reads (λ s. s.num_replicas ≡ g.default_service.num_replicas) (set_service_field R g s k v)
  unfolding set_service_field
  keeps_num_replicas s k v n h = ground arith

  keeps_is_entrypoint :
      (s : Service) (k : String) (v : Json)
      → same_key k "isEntrypoint" ≡ false
      → s.is_entrypoint ≡ g.default_service.is_entrypoint
      → Reads (λ s. s.is_entrypoint ≡ g.default_service.is_entrypoint) (set_service_field R g s k v)
  unfolding set_service_field
  keeps_is_entrypoint s k v n h = ground arith

  keeps_error_rate :
      (s : Service) (k : String) (v : Json)
      → same_key k "errorRate" ≡ false
      → s.error_rate ≡ g.default_service.error_rate
      → Reads (λ s. s.error_rate ≡ g.default_service.error_rate) (set_service_field R g s k v)
  unfolding set_service_field
  keeps_error_rate s k v n h = ground arith

  keeps_response_size :
      (s : Service) (k : String) (v : Json)
      → same_key k "responseSize" ≡ false
      → s.response_size ≡ g.default_service.response_size
      → Reads (λ s. s.response_size ≡ g.default_service.response_size) (set_service_field R g s k v)
  unfolding set_service_field
  keeps_response_size s k v n h = ground arith

  keeps_script :
      (s : Service) (k : String) (v : Json)
      → same_key k "script" ≡ false
      → s.script ≡ g.default_service.script
      → Reads (λ s. s.script ≡ g.default_service.script) (set_service_field R g s k v)
  unfolding set_service_field
  keeps_script s k v n h = ground arith

  read-keeps :
      (P : Service → Type 0) (name : String) (fs : Fields) {s : Service}
      → ((s : Service) (k : String) (v : Json)
          → same_key k name ≡ false
          → P s
          → Reads P (set_service_field R g s k v))
      → P g.default_service
      → into_struct
          (set_service_field R g)
          "svc.unmarshallableService"
          g.default_service
          (object fs)
        ≡ ok s
      → has_key name fs ≡ false
      → P s
  unfolding into_struct
  read-keeps P name fs step h e n =
      finish-Reads P (decode_fields (set_service_field R g) g.default_service fs)
        (Reads-fields_without P (set_service_field R g) name step g.default_service fs n h) e

  named-eq : (s : Service) {s' : Service} → named R g s ≡ ok s' → s ≡ s'
  unfolding named
  named-eq s h = ground arith

  -- An accepted object gives a service in which each setting that the object has no key for, in
  -- whatever case, is that of the default service.
  pub unmarshal_json-Inherits :
      (fs : Fields) (s : Service)
      → unmarshal_json R g (object fs) ≡ ok s
      → Inherits g.default_service fs s
  unfolding unmarshal_json
  unmarshal_json-Inherits fs s e =
      let (s', u, k) =
        >>=-eq-ok
          (into_struct (set_service_field R g) "svc.unmarshallableService" g.default_service
            (object fs))
          (named R g) e in
      rw (← named-eq s' k) (record {
        type = read-keeps (λ s. s.type ≡ g.default_service.type) "type" fs keeps_type refl u;
        num_replicas =
            read-keeps (λ s. s.num_replicas ≡ g.default_service.num_replicas) "numReplicas" fs
              keeps_num_replicas refl u;
        is_entrypoint =
            read-keeps (λ s. s.is_entrypoint ≡ g.default_service.is_entrypoint) "isEntrypoint" fs
              keeps_is_entrypoint refl u;
        error_rate =
            read-keeps (λ s. s.error_rate ≡ g.default_service.error_rate) "errorRate" fs
              keeps_error_rate refl u;
        response_size =
            read-keeps (λ s. s.response_size ≡ g.default_service.response_size) "responseSize" fs
              keeps_response_size refl u;
        script =
            read-keeps (λ s. s.script ≡ g.default_service.script) "script" fs keeps_script refl u;
      })
