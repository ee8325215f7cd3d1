-- ===== src/Controller/Readiness.antt =====
-- internal/controller/helpers.go: the hash of the configuration and the tests of readiness.
use cashu_operator.Common.Int.{int_eq}
use cashu_operator.Controller.Env.{Deployment, StatefulSet, ConfigMap}
use cashu_operator.Common.{String, Bool, none, false, some, or_value, lookup, ◌&&◌}

-- `calculateConfigHash`; a map without `config.toml` has the hash of no bytes.
unfoldable pub calculate_config_hash : (String → String) → ConfigMap → String
calculate_config_hash sha256 m = elim m.entries [
  | none ↦ ""
  | some d ↦ sha256 (or_value (lookup "config.toml" d) "")
]

-- `isDeploymentReady`
unfoldable pub is_deployment_ready : Deployment → Bool
is_deployment_ready d = elim d.replicas [
  | none ↦ false
  | some desired ↦
      int_eq d.ready_replicas desired
      && (int_eq d.updated_replicas desired && int_eq d.available_replicas desired)
]

-- `isStatefulSetReady`
unfoldable pub is_stateful_set_ready : StatefulSet → Bool
is_stateful_set_ready s = elim s.replicas [
  | none ↦ false
  | some desired ↦
      int_eq s.ready_replicas desired
      && (int_eq s.current_replicas desired && int_eq s.updated_replicas desired)
]
