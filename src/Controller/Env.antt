-- ===== src/Controller/Env.antt =====
-- What the reconciler meets: errors, the calls that it sends to the API server, and the parameters
-- that stand for the server, for controller-runtime and for the generators of manifests.
use cashu_operator.Common.Int.{ℤ}
use cashu_operator.Api.{CashuMint, Condition}
use cashu_operator.Common.{String, Option, List, Bool}

-- The `metav1.StatusReason`s that the controller tells apart; `no_match` is `meta.NoMatchError`.
pub data Reason : Type 0 where
  not_found conflict already_exists no_match other_reason : Reason

-- `api` is an error of the API server, `plain` one of `fmt.Errorf`, and `wrapped` one of
-- `fmt.Errorf("…: %w", err)`, through which the tests of apierrors look.
pub data Error : Type 0 where
  api : Reason → String → Error
  plain : String → Error
  wrapped : String → Error → Error

pub data Result {ℓ} (A : Type ℓ) : Type ℓ where
  ok : A → Result A
  err : Error → Result A

pub data Kind : Type 0 where
  mint_kind secret config_map deployment stateful_set service ingress certificate pvc : Kind
  cron_job job pod_monitor : Kind

-- A manifest: what it is, where it goes, and its serialised content.
pub record Object : Type 0 where
  pub kind : Kind
  pub namespace : String
  pub name : String
  pub body : String

pub data Call : Type 0 where
  get : Kind → String → String → Call
  create : Object → Call
  patch : Object → Call
  delete : Kind → String → String → Call
  update : CashuMint → Call
  update_status : CashuMint → Call

-- A call with the error that it met, if any.
pub record Exchange : Type 0 where
  pub call : Call
  pub failure : Option Error

-- The exchanges so far, the latest first.
abbrev pub Trace : Type 0
Trace = List Exchange

-- The objects that are read back, as far as the controller looks into them.
pub record Secret : Type 0 where
  pub entries : List (String × String)

pub record ConfigMap : Type 0 where
  pub name : String
  pub entries : Option (List (String × String))

pub record Deployment : Type 0 where
  pub name : String
  pub replicas : Option ℤ
  pub ready_replicas : ℤ
  pub updated_replicas : ℤ
  pub available_replicas : ℤ

pub record StatefulSet : Type 0 where
  pub replicas : Option ℤ
  pub ready_replicas : ℤ
  pub current_replicas : ℤ
  pub updated_replicas : ℤ

pub record Ingress : Type 0 where
  pub name : String
  pub is_assigned : Bool
  pub has_tls : Bool

-- The answers of the API server, which may depend on all that went before in any way: other
-- clients may have changed the cluster between two calls.
pub record Server : Type 0 where
  pub get_mint : Trace → String → String → Result CashuMint
  pub get_secret : Trace → String → String → Result Secret
  pub get_config_map : Trace → String → String → Result ConfigMap
  pub get_deployment : Trace → String → String → Result Deployment
  pub get_service : Trace → String → String → Result String
  pub get_ingress : Trace → String → String → Result Ingress
  pub write : Trace → Call → Option Error
  pub patched_stateful_set : Trace → Object → StatefulSet

-- `meta.SetStatusCondition`, the finalizer helpers of controllerutil, and SHA-256 in hexadecimal.
pub record Library : Type 0 where
  pub set_status_condition : List Condition → Condition → List Condition
  pub contains_finalizer : List String → String → Bool
  pub add_finalizer : List String → String → List String
  pub remove_finalizer : List String → String → List String
  pub sha256_hex : String → String

-- internal/controller/generators; `none` is a nil manifest.
pub record Generators : Type 0 where
  pub mnemonic_secret : CashuMint → Result Object
  pub postgres_secret : CashuMint → Result (Option Object)
  pub postgres_service : CashuMint → Result (Option Object)
  pub postgres_stateful_set : CashuMint → Result (Option Object)
  pub postgres_backup_cron_job : CashuMint → Result (Option Object)
  pub postgres_restore_job : CashuMint → Result (Option Object)
  pub management_rpc_tls_secret : CashuMint → Result (Option Object)
  pub config_map_object : CashuMint → String → Result Object
  pub pvc_object : CashuMint → Result (Option Object)
  pub orchard_pvc : CashuMint → Result (Option Object)
  pub deployment_object : CashuMint → String → Result Object
  pub service_object : CashuMint → Result Object
  pub orchard_service : CashuMint → Result (Option Object)
  pub pod_monitor_object : CashuMint → Result (Option Object)
  pub ingress_object : CashuMint → Result (Option Object)
  pub orchard_ingress : CashuMint → Result (Option Object)
  pub certificate_object : CashuMint → Result (Option Object)
  pub orchard_certificate : CashuMint → Result (Option Object)

pub record Env : Type 0 where
  pub server : Server
  pub library : Library
  pub generators : Generators
