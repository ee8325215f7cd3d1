-- ===== src/Generators/Manifest.antt =====
-- The Kubernetes objects that internal/controller/generators fills in.
use cashu_operator.Controller.Env.{Kind, Error, Result, ok, err, wrapped}
use cashu_operator.Api.{
  CashuMint, EnvVar, LocalObjectReference, ResourceRequirements, Toleration, SecurityContext,
  Affinity, PodSecurityContext,
}
use cashu_operator.Common.Int.{ℤ}
use cashu_operator.Common.{List, String, ℕ, Option, Bool, none, some}

abbrev pub Labels : Type 0
Labels = List (String × String)

-- `metav1.ObjectMeta`; `owner` is the name in the controller reference, where there is one.
pub record Meta : Type 0 where
  pub name : String
  pub namespace : String
  pub labels : Labels
  pub annotations : Option Labels
  pub owner : Option String

-- `intstr.IntOrString`
pub data TargetPort : Type 0 where
  by_name : String → TargetPort
  by_number : ℤ → TargetPort

-- The protocol is TCP everywhere; `none` is an empty target.
pub record ServicePort : Type 0 where
  pub name : String
  pub port : ℤ
  pub target : Option TargetPort

pub record ServiceManifest : Type 0 where
  pub meta : Meta
  pub type : String
  pub selector : Labels
  pub ports : List ServicePort
  pub cluster_ip : String
  pub load_balancer_ip : String

pub record IngressTls : Type 0 where
  pub hosts : List String
  pub secret_name : String

-- One rule with one path `/` of type Prefix.
pub record IngressManifest : Type 0 where
  pub meta : Meta
  pub class_name : String
  pub host : String
  pub service_name : String
  pub service_port : ℤ
  pub tls : List IngressTls

-- The access mode is ReadWriteOnce.
pub record PvcManifest : Type 0 where
  pub meta : Meta
  pub storage : String
  pub storage_class_name : Option String

-- Durations in hours; the issuer's group is cert-manager.io.
pub record CertificateManifest : Type 0 where
  pub meta : Meta
  pub secret_name : String
  pub dns_names : List String
  pub issuer_name : String
  pub issuer_kind : String
  pub duration : ℕ
  pub renew_before : ℕ
  pub usages : List String

pub record PodMonitorManifest : Type 0 where
  pub meta : Meta
  pub selector : Labels
  pub port : String
  pub path : String

pub record SecretManifest : Type 0 where
  pub meta : Meta
  pub string_data : Labels

pub record ConfigMapManifest : Type 0 where
  pub meta : Meta
  pub entries : Labels

pub record ContainerPort : Type 0 where
  pub name : String
  pub port : ℤ

pub record VolumeMount : Type 0 where
  pub name : String
  pub mount_path : String
  pub sub_path : String
  pub read_only : Bool

pub data VolumeSource : Type 0 where
  config_map_volume : String → VolumeSource
  claim_volume : String → VolumeSource
  secret_volume : String → VolumeSource
  empty_dir : VolumeSource

pub record Volume : Type 0 where
  pub name : String
  pub source : VolumeSource

pub data ProbeHandler : Type 0 where
  http_get : String → String → ProbeHandler
  tcp_socket : String → ProbeHandler
  exec : List String → ProbeHandler

-- `success_threshold` is 0 where it is not set.
pub record Probe : Type 0 where
  pub handler : ProbeHandler
  pub initial_delay : ℕ
  pub period : ℕ
  pub timeout : ℕ
  pub success_threshold : ℕ
  pub failure_threshold : ℕ

pub record Container : Type 0 where
  pub name : String
  pub image : String
  pub image_pull_policy : String
  pub command : List String
  pub args : List String
  pub ports : List ContainerPort
  pub env : List EnvVar
  pub volume_mounts : List VolumeMount
  pub resources : ResourceRequirements
  pub liveness_probe : Option Probe
  pub readiness_probe : Option Probe
  pub security_context : Option SecurityContext

pub record PodSpec : Type 0 where
  pub init_containers : List Container
  pub containers : List Container
  pub volumes : List Volume
  pub image_pull_secrets : List LocalObjectReference
  pub node_selector : Option Labels
  pub tolerations : List Toleration
  pub affinity : Option Affinity
  pub restart_policy : String
  pub security_context : Option PodSecurityContext

pub record PodTemplate : Type 0 where
  pub labels : Labels
  pub annotations : Option Labels
  pub spec : PodSpec

-- The strategy is a rolling update.
pub record DeploymentManifest : Type 0 where
  pub meta : Meta
  pub replicas : ℤ
  pub selector : Labels
  pub max_unavailable : ℕ
  pub max_surge : ℕ
  pub template : PodTemplate

pub record ClaimTemplate : Type 0 where
  pub name : String
  pub labels : Labels
  pub storage : String
  pub storage_class_name : Option String

pub record StatefulSetManifest : Type 0 where
  pub meta : Meta
  pub replicas : ℤ
  pub service_name : String
  pub selector : Labels
  pub template : PodTemplate
  pub claims : List ClaimTemplate

-- Jobs do not run at the same time as each other.
pub record CronJobManifest : Type 0 where
  pub meta : Meta
  pub schedule : String
  pub successful_history : ℤ
  pub failed_history : ℤ
  pub template : PodTemplate

pub record JobManifest : Type 0 where
  pub meta : Meta
  pub backoff_limit : ℤ
  pub ttl_seconds : ℤ
  pub template : PodTemplate

-- `controllerutil.SetControllerReference`: the error that it meets, if any, for a mint and an object
-- of a kind.
abbrev pub OwnerError : Type 0
OwnerError = CashuMint → Kind → Option Error

-- `if err := controllerutil.SetControllerReference(…); err != nil { return nil, … }`
abbrev pub owned {ℓ} : {A : Type ℓ} → OwnerError → Kind → CashuMint → A → Result A
owned owner_error k m o = elim (owner_error m k) [
  | none ↦ ok o
  | some e ↦ err (wrapped "failed to set controller reference" e)
]

abbrev pub owned_some {ℓ} : {A : Type ℓ} → OwnerError → Kind → CashuMint → A → Result (Option A)
owned_some owner_error k m o = elim (owner_error m k) [
  | none ↦ ok (some o)
  | some e ↦ err (wrapped "failed to set controller reference" e)
]
