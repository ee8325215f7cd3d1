-- ===== src/Api/Kube.antt =====
-- The Kubernetes types that api/v1alpha1/cashumint_types.go names, as far as the operator reads
-- them, and the default values that the API package declares.
use cashu_operator.Common.{String, Option, List, Bool}
use cashu_operator.Common.Int.{ℤ, pos}

-- `corev1.SecretKeySelector`
pub record SecretKeySelector : Type 0 where
  pub name : String
  pub key : String

-- `corev1.LocalObjectReference`
pub record LocalObjectReference : Type 0 where
  pub name : String

-- `corev1.EnvVarSource`, of which the operator sets a reference to a secret that may be nil.
pub record EnvVarSource : Type 0 where
  pub secret_key_ref : Option SecretKeySelector

-- `corev1.EnvVar`
pub record EnvVar : Type 0 where
  pub name : String
  pub value : String
  pub value_from : Option EnvVarSource

-- `corev1.PodSecurityContext` and `corev1.SecurityContext`, as far as the operator sets them;
-- `drop` is the list of dropped capabilities.
pub record PodSecurityContext : Type 0 where
  pub run_as_non_root : Option Bool
  pub run_as_user : Option ℤ
  pub fs_group : Option ℤ

pub record SecurityContext : Type 0 where
  pub allow_privilege_escalation : Option Bool
  pub read_only_root_filesystem : Option Bool
  pub run_as_non_root : Option Bool
  pub run_as_user : Option ℤ
  pub drop : List String

-- `corev1.Toleration` and `corev1.Affinity`, which the operator only passes on: the serialised text.
abbrev pub Toleration : Type 0
Toleration = String

abbrev pub Affinity : Type 0
Affinity = String

-- A `corev1.ResourceList`: quantities by resource name, each as its text.
abbrev pub ResourceList : Type 0
ResourceList = List (String × String)

-- `corev1.ResourceRequirements`; `none` is a nil map.
pub record ResourceRequirements : Type 0 where
  pub limits : Option ResourceList
  pub requests : Option ResourceList

abbrev pub database_engine_postgres : String
database_engine_postgres = "postgres"

abbrev pub database_engine_sqlite : String
database_engine_sqlite = "sqlite"

abbrev pub database_engine_redb : String
database_engine_redb = "redb"

abbrev pub default_listen_host : String
default_listen_host = "0.0.0.0"

abbrev pub default_loopback_host : String
default_loopback_host = "127.0.0.1"

abbrev pub default_storage_size : String
default_storage_size = "10Gi"

abbrev pub default_cluster_issuer_kind : String
default_cluster_issuer_kind = "ClusterIssuer"

abbrev pub default_ingress_class_name : String
default_ingress_class_name = "nginx"

abbrev pub default_mint_image : String
default_mint_image = "cashubtc/mintd:0.16"

abbrev pub default_orchard_sqlite_image : String
default_orchard_sqlite_image = "ghcr.io/cashubtc/orchard-mintdb-sqlite:1.8.1"

abbrev pub default_orchard_postgres_image : String
default_orchard_postgres_image = "ghcr.io/cashubtc/orchard-mintdb-postgres:1.8.1"

abbrev pub default_prometheus_port : ℤ
default_prometheus_port = pos 9000
