-- ===== src/Api/Spec.antt =====
-- The desired state of a mint, `CashuMintSpec` (api/v1alpha1/cashumint_types.go).
use cashu_operator.Common.{String, Bool, Option, List}
use cashu_operator.Common.Int.{ℤ}
use cashu_operator.Api.Kube.{
  SecretKeySelector, LocalObjectReference, ResourceRequirements, Toleration, Affinity,
  PodSecurityContext, SecurityContext,
}
use cashu_operator.Api.Backend.{PaymentBackendConfig, LdkNodeConfig}
use cashu_operator.Api.Companion.{OrchardConfig, IngressConfig, ServiceConfig, StorageConfig}

pub record QuoteTtlConfig : Type 0 where
  pub mint_ttl : Option ℤ
  pub melt_ttl : Option ℤ

pub record MintInfo : Type 0 where
  pub url : String
  pub listen_host : String
  pub listen_port : ℤ
  pub mnemonic_secret_ref : Option SecretKeySelector
  pub auto_generate_mnemonic : Bool
  pub name : String
  pub description : String
  pub description_long : String
  pub motd : String
  pub pubkey_hex : String
  pub icon_url : String
  pub contact_email : String
  pub contact_nostr_pubkey : String
  pub tos_url : String
  pub input_fee_ppk : Option ℤ
  pub enable_swagger_ui : Bool
  pub use_keyset_v2 : Option Bool
  pub quote_ttl : Option QuoteTtlConfig

pub record PostgresAutoProvisionSpec : Type 0 where
  pub storage_size : String
  pub storage_class_name : Option String
  pub resources : Option ResourceRequirements
  pub version : String

pub record PostgresConfig : Type 0 where
  pub url : String
  pub url_secret_ref : Option SecretKeySelector
  pub tls_mode : String
  pub max_connections : Option ℤ
  pub connection_timeout_seconds : Option ℤ
  pub auto_provision : Bool
  pub auto_provision_spec : Option PostgresAutoProvisionSpec

pub record SqliteConfig : Type 0 where
  pub data_dir : String

pub record DatabaseConfig : Type 0 where
  pub engine : String
  pub postgres : Option PostgresConfig
  pub sqlite : Option SqliteConfig

pub record AuthDatabaseConfig : Type 0 where
  pub postgres : Option PostgresConfig

-- An `AuthLevel` is a text.
pub record AuthConfig : Type 0 where
  pub enabled : Bool
  pub openid_discovery : String
  pub openid_client_id : String
  pub mint_max_bat : Option ℤ
  pub mint : String
  pub get_mint_quote : String
  pub check_mint_quote : String
  pub melt : String
  pub get_melt_quote : String
  pub check_melt_quote : String
  pub swap : String
  pub restore : String
  pub check_proof_state : String
  pub database : Option AuthDatabaseConfig

pub record RedisCacheConfig : Type 0 where
  pub key_prefix : String
  pub connection_string : String
  pub connection_string_secret_ref : Option SecretKeySelector

pub record HttpCacheConfig : Type 0 where
  pub backend : String
  pub ttl : Option ℤ
  pub tti : Option ℤ
  pub redis : Option RedisCacheConfig

pub record ManagementRpcConfig : Type 0 where
  pub enabled : Bool
  pub address : String
  pub port : ℤ
  pub tls_secret_ref : Option LocalObjectReference

pub record PrometheusConfig : Type 0 where
  pub enabled : Bool
  pub address : String
  pub port : Option ℤ

pub record LimitsConfig : Type 0 where
  pub max_inputs : Option ℤ
  pub max_outputs : Option ℤ

pub record LoggingConfig : Type 0 where
  pub level : String
  pub file_level : String
  pub format : String

pub record S3BackupConfig : Type 0 where
  pub bucket : String
  pub prefix : String
  pub region : String
  pub endpoint : String
  pub access_key_id_secret_ref : SecretKeySelector
  pub secret_access_key_secret_ref : SecretKeySelector

pub record BackupConfig : Type 0 where
  pub enabled : Bool
  pub schedule : String
  pub retention_count : Option ℤ
  pub s3 : Option S3BackupConfig

pub record CashuMintSpec : Type 0 where
  pub image : String
  pub image_pull_policy : String
  pub image_pull_secrets : List LocalObjectReference
  pub replicas : Option ℤ
  pub mint_info : MintInfo
  pub database : DatabaseConfig
  pub payment_backend : PaymentBackendConfig
  pub ldk_node : Option LdkNodeConfig
  pub auth : Option AuthConfig
  pub http_cache : Option HttpCacheConfig
  pub management_rpc : Option ManagementRpcConfig
  pub orchard : Option OrchardConfig
  pub prometheus : Option PrometheusConfig
  pub limits : Option LimitsConfig
  pub ingress : Option IngressConfig
  pub service : Option ServiceConfig
  pub resources : Option ResourceRequirements
  pub node_selector : Option (List (String × String))
  pub tolerations : List Toleration
  pub affinity : Option Affinity
  pub pod_security_context : Option PodSecurityContext
  pub container_security_context : Option SecurityContext
  pub logging : Option LoggingConfig
  pub storage : Option StorageConfig
  pub backup : Option BackupConfig
