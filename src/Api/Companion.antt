-- ===== src/Api/Companion.antt =====
-- Ingress, service and storage settings, and the Orchard companion
-- (api/v1alpha1/cashumint_types.go).
use cashu_operator.Common.{String, Bool, Option, List}
use cashu_operator.Common.Int.{ℤ}
use cashu_operator.Api.Kube.{SecretKeySelector, ResourceRequirements, SecurityContext, EnvVar}

pub record CertManagerConfig : Type 0 where
  pub enabled : Bool
  pub issuer_name : String
  pub issuer_kind : String

pub record IngressTlsConfig : Type 0 where
  pub enabled : Bool
  pub secret_name : String
  pub cert_manager : Option CertManagerConfig

pub record IngressConfig : Type 0 where
  pub enabled : Bool
  pub class_name : String
  pub host : String
  pub tls : Option IngressTlsConfig
  pub annotations : Option (List (String × String))

pub record ServiceConfig : Type 0 where
  pub type : String
  pub annotations : Option (List (String × String))
  pub load_balancer_ip : String

pub record StorageConfig : Type 0 where
  pub size : String
  pub storage_class_name : Option String

pub record OrchardMintRpcConfig : Type 0 where
  pub host : String
  pub port : ℤ
  pub mtls : Option Bool

pub record OrchardMintConfig : Type 0 where
  pub type : String
  pub api : String
  pub database : String
  pub database_ca_secret_ref : Option SecretKeySelector
  pub database_cert_secret_ref : Option SecretKeySelector
  pub database_key_secret_ref : Option SecretKeySelector
  pub rpc : Option OrchardMintRpcConfig

pub record OrchardBitcoinConfig : Type 0 where
  pub type : String
  pub rpc_host : String
  pub rpc_port : ℤ
  pub rpc_user_secret_ref : Option SecretKeySelector
  pub rpc_password_secret_ref : Option SecretKeySelector

pub record OrchardLightningConfig : Type 0 where
  pub type : String
  pub rpc_host : String
  pub rpc_port : ℤ
  pub macaroon_secret_ref : Option SecretKeySelector
  pub cert_secret_ref : Option SecretKeySelector
  pub key_secret_ref : Option SecretKeySelector
  pub ca_secret_ref : Option SecretKeySelector

pub record OrchardTaprootAssetsConfig : Type 0 where
  pub type : String
  pub rpc_host : String
  pub rpc_port : ℤ
  pub macaroon_secret_ref : Option SecretKeySelector
  pub cert_secret_ref : Option SecretKeySelector

pub record OrchardAiConfig : Type 0 where
  pub api : String

pub record OrchardConfig : Type 0 where
  pub enabled : Bool
  pub image : String
  pub image_pull_policy : String
  pub host : String
  pub port : ℤ
  pub base_path : String
  pub log_level : String
  pub setup_key_secret_ref : Option SecretKeySelector
  pub throttle_ttl : Option ℤ
  pub throttle_limit : Option ℤ
  pub proxy : String
  pub compression : Option Bool
  pub mint : Option OrchardMintConfig
  pub bitcoin : Option OrchardBitcoinConfig
  pub lightning : Option OrchardLightningConfig
  pub taproot_assets : Option OrchardTaprootAssetsConfig
  pub ai : Option OrchardAiConfig
  pub service : Option ServiceConfig
  pub ingress : Option IngressConfig
  pub storage : Option StorageConfig
  pub resources : Option ResourceRequirements
  pub container_security_context : Option SecurityContext
  pub extra_env : List EnvVar
