-- ===== src/Api/Backend.antt =====
-- The payment backends and the LDK node of a mint (api/v1alpha1/cashumint_types.go).
use cashu_operator.Common.{ℕ, String, Bool, Option, List}
use cashu_operator.Common.Int.{ℤ}
use cashu_operator.Api.Kube.{SecretKeySelector, ResourceRequirements, EnvVar}

pub record LndConfig : Type 0 where
  pub address : String
  pub macaroon_secret_ref : Option SecretKeySelector
  pub cert_secret_ref : Option SecretKeySelector
  pub fee_percent : Option ℕ
  pub reserve_fee_min : Option ℤ

pub record ClnConfig : Type 0 where
  pub rpc_path : String
  pub bolt12 : Option Bool
  pub fee_percent : Option ℕ
  pub reserve_fee_min : Option ℤ

pub record LnbitsConfig : Type 0 where
  pub api : String
  pub admin_api_key_secret_ref : SecretKeySelector
  pub invoice_api_key_secret_ref : SecretKeySelector
  pub retro_api : Bool
  pub fee_percent : Option ℕ
  pub reserve_fee_min : Option ℤ

pub record FakeWalletConfig : Type 0 where
  pub supported_units : List String
  pub fee_percent : Option ℕ
  pub reserve_fee_min : Option ℤ
  pub min_delay_time : Option ℤ
  pub max_delay_time : Option ℤ

pub record SidecarProcessorConfig : Type 0 where
  pub enabled : Bool
  pub image : String
  pub image_pull_policy : String
  pub command : List String
  pub args : List String
  pub env : List EnvVar
  pub working_dir : String
  pub resources : Option ResourceRequirements
  pub enable_tls : Bool
  pub tls_secret_ref : Option SecretKeySelector

pub record GrpcProcessorConfig : Type 0 where
  pub address : String
  pub port : ℤ
  pub supported_units : List String
  pub tls_secret_ref : Option SecretKeySelector
  pub sidecar_processor : Option SidecarProcessorConfig

pub record PaymentBackendConfig : Type 0 where
  pub min_mint : Option ℤ
  pub max_mint : Option ℤ
  pub min_melt : Option ℤ
  pub max_melt : Option ℤ
  pub lnd : Option LndConfig
  pub cln : Option ClnConfig
  pub lnbits : Option LnbitsConfig
  pub fake_wallet : Option FakeWalletConfig
  pub grpc_processor : Option GrpcProcessorConfig

pub record BitcoinRpcConfig : Type 0 where
  pub host : String
  pub port : ℤ
  pub user_secret_ref : SecretKeySelector
  pub password_secret_ref : SecretKeySelector

pub record LdkNodeConfig : Type 0 where
  pub enabled : Bool
  pub image : String
  pub fee_percent : Option ℕ
  pub reserve_fee_min : Option ℤ
  pub bitcoin_network : String
  pub chain_source_type : String
  pub esplora_url : String
  pub bitcoin_rpc : Option BitcoinRpcConfig
  pub storage_dir_path : String
  pub log_dir_path : String
  pub mnemonic_secret_ref : Option SecretKeySelector
  pub host : String
  pub port : ℤ
  pub announce_addresses : List String
  pub gossip_source_type : String
  pub rgs_url : String
  pub webserver_host : String
  pub webserver_port : ℤ
