-- ===== src/Defaulting/Orchard.antt =====
-- `defaultOrchard` (api/v1alpha1/cashumint_webhook.go). The enabled case is cut into the steps
-- that read or write something beside the Orchard configuration itself.
use cashu_operator.Common.{
  String, Bool, true, none, some, if◌then◌else◌, or_some, or_value, or_text, through,
}
use cashu_operator.Common.Int.{pos, or_port}
use cashu_operator.Api.{
  default_listen_host, default_loopback_host, default_storage_size, ServiceConfig, StorageConfig,
  OrchardMintRpcConfig, OrchardMintConfig, OrchardBitcoinConfig, OrchardTaprootAssetsConfig,
  OrchardConfig, ManagementRpcConfig, CashuMintSpec, default_orchard_image,
  management_rpc_tls_enabled,
}
use cashu_operator.Defaulting.Basics.{default_ingress_config}

-- `&StorageConfig{}`, `&ServiceConfig{}` and `&OrchardMintConfig{}`
abbrev empty_storage : StorageConfig
empty_storage = record { size = ""; storage_class_name = none }

abbrev empty_service : ServiceConfig
empty_service = record { type = ""; annotations = none; load_balancer_ip = "" }

abbrev pub empty_orchard_mint : OrchardMintConfig
empty_orchard_mint = record {
  type = "";
  api = "";
  database = "";
  database_ca_secret_ref = none;
  database_cert_secret_ref = none;
  database_key_secret_ref = none;
  rpc = none;
}

-- `&ManagementRPCConfig{Enabled: true}`
abbrev pub enabled_management_rpc : ManagementRpcConfig
enabled_management_rpc = record {
  enabled = true;
  address = "";
  port = pos 0;
  tls_secret_ref = none;
}

unfoldable pub sized : StorageConfig → StorageConfig
sized c = record c { size = or_text c.size default_storage_size }

unfoldable pub typed : ServiceConfig → ServiceConfig
typed c = record c { type = or_text c.type "ClusterIP" }

-- `mtls` is `ManagementRPCTLSEnabled` of the spec.
unfoldable pub default_orchard_rpc : Bool → OrchardMintRpcConfig → OrchardMintRpcConfig
default_orchard_rpc mtls r = record {
  host = or_text r.host default_loopback_host;
  port = or_port r.port (pos 8086);
  mtls = or_some r.mtls mtls;
}

unfoldable pub default_orchard_mint : Bool → OrchardMintConfig → OrchardMintConfig
default_orchard_mint mtls m = record m {
  type = or_text m.type "cdk";
  rpc = through (default_orchard_rpc mtls) m.rpc;
}

unfoldable pub default_bitcoin : OrchardBitcoinConfig → OrchardBitcoinConfig
default_bitcoin b = record b { type = or_text b.type "core" }

unfoldable pub default_taproot_assets : OrchardTaprootAssetsConfig → OrchardTaprootAssetsConfig
default_taproot_assets t = record t { type = or_text t.type "tapd" }

-- The writes to `r.Spec.Orchard`, given the engine and `ManagementRPCTLSEnabled`.
unfoldable pub default_enabled_orchard : String → Bool → OrchardConfig → OrchardConfig
default_enabled_orchard engine mtls o = record o {
  image = or_text o.image (default_orchard_image engine);
  image_pull_policy = or_text o.image_pull_policy "IfNotPresent";
  host = or_text o.host default_listen_host;
  port = or_port o.port (pos 3321);
  base_path = or_text o.base_path "api";
  log_level = or_text o.log_level "warn";
  throttle_ttl = or_some o.throttle_ttl (pos 60000);
  throttle_limit = or_some o.throttle_limit (pos 20);
  storage = some (sized (or_value o.storage empty_storage));
  service = some (typed (or_value o.service empty_service));
  ingress = through default_ingress_config o.ingress;
  mint = some (default_orchard_mint mtls (or_value o.mint empty_orchard_mint));
  bitcoin = through default_bitcoin o.bitcoin;
  taproot_assets = through default_taproot_assets o.taproot_assets;
}

-- `defaultOrchard`: the management RPC is switched on before the TLS test reads it.
unfoldable pub default_orchard : CashuMintSpec → CashuMintSpec
default_orchard s = elim s.orchard [
  | none ↦ s
  | some o ↦
      let t : CashuMintSpec = record s {
        management_rpc = or_some s.management_rpc enabled_management_rpc;
      } in
      if o.enabled
      then record t {
        orchard = some (default_enabled_orchard s.database.engine (management_rpc_tls_enabled t) o);
      }
      else s
]
