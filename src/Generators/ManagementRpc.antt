-- ===== src/Generators/ManagementRpc.antt =====
-- internal/controller/generators/management_rpc.go: the secret of the management endpoint.
pub mod Bundle
pub mod Signed
use cashu_operator.Generators.ManagementRpc.Bundle.{generate_management_rpc_tls_bundle}
use cashu_operator.Generators.Names.{component_labels}
use cashu_operator.Common.{Option, if◌then◌else◌, none, not, some}
use cashu_operator.Controller.Env.{Result, ok, err, secret}
use cashu_operator.Generators.X509.{Crypto}
use cashu_operator.Generators.Manifest.{OwnerError, Labels, SecretManifest, owned_some}
use cashu_operator.Api.{CashuMint, management_rpc_tls_secret_name, management_rpc_tls_enabled}

unfoldable pub tls_secret_manifest : CashuMint → Labels → SecretManifest
tls_secret_manifest m bundle = record {
  meta = record {
    name = management_rpc_tls_secret_name m.spec m.metadata.name;
    namespace = m.metadata.namespace;
    labels = component_labels "cashu-mint" "management-rpc-tls" m;
    annotations = none;
    owner = some m.metadata.name;
  };
  string_data = bundle;
}

-- `GenerateManagementRPCTLSSecret`
unfoldable pub generate_management_rpc_tls_secret :
    OwnerError → Crypto → CashuMint → Result (Option SecretManifest)
generate_management_rpc_tls_secret owner_error crypto m =
    if not (management_rpc_tls_enabled m.spec)
    then ok none
    else elim (generate_management_rpc_tls_bundle crypto) [
      | err e ↦ err e
      | ok bundle ↦ owned_some owner_error secret m (tls_secret_manifest m bundle)
    ]
