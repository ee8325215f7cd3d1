-- ===== src/Generators/ConfigMap.antt =====
-- internal/controller/generators/configmap.go. The code writes its tables into a buffer one after
-- the other; here every writer gives the tables that it writes, in that order.
pub mod Toml
pub mod Info
pub mod Database
pub mod Payment
pub mod Services
pub mod Distinct
pub mod WellFormed
pub mod Outline
pub mod TextOutline
pub mod TextWellFormed
pub mod Entries
pub mod ReadBack
use cashu_operator.Generators.ConfigMap.Services.{
  ldk_node_table, auth_table, management_rpc_table, limits_table, prometheus_table,
}
use cashu_operator.Generators.ConfigMap.Payment.{payment_backend_tables}
use cashu_operator.Generators.ConfigMap.Database.{database_tables}
use cashu_operator.Generators.Names.{component_labels}
use cashu_operator.Generators.ConfigMap.Info.{info_tables, mint_info_table}
use cashu_operator.Generators.ConfigMap.Toml.{Table, document_text, value_text}
use cashu_operator.Controller.Env.{Result, config_map}
use cashu_operator.Generators.Manifest.{ConfigMapManifest, owned}
use cashu_operator.Generators.Machinery.{Machinery}
use cashu_operator.Common.{String, List, ℕ, ◌<>◌, ◌++◌, none, some, ◌∷◌, []}
use cashu_operator.Api.{CashuMint}

-- The tables that `generateConfigToml` writes.
unfoldable pub config_tables : CashuMint → String → List Table
config_tables m password =
    info_tables m.spec
    ++ (mint_info_table m.spec.mint_info
        ∷ (database_tables m password
            ++ (payment_backend_tables m.spec.payment_backend
                ++ (ldk_node_table m.spec.ldk_node
                    ∷ (auth_table m.spec.auth
                        ∷ (management_rpc_table m.spec
                            ∷ (limits_table m.spec.limits
                                ∷ (prometheus_table m.spec.prometheus ∷ []))))))))

-- `generateConfigToml`
unfoldable pub generate_config_toml : (String → String) → (ℕ → String) → CashuMint → String → String
generate_config_toml quote format_float m password =
    document_text (value_text quote format_float) (config_tables m password)

unfoldable pub config_map_manifest : CashuMint → String → ConfigMapManifest
config_map_manifest m toml = record {
  meta = record {
    name = m.metadata.name <> "-config";
    namespace = m.metadata.namespace;
    labels = component_labels "cashu-mint" "config" m;
    annotations = none;
    owner = some m.metadata.name;
  };
  entries = ("config.toml", toml) ∷ [];
}

-- `GenerateConfigMap`
unfoldable pub generate_config_map : Machinery → CashuMint → String → Result ConfigMapManifest
generate_config_map e m password =
    owned e.owner_error config_map m
      (config_map_manifest m (generate_config_toml e.quote e.format_float m password))
