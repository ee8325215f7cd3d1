-- ===== src/Generators/ConfigMap/Services.antt =====
-- The tables of the node, of authentication, of the ports and of the limits in config.toml
-- (internal/controller/generators/configmap.go).
use cashu_operator.Generators.Names.{
  enabled_ldk, enabled_management, enabled_prometheus, ldk_port, management_port, metrics_port,
  ldk_webserver_port, orchard_management_rpc_tls_mount_path,
}
use cashu_operator.Generators.ConfigMap.Toml.{
  Table, Value, table_of, flag, set_number, listed, set_float, text, set_text, number, field_if,
  quoted, integer,
}
use cashu_operator.Api.{
  CashuMintSpec, LdkNodeConfig, AuthConfig, LimitsConfig, PrometheusConfig, default_listen_host,
  default_loopback_host, management_rpc_tls_enabled,
}
use cashu_operator.Common.{
  Option, List, String, some, ◌∷◌, none, if◌then◌else◌, [], true, or_text, through,
}

abbrev addresses : List String → Option Value
addresses [] = none
addresses (a ∷ r) = some (listed (a ∷ r))

-- `writeLDKNodeSection`
unfoldable pub ldk_node_table : Option LdkNodeConfig → Table
ldk_node_table node = table_of "ldk_node" (enabled_ldk node) (λ l.
    set_float "fee_percent" l.fee_percent
    ∷ (set_number "reserve_fee_min" l.reserve_fee_min
        ∷ (text "bitcoin_network" l.bitcoin_network
            ∷ (text "chain_source" l.chain_source_type
                ∷ (set_text "esplora_url" l.esplora_url
                    ∷ (("bitcoin_rpc_host", through (λ b. quoted b.host) l.bitcoin_rpc)
                        ∷ (("bitcoin_rpc_port", through (λ b. integer b.port) l.bitcoin_rpc)
                            ∷ (set_text "storage_dir_path" l.storage_dir_path
                                ∷ (set_text "log_dir_path" l.log_dir_path
                                    ∷ (text "ldk_node_host" (or_text l.host default_listen_host)
                                        ∷ (number "ldk_node_port" (ldk_port l)
                                            ∷ ((
                                              "announce_addresses",
                                              addresses l.announce_addresses,
                                            )
                                                ∷ (text "gossip_source" l.gossip_source_type
                                                    ∷ (set_text "rgs_url" l.rgs_url
                                                        ∷ (text "webserver_host" (
                                                            or_text l.webserver_host
                                                            default_loopback_host)
                                                            ∷ (number "webserver_port"
                                                            (ldk_webserver_port l)
                                                            ∷ []))))))))))))))))

abbrev enabled_auth : Option AuthConfig → Option AuthConfig
enabled_auth none = none
enabled_auth (some a) = if a.enabled then some a else none

-- `writeAuthSection`
unfoldable pub auth_table : Option AuthConfig → Table
auth_table auth = table_of "auth" (enabled_auth auth) (λ a.
    ("auth_enabled", some (flag true))
    ∷ (set_text "openid_discovery" a.openid_discovery
        ∷ (set_text "openid_client_id" a.openid_client_id
            ∷ (set_number "mint_max_bat" a.mint_max_bat
                ∷ (set_text "mint" a.mint
                    ∷ (set_text "get_mint_quote" a.get_mint_quote
                        ∷ (set_text "check_mint_quote" a.check_mint_quote
                            ∷ (set_text "melt" a.melt
                                ∷ (set_text "get_melt_quote" a.get_melt_quote
                                    ∷ (set_text "check_melt_quote" a.check_melt_quote
                                        ∷ (set_text "swap" a.swap
                                            ∷ (set_text "restore" a.restore
                                                ∷ (set_text "check_proof_state" a.check_proof_state
                                                    ∷ [])))))))))))))

-- `writeManagementRPCSection`
unfoldable pub management_rpc_table : CashuMintSpec → Table
management_rpc_table s = table_of "mint_management_rpc" (enabled_management s.management_rpc) (λ r.
    ("enabled", some (flag true))
    ∷ (text "address" (or_text r.address default_loopback_host)
        ∷ (number "port" (management_port r)
            ∷ (field_if (management_rpc_tls_enabled s) "tls_dir_path"
                  (quoted orchard_management_rpc_tls_mount_path)
                ∷ []))))

-- `writeLimitsSection`
unfoldable pub limits_table : Option LimitsConfig → Table
limits_table limits =
    table_of "limits" limits
      (λ l. set_number "max_inputs" l.max_inputs ∷ (set_number "max_outputs" l.max_outputs ∷ []))

-- `writePrometheusSection`
unfoldable pub prometheus_table : Option PrometheusConfig → Table
prometheus_table prometheus = table_of "prometheus" (enabled_prometheus prometheus) (λ p.
    ("enabled", some (flag true))
    ∷ (text "address" (or_text p.address default_listen_host)
        ∷ (number "port" (metrics_port p) ∷ [])))
