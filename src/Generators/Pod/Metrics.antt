-- ===== src/Generators/Pod/Metrics.antt =====
-- The port of the metrics, as podmonitor.go, deployment.go and configmap.go of
-- internal/controller/generators write it.
use cashu_operator.Generators.Pod.Ports.{made-owned}
use cashu_operator.Controller.Env.{pod_monitor, ok}
use cashu_operator.Generators.Manifest.{OwnerError, PodMonitorManifest}
use cashu_operator.Generators.ConfigMap.Services.{
  ldk_node_table, auth_table, management_rpc_table, limits_table, prometheus_table,
}
use cashu_operator.Generators.ConfigMap.Payment.{
  payment_backend_tables, ln_table, lnd_table, cln_table, lnbits_table, fake_wallet_table,
  grpc_processor_table,
}
use cashu_operator.Generators.ConfigMap.Database.{
  database_tables, database_table, postgres_table, auth_postgres_table,
}
use cashu_operator.Generators.Names.{metrics_port, enabled_prometheus, for_each}
use cashu_operator.Generators.ConfigMap.Info.{
  info_tables, info_table, mint_info_table, quote_ttl_table, http_cache_table, logging_table,
}
use cashu_operator.Generators.ConfigMap.Distinct.{slot_value, all_distinct, is_member, names}
use cashu_operator.Generators.ConfigMap.Entries.{plain_text, config_value, config_value-slot}
use cashu_operator.Generators.ConfigMap.{config_tables}
use cashu_operator.Common.Reading.{read_int, read_int-int_text}
use cashu_operator.Generators.ConfigMap.ReadBack.{open_port}
use cashu_operator.Generators.ConfigMap.Toml.{Field, flag, text, number}
use cashu_operator.Common.Int.{ℤ}
use cashu_operator.Generators.Deployment.Containers.{mint_container, mint_ports}
use cashu_operator.Generators.Service.{generate_pod_monitor}
use cashu_operator.Api.{CashuMint, PrometheusConfig, default_listen_host}
use cashu_operator.Common.{
  true, String, List, some, ◌≡◌, through, ◌∷◌, or_text, [], subst, ap, ◌∙◌, refl,
}

-- The port of the table in which config.toml sets the endpoint of the metrics, read as a decimal
-- number, and the container's port of a name are one number.
pub record IsMetricsPort (m : CashuMint) (password name : String) : Type 0 where
  pub number : ℤ
  pub is_open : open_port name (mint_container m).ports ≡ some number
  pub is_listened :
      through read_int
        (through plain_text (config_value (config_tables m password) "prometheus" "port"))
      ≡ some number

abbrev metrics_fields : PrometheusConfig → List Field
metrics_fields p =
    ("enabled", some (flag true))
    ∷ (text "address" (or_text p.address default_listen_host)
        ∷ (number "port" (metrics_port p) ∷ []))

-- Where a pod monitor is generated, the mint's container opens a port under the name that the
-- monitor reads, and it is the port at which config.toml, for every password, makes the mint serve
-- its metrics.
pub generate_pod_monitor-IsMetricsPort :
    (owner_error : OwnerError) (m : CashuMint) (password : String) (p : PodMonitorManifest)
    → generate_pod_monitor owner_error m ≡ ok (some p)
    → IsMetricsPort m password p.port
unfolding generate_pod_monitor mint_container mint_ports open_port through config_tables slot_value
    info_tables info_table mint_info_table database_tables database_table payment_backend_tables
    ln_table lnd_table cln_table lnbits_table fake_wallet_table grpc_processor_table quote_ttl_table
    http_cache_table logging_table postgres_table auth_postgres_table ldk_node_table auth_table
    management_rpc_table limits_table prometheus_table all_distinct is_member names for_each
generate_pod_monitor-IsMetricsPort owner_error m password p h =
    let (c, e, q) =
      made-owned owner_error pod_monitor m (enabled_prometheus m.spec.prometheus) _ p h in
    subst (λ p. IsMetricsPort m password p.port) q
      (record {
        number = metrics_port c;
        is_open = rw e refl;
        is_listened =
            ap (λ v. through read_int (through plain_text v))
              (config_value-slot m password "prometheus" "port" (metrics_fields c)
                (ap (through metrics_fields) e) refl)
            ∙ ap (λ z. some z) (read_int-int_text (metrics_port c));
      })
