-- ===== src/Generators/Defaults.antt =====
-- The values that the generators fall back to, against those that Default fills in
-- (internal/controller/generators and api/v1alpha1/cashumint_webhook.go).
use cashu_operator.Defaulting.Database.{default_database}
use cashu_operator.Defaulting.Basics.{default_ingress, default_mint_info}
use cashu_operator.Defaulting.{default_spec}
use cashu_operator.Common.Int.{or_port_idem, pos, ℤ}
use cashu_operator.Defaulting.Operational.{
  default_management_rpc, default_prometheus, default_operational,
}
use cashu_operator.Generators.ConfigMap.Services.{prometheus_table}
use cashu_operator.Generators.ConfigMap.Toml.{Table}
use cashu_operator.Generators.Deployment.Containers.{mint_ports, metrics_container_port}
use cashu_operator.Defaulting.Payment.{default_ldk_node, default_payment_backend}
use cashu_operator.Generators.Service.{
  service_ports, ldk_service_ports, management_service_port, metrics_service_port,
}
use cashu_operator.Generators.Manifest.{ServicePort, ContainerPort, by_name}
use cashu_operator.Defaulting.Orchard.{default_orchard}
use cashu_operator.Generators.Names.{
  for_each, ldk_port, ldk_webserver_port, enabled_ldk, enabled_management, management_port,
  listen_port, enabled_prometheus, metrics_port, prometheus_metrics_port_name,
}
use cashu_operator.Api.{
  CashuMintSpec, orchard_enabled, ManagementRpcConfig, LdkNodeConfig, PrometheusConfig,
  default_prometheus_port, default_listen_host,
}
use cashu_operator.Common.{
  List, through, Option, ◌≡◌, false, some, Bool-cases, none, inl, refl, inr, or_value, or_some,
  String, or_text_idem, ◌∙◌, ap, arith, ◌∷◌, [],
}

-- The ports of the service and of the mint's container, and the table of the metrics.
abbrev pub Endpoints : Type 0
Endpoints = List ServicePort × (List ContainerPort × Table)

unfoldable pub endpoints : CashuMintSpec → Endpoints
endpoints s = (service_ports s, (mint_ports s, prometheus_table s.prometheus))

ldk_service_ports-default :
    (o : Option LdkNodeConfig)
    → for_each (enabled_ldk (through default_ldk_node o)) ldk_service_ports
      ≡ for_each (enabled_ldk o) ldk_service_ports
unfolding for_each through default_ldk_node ldk_port ldk_webserver_port
ldk_service_ports-default none = refl
ldk_service_ports-default (some l) = elim (Bool-cases l.enabled) [
  | inl e ↦ simp (e, or_port_idem l.port (pos 8090), or_port_idem l.webserver_port (pos 8888))
  | inr e ↦ simp (e)
]

management_service_port-default :
    (o : Option ManagementRpcConfig)
    → for_each (enabled_management (through default_management_rpc o)) management_service_port
      ≡ for_each (enabled_management o) management_service_port
unfolding for_each through default_management_rpc management_port
management_service_port-default none = refl
management_service_port-default (some r) = elim (Bool-cases r.enabled) [
  | inl e ↦ simp (e, or_port_idem r.port (pos 8086))
  | inr e ↦ simp (e)
]

or_value-or_some {ℓ} : {A : Type ℓ} (o : Option A) (d : A) → or_value (or_some o d) d ≡ or_value o d
or_value-or_some none d = refl
or_value-or_some (some a) d = refl

-- What depends on a section of metrics by its port alone
metrics-default {ℓ} :
    {A : Type ℓ} (o : Option PrometheusConfig) (f : ℤ → List A)
    → for_each (enabled_prometheus (through default_prometheus o)) (λ p. f (metrics_port p))
      ≡ for_each (enabled_prometheus o) (λ p. f (metrics_port p))
unfolding for_each through default_prometheus
metrics-default none f = refl
metrics-default (some p) f = elim (Bool-cases p.enabled) [
  | inl e ↦ simp (e, or_value-or_some p.port default_prometheus_port)
  | inr e ↦ simp (e)
]

prometheus_table-default :
    (o : Option PrometheusConfig)
    → prometheus_table (through default_prometheus o) ≡ prometheus_table o
unfolding prometheus_table through default_prometheus
prometheus_table-default none = refl
prometheus_table-default (some p) = elim (Bool-cases p.enabled) [
  | inl e ↦ simp (
    e,
    or_value-or_some p.port default_prometheus_port,
    or_text_idem p.address default_listen_host,
  )
  | inr e ↦ simp (e)
]

default_orchard-disabled :
    (s : CashuMintSpec) → orchard_enabled s.orchard ≡ false → default_orchard s ≡ s
unfolding default_orchard
default_orchard-disabled s h = ground arith

endpoints-late :
    (name : String) (s : CashuMintSpec)
    → endpoints (default_payment_backend (default_operational name s)) ≡ endpoints s
unfolding endpoints service_ports mint_ports listen_port default_payment_backend default_operational
endpoints-late name s =
    let o = s.prometheus in
    let served : for_each (enabled_prometheus (through default_prometheus o)) metrics_service_port
        ≡ for_each (enabled_prometheus o) metrics_service_port =
      metrics-default o (λ port.
        record {
          name = prometheus_metrics_port_name;
          port = port;
          target = some (by_name prometheus_metrics_port_name);
        }
        ∷ []) in
    let opened : for_each (enabled_prometheus (through default_prometheus o)) metrics_container_port
        ≡ for_each (enabled_prometheus o) metrics_container_port =
      metrics-default o
        (λ port. record { name = prometheus_metrics_port_name; port = port } ∷ []) in
    simp (
      ldk_service_ports-default s.ldk_node,
      management_service_port-default s.management_rpc,
      served,
      opened,
      prometheus_table-default o,
    )

endpoints-early :
    (s : CashuMintSpec)
    → endpoints (default_ingress (default_database (default_mint_info s))) ≡ endpoints s
unfolding endpoints service_ports mint_ports listen_port default_ingress default_database
    default_mint_info
endpoints-early s = simp (or_port_idem s.mint_info.listen_port (pos 8085))

-- Where no Orchard companion is enabled, Default changes neither the ports of the service and of the
-- mint's container nor the table of the metrics: the generators fall back to the values that it
-- fills in.
pub endpoints-default_spec :
    (name : String) (s : CashuMintSpec)
    → orchard_enabled s.orchard ≡ false
    → endpoints (default_spec name s) ≡ endpoints s
unfolding default_spec default_ingress default_database default_mint_info
endpoints-default_spec name s h =
    let t = default_ingress (default_database (default_mint_info s)) in
    let k : orchard_enabled t.orchard ≡ false = h in
    endpoints-late name (default_orchard t)
    ∙ ap endpoints (default_orchard-disabled t k)
    ∙ endpoints-early s
