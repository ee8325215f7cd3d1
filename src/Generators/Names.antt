-- ===== src/Generators/Names.antt =====
-- Names, labels, ports and constants that several generators write out
-- (internal/controller/generators).
use cashu_operator.Common.Int.{ℤ, or_port, pos}
use cashu_operator.Generators.Manifest.{Labels}
use cashu_operator.Api.{
  CashuMint, CashuMintSpec, LdkNodeConfig, ManagementRpcConfig, PrometheusConfig, OrchardConfig,
  IngressConfig, IngressTlsConfig, CertManagerConfig, default_prometheus_port,
}
use cashu_operator.Common.{
  false, String, Option, Bool, ◌<>◌, List, some, ◌∷◌, or_value, if◌then◌else◌, [], none, true,
}

abbrev pub true_str : String
true_str = "true"

abbrev pub orchard_str : String
orchard_str = "orchard"

abbrev pub grpc_processor_tls_mount_path : String
grpc_processor_tls_mount_path = "/secrets/grpc"

abbrev pub prometheus_metrics_port_name : String
prometheus_metrics_port_name = "metrics"

abbrev pub management_rpc_tls_volume_name : String
management_rpc_tls_volume_name = "management-rpc-tls"

abbrev pub orchard_management_rpc_tls_mount_path : String
orchard_management_rpc_tls_mount_path = "/secrets/management-rpc-tls"

-- `mintSelectorLabels`, which the other generators write out.
unfoldable pub mint_selector_labels : CashuMint → Labels
mint_selector_labels m =
    ("app.kubernetes.io/name", "cashu-mint")
    ∷ (("app.kubernetes.io/instance", m.metadata.name)
        ∷ (("app.kubernetes.io/managed-by", "cashu-operator") ∷ []))

-- The labels of a part of an application.
unfoldable pub component_labels : String → String → CashuMint → Labels
component_labels name component m =
    ("app.kubernetes.io/name", name)
    ∷ (("app.kubernetes.io/instance", m.metadata.name)
        ∷ (("app.kubernetes.io/component", component)
            ∷ (("app.kubernetes.io/managed-by", "cashu-operator") ∷ [])))

-- `orchardLabels`
abbrev pub orchard_labels : CashuMint → Labels
orchard_labels = component_labels "cashu-mint" orchard_str

-- `orchardResourceName` and `orchardPVCName`
abbrev pub orchard_resource_name : CashuMint → String
orchard_resource_name m = m.metadata.name <> "-orchard"

abbrev pub orchard_pvc_name : CashuMint → String
orchard_pvc_name m = orchard_resource_name m <> "-data"

unfoldable pub listen_port : CashuMintSpec → ℤ
listen_port s = or_port s.mint_info.listen_port (pos 8085)

unfoldable pub ldk_port : LdkNodeConfig → ℤ
ldk_port l = or_port l.port (pos 8090)

unfoldable pub ldk_webserver_port : LdkNodeConfig → ℤ
ldk_webserver_port l = or_port l.webserver_port (pos 8888)

unfoldable pub management_port : ManagementRpcConfig → ℤ
management_port m = or_port m.port (pos 8086)

abbrev pub metrics_port : PrometheusConfig → ℤ
metrics_port p = or_value p.port default_prometheus_port

abbrev orchard_set_port : Option OrchardConfig → ℤ
orchard_set_port none = pos 0
orchard_set_port (some o) = o.port

-- `orchardPort`
unfoldable pub orchard_port : CashuMintSpec → ℤ
orchard_port s = or_port (orchard_set_port s.orchard) (pos 3321)

-- A pointer to a section that is enabled.
abbrev pub enabled_ldk : Option LdkNodeConfig → Option LdkNodeConfig
enabled_ldk none = none
enabled_ldk (some l) = if l.enabled then some l else none

abbrev pub enabled_management : Option ManagementRpcConfig → Option ManagementRpcConfig
enabled_management none = none
enabled_management (some m) = if m.enabled then some m else none

abbrev pub enabled_prometheus : Option PrometheusConfig → Option PrometheusConfig
enabled_prometheus none = none
enabled_prometheus (some p) = if p.enabled then some p else none

abbrev pub enabled_orchard : Option OrchardConfig → Option OrchardConfig
enabled_orchard none = none
enabled_orchard (some o) = if o.enabled then some o else none

abbrev pub enabled_ingress : Option IngressConfig → Option IngressConfig
enabled_ingress none = none
enabled_ingress (some i) = if i.enabled then some i else none

abbrev pub enabled_tls : Option IngressTlsConfig → Option IngressTlsConfig
enabled_tls none = none
enabled_tls (some t) = if t.enabled then some t else none

abbrev pub enabled_cert_manager : Option CertManagerConfig → Option CertManagerConfig
enabled_cert_manager none = none
enabled_cert_manager (some c) = if c.enabled then some c else none

-- A list for a pointer: its items where the pointer is not nil.
unfoldable pub for_each {ℓ κ} : {A : Type ℓ} {B : Type κ} → Option A → (A → List B) → List B
for_each none f = []
for_each (some a) f = f a

-- A list that is added under a test.
unfoldable pub added {ℓ} : {A : Type ℓ} → Bool → List A → List A
added true l = l
added false l = []

-- `o.ingress` of an Orchard companion.
abbrev pub orchard_ingress_of : Option OrchardConfig → Option IngressConfig
orchard_ingress_of none = none
orchard_ingress_of (some o) = if o.enabled then o.ingress else none
