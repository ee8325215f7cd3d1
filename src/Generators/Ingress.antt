-- ===== src/Generators/Ingress.antt =====
-- internal/controller/generators/ingress.go, and `GenerateOrchardIngress`.
use cashu_operator.Controller.Env.{Result, ok, ingress}
use cashu_operator.Common.Int.{ℤ}
use cashu_operator.Generators.Names.{
  true_str, enabled_cert_manager, for_each, enabled_ingress, enabled_tls, orchard_ingress_of,
  mint_selector_labels, orchard_resource_name, listen_port, orchard_labels, orchard_port,
}
use cashu_operator.Api.{
  CertManagerConfig, IngressConfig, CashuMint, IngressTlsConfig, default_cluster_issuer_kind,
  default_ingress_class_name,
}
use cashu_operator.Generators.Manifest.{Labels, OwnerError, IngressTls, IngressManifest, owned_some}
use cashu_operator.Common.{
  String, Option, ◌∷◌, or_text, or_value, List, some, if◌then◌else◌, [], ◌<>◌, none, ◌==◌,
}

-- `m[k] = v`
unfoldable pub set_entry : String → String → Labels → Labels
set_entry k v [] = (k, v) ∷ []
set_entry k v ((j, u) ∷ m) =
    let rest = set_entry k v m in if j == k then (j, v) ∷ m else (j, u) ∷ rest

-- `for k, v := range custom { annotations[k] = v }`
unfoldable pub merge : Labels → Labels → Labels
merge m [] = m
merge m ((k, v) ∷ custom) = merge (set_entry k v m) custom

abbrev default_annotations : Labels
default_annotations =
    ("nginx.ingress.kubernetes.io/ssl-redirect", true_str)
    ∷ (("nginx.ingress.kubernetes.io/backend-protocol", "HTTP")
        ∷ (("nginx.ingress.kubernetes.io/enable-cors", true_str)
            ∷ (("nginx.ingress.kubernetes.io/cors-allow-origin", "*") ∷ [])))

-- The cert-manager of a TLS section, both enabled.
abbrev pub cert_manager_of : Option IngressTlsConfig → Option CertManagerConfig
cert_manager_of none = none
cert_manager_of (some t) = if t.enabled then enabled_cert_manager t.cert_manager else none

abbrev pub issuer_kind_of : CertManagerConfig → String
issuer_kind_of c = or_text c.issuer_kind default_cluster_issuer_kind

abbrev issuer_annotations : Option CertManagerConfig → Labels
issuer_annotations none = default_annotations
issuer_annotations (some c) =
    set_entry "cert-manager.io/issuer-kind" (issuer_kind_of c)
      (set_entry "cert-manager.io/issuer" c.issuer_name default_annotations)

unfoldable pub ingress_annotations : IngressConfig → Labels
ingress_annotations i =
    merge (issuer_annotations (cert_manager_of i.tls)) (or_value i.annotations [])

abbrev pub tls_secret_name : String → IngressTlsConfig → String
tls_secret_name name t = or_text t.secret_name (name <> "-tls")

unfoldable pub ingress_tls : String → IngressConfig → List IngressTls
ingress_tls name i =
    for_each (enabled_tls i.tls)
      (λ t. record { hosts = i.host ∷ []; secret_name = tls_secret_name name t } ∷ [])

-- The manifest for the service of a name and a port.
unfoldable pub ingress_manifest : CashuMint → String → Labels → ℤ → IngressConfig → IngressManifest
ingress_manifest m name labels port i = record {
  meta = record {
    name = name;
    namespace = m.metadata.namespace;
    labels = labels;
    annotations = some (ingress_annotations i);
    owner = some m.metadata.name;
  };
  class_name = or_text i.class_name default_ingress_class_name;
  host = i.host;
  service_name = name;
  service_port = port;
  tls = ingress_tls name i;
}

-- `GenerateIngress`
unfoldable pub generate_ingress : OwnerError → CashuMint → Result (Option IngressManifest)
generate_ingress owner_error m = elim (enabled_ingress m.spec.ingress) [
  | none ↦ ok none
  | some i ↦
      owned_some owner_error ingress m
        (ingress_manifest m m.metadata.name (mint_selector_labels m) (listen_port m.spec) i)
]

-- `GenerateOrchardIngress`
unfoldable pub generate_orchard_ingress : OwnerError → CashuMint → Result (Option IngressManifest)
generate_orchard_ingress owner_error m =
    elim (enabled_ingress (orchard_ingress_of m.spec.orchard)) [
      | none ↦ ok none
      | some i ↦
          owned_some owner_error ingress m (
            ingress_manifest m (orchard_resource_name m) (orchard_labels m) (orchard_port m.spec) i)
    ]
