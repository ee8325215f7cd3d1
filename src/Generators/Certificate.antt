-- ===== src/Generators/Certificate.antt =====
-- internal/controller/generators/certificate.go
use cashu_operator.Generators.Ingress.{tls_secret_name, issuer_kind_of}
use cashu_operator.Generators.Names.{
  mint_selector_labels, orchard_resource_name, enabled_ingress, orchard_labels,
  enabled_cert_manager, enabled_tls, orchard_ingress_of,
}
use cashu_operator.Controller.Env.{Result, ok, certificate}
use cashu_operator.Common.{String, Option, some, ◌∷◌, none, []}
use cashu_operator.Generators.Manifest.{OwnerError, Labels, CertificateManifest, owned_some}
use cashu_operator.Api.{CashuMint, IngressConfig, IngressTlsConfig, CertManagerConfig}

-- The certificate of an ingress for which cert-manager is set up.
unfoldable pub certificate_manifest :
    CashuMint
    → String
    → Labels
    → IngressConfig
    → IngressTlsConfig
    → CertManagerConfig
    → CertificateManifest
certificate_manifest m name labels i t c = record {
  meta = record {
    name = name;
    namespace = m.metadata.namespace;
    labels = labels;
    annotations = i.annotations;
    owner = some m.metadata.name;
  };
  secret_name = tls_secret_name name t;
  dns_names = i.host ∷ [];
  issuer_name = c.issuer_name;
  issuer_kind = issuer_kind_of c;
  duration = 2160;
  renew_before = 360;
  usages = "digital signature" ∷ ("key encipherment" ∷ []);
}

abbrev pub for_cert_manager :
    OwnerError
    → CashuMint
    → String
    → Labels
    → IngressConfig
    → IngressTlsConfig
    → Option CertManagerConfig
    → Result (Option CertificateManifest)
for_cert_manager owner_error m name labels i t none = ok none
for_cert_manager owner_error m name labels i t (some c) =
    owned_some owner_error certificate m (certificate_manifest m name labels i t c)

abbrev pub for_tls :
    OwnerError
    → CashuMint
    → String
    → Labels
    → IngressConfig
    → Option IngressTlsConfig
    → Result (Option CertificateManifest)
for_tls owner_error m name labels i none = ok none
for_tls owner_error m name labels i (some t) =
    for_cert_manager owner_error m name labels i t (enabled_cert_manager t.cert_manager)

abbrev pub for_ingress :
    OwnerError
    → CashuMint
    → String
    → Labels
    → Option IngressConfig
    → Result (Option CertificateManifest)
for_ingress owner_error m name labels none = ok none
for_ingress owner_error m name labels (some i) =
    for_tls owner_error m name labels i (enabled_tls i.tls)

-- `GenerateCertificate`
unfoldable pub generate_certificate : OwnerError → CashuMint → Result (Option CertificateManifest)
generate_certificate owner_error m =
    for_ingress owner_error m m.metadata.name (mint_selector_labels m)
      (enabled_ingress m.spec.ingress)

-- `GenerateOrchardCertificate`
unfoldable pub generate_orchard_certificate :
    OwnerError → CashuMint → Result (Option CertificateManifest)
generate_orchard_certificate owner_error m =
    for_ingress owner_error m (orchard_resource_name m) (orchard_labels m)
      (enabled_ingress (orchard_ingress_of m.spec.orchard))
