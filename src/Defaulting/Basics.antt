-- ===== src/Defaulting/Basics.antt =====
-- `defaultMintInfo`, `defaultIngress` and `defaultIngressConfig`
-- (api/v1alpha1/cashumint_webhook.go).
use cashu_operator.Common.{if◌then◌else◌, or_some, or_text, through}
use cashu_operator.Common.Int.{pos, or_port}
use cashu_operator.Api.{
  default_listen_host, default_mint_image, default_ingress_class_name, default_cluster_issuer_kind,
  QuoteTtlConfig, CertManagerConfig, IngressTlsConfig, IngressConfig, CashuMintSpec,
}

unfoldable pub default_quote_ttl : QuoteTtlConfig → QuoteTtlConfig
default_quote_ttl q = record {
  mint_ttl = or_some q.mint_ttl (pos 600);
  melt_ttl = or_some q.melt_ttl (pos 120);
}

-- `defaultMintInfo`
unfoldable pub default_mint_info : CashuMintSpec → CashuMintSpec
default_mint_info s = record s {
  mint_info = record i {
    listen_host = or_text i.listen_host default_listen_host;
    listen_port = or_port i.listen_port (pos 8085);
    quote_ttl = through default_quote_ttl i.quote_ttl;
  };
  image = or_text s.image default_mint_image;
  replicas = or_some s.replicas (pos 1);
}
  where
    open s use {mint_info as i}

unfoldable pub default_cert_manager : CertManagerConfig → CertManagerConfig
default_cert_manager c = record c {
  issuer_kind = or_text c.issuer_kind default_cluster_issuer_kind;
}

unfoldable pub default_ingress_tls : IngressTlsConfig → IngressTlsConfig
default_ingress_tls t = record t { cert_manager = through default_cert_manager t.cert_manager }

-- `defaultIngressConfig`, on a pointer that is not nil.
unfoldable pub default_ingress_config : IngressConfig → IngressConfig
default_ingress_config c =
    if c.enabled
    then record c {
      class_name = or_text c.class_name default_ingress_class_name;
      tls = through default_ingress_tls c.tls;
    }
    else c

-- `defaultIngress`, whose own guard is that of `defaultIngressConfig`.
unfoldable pub default_ingress : CashuMintSpec → CashuMintSpec
default_ingress s = record s { ingress = through default_ingress_config s.ingress }
