-- ===== src/Defaulting/IdempotentParts.antt =====
-- The helpers of `Default` in api/v1alpha1/cashumint_webhook.go, applied to their own results.
use cashu_operator.Defaulting.Operational.{
  default_logging, default_storage, default_service, default_http_cache, default_management_rpc,
  default_prometheus, default_s3, default_backup, default_auth,
}
use cashu_operator.Defaulting.Orchard.{
  sized, typed, default_orchard_rpc, default_orchard_mint, default_bitcoin, default_taproot_assets,
  default_enabled_orchard,
}
use cashu_operator.Defaulting.Payment.{
  or_sat, default_lnd, default_cln, default_lnbits, default_fake_wallet, default_sidecar,
  default_grpc_processor, default_ldk_node,
}
use cashu_operator.Common.{
  String, ◌≡◌, refl, List, [], ◌∷◌, arith, Bool-cases, or_text_idem, inl, inr, through_idem,
  or_some_idem, Bool, Option-cases, through_idem_of,
}
use cashu_operator.Common.Int.{or_port_idem}
use cashu_operator.Api.{
  PostgresConfig, PostgresAutoProvisionSpec, SqliteConfig, DatabaseConfig, QuoteTtlConfig,
  CertManagerConfig, IngressTlsConfig, IngressConfig, StorageConfig, ServiceConfig,
  OrchardBitcoinConfig, OrchardTaprootAssetsConfig, LoggingConfig, HttpCacheConfig,
  ManagementRpcConfig, PrometheusConfig, S3BackupConfig, BackupConfig, AuthConfig, LndConfig,
  ClnConfig, LnbitsConfig, FakeWalletConfig, SidecarProcessorConfig, GrpcProcessorConfig,
  LdkNodeConfig, OrchardMintRpcConfig, OrchardMintConfig, OrchardConfig,
}
use cashu_operator.Defaulting.Basics.{
  default_quote_ttl, default_cert_manager, default_ingress_tls, default_ingress_config,
}
use cashu_operator.Defaulting.Database.{
  default_sqlite, default_auto_provision_spec, default_postgres, default_database_config,
}

pub or_sat_idem : (us : List String) → or_sat (or_sat us) ≡ or_sat us
or_sat_idem [] = refl
or_sat_idem (u ∷ us) = refl

pub ruleset idem = (or_text_idem, or_port_idem, or_some_idem)

pub default_quote_ttl_idem :
    (q : QuoteTtlConfig) → default_quote_ttl (default_quote_ttl q) ≡ default_quote_ttl q
unfolding default_quote_ttl
default_quote_ttl_idem q = simp idem

pub default_auto_provision_spec_idem :
    (a : PostgresAutoProvisionSpec)
    → default_auto_provision_spec (default_auto_provision_spec a) ≡ default_auto_provision_spec a
unfolding default_auto_provision_spec
default_auto_provision_spec_idem a = simp idem

pub default_sqlite_idem : (l : SqliteConfig) → default_sqlite (default_sqlite l) ≡ default_sqlite l
unfolding default_sqlite
default_sqlite_idem l = simp idem

pub default_postgres_idem :
    (pg : PostgresConfig) → default_postgres (default_postgres pg) ≡ default_postgres pg
unfolding default_postgres
default_postgres_idem pg = elim (Bool-cases pg.auto_provision) [
  | inl e ↦ simp (idem, e, through_idem default_auto_provision_spec_idem)
  | inr e ↦ simp (idem, e)
]

pub default_database_config_idem :
    (d : DatabaseConfig)
    → default_database_config (default_database_config d) ≡ default_database_config d
unfolding default_database_config
default_database_config_idem d = ground (
  arith,
  or_text_idem d.engine "postgres",
  through_idem default_postgres_idem d.postgres,
  through_idem default_sqlite_idem d.sqlite,
)

pub default_cert_manager_idem :
    (c : CertManagerConfig) → default_cert_manager (default_cert_manager c) ≡ default_cert_manager c
unfolding default_cert_manager
default_cert_manager_idem c = simp idem

pub default_ingress_tls_idem :
    (t : IngressTlsConfig) → default_ingress_tls (default_ingress_tls t) ≡ default_ingress_tls t
unfolding default_ingress_tls
default_ingress_tls_idem t = simp (through_idem default_cert_manager_idem)

pub default_ingress_config_idem :
    (c : IngressConfig)
    → default_ingress_config (default_ingress_config c) ≡ default_ingress_config c
unfolding default_ingress_config
default_ingress_config_idem c = elim (Bool-cases c.enabled) [
  | inl e ↦ simp (idem, e, through_idem default_ingress_tls_idem)
  | inr e ↦ simp e
]

pub sized_idem : (c : StorageConfig) → sized (sized c) ≡ sized c
unfolding sized
sized_idem c = simp idem

pub typed_idem : (c : ServiceConfig) → typed (typed c) ≡ typed c
unfolding typed
typed_idem c = simp idem

pub default_orchard_rpc_idem :
    (b b' : Bool) (r : OrchardMintRpcConfig)
    → default_orchard_rpc b' (default_orchard_rpc b r) ≡ default_orchard_rpc b r
unfolding default_orchard_rpc
default_orchard_rpc_idem b b' r = elim (Option-cases r.mtls) [
  | inl e ↦ simp (idem, e)
  | inr (m, e) ↦ simp (idem, e)
]

pub default_orchard_mint_idem :
    (b b' : Bool) (m : OrchardMintConfig)
    → default_orchard_mint b' (default_orchard_mint b m) ≡ default_orchard_mint b m
unfolding default_orchard_mint
default_orchard_mint_idem b b' m = simp (
  idem,
  through_idem_of (default_orchard_rpc b) (default_orchard_rpc b') (default_orchard_rpc_idem b b')
      m.rpc,
)

pub default_bitcoin_idem :
    (b : OrchardBitcoinConfig) → default_bitcoin (default_bitcoin b) ≡ default_bitcoin b
unfolding default_bitcoin
default_bitcoin_idem b = simp idem

pub default_taproot_assets_idem :
    (t : OrchardTaprootAssetsConfig)
    → default_taproot_assets (default_taproot_assets t) ≡ default_taproot_assets t
unfolding default_taproot_assets
default_taproot_assets_idem t = simp idem

pub default_enabled_orchard_idem :
    (engine : String) (b b' : Bool) (o : OrchardConfig)
    → default_enabled_orchard engine b' (default_enabled_orchard engine b o)
      ≡ default_enabled_orchard engine b o
unfolding default_enabled_orchard
default_enabled_orchard_idem engine b b' o = simp (
  idem,
  sized_idem,
  typed_idem,
  default_orchard_mint_idem b b',
  through_idem default_ingress_config_idem,
  through_idem default_bitcoin_idem,
  through_idem default_taproot_assets_idem,
)

pub default_logging_idem :
    (c : LoggingConfig) → default_logging (default_logging c) ≡ default_logging c
unfolding default_logging
default_logging_idem c = simp idem

pub default_storage_idem :
    (c : StorageConfig) → default_storage (default_storage c) ≡ default_storage c
unfolding default_storage
default_storage_idem c = simp idem

pub default_service_idem :
    (c : ServiceConfig) → default_service (default_service c) ≡ default_service c
unfolding default_service
default_service_idem c = simp idem

pub default_http_cache_idem :
    (c : HttpCacheConfig) → default_http_cache (default_http_cache c) ≡ default_http_cache c
unfolding default_http_cache
default_http_cache_idem c = simp idem

pub default_management_rpc_idem :
    (c : ManagementRpcConfig)
    → default_management_rpc (default_management_rpc c) ≡ default_management_rpc c
unfolding default_management_rpc
default_management_rpc_idem c = elim (Bool-cases c.enabled) [
  | inl e ↦ simp (idem, e)
  | inr e ↦ simp e
]

pub default_prometheus_idem :
    (c : PrometheusConfig) → default_prometheus (default_prometheus c) ≡ default_prometheus c
unfolding default_prometheus
default_prometheus_idem c = elim (Bool-cases c.enabled) [ inl e ↦ simp (idem, e) | inr e ↦ simp e ]

pub default_s3_idem :
    (name : String) (c : S3BackupConfig) → default_s3 name (default_s3 name c) ≡ default_s3 name c
unfolding default_s3
default_s3_idem name c = simp idem

pub default_backup_idem :
    (name : String) (c : BackupConfig)
    → default_backup name (default_backup name c) ≡ default_backup name c
unfolding default_backup
default_backup_idem name c = elim (Bool-cases c.enabled) [
  | inl e ↦ simp (idem, e, through_idem (default_s3_idem name))
  | inr e ↦ simp e
]

pub default_auth_idem : (c : AuthConfig) → default_auth (default_auth c) ≡ default_auth c
unfolding default_auth
default_auth_idem c = elim (Bool-cases c.enabled) [ inl e ↦ simp (idem, e) | inr e ↦ simp e ]

pub default_lnd_idem : (c : LndConfig) → default_lnd (default_lnd c) ≡ default_lnd c
unfolding default_lnd
default_lnd_idem c = simp idem

pub default_cln_idem : (c : ClnConfig) → default_cln (default_cln c) ≡ default_cln c
unfolding default_cln
default_cln_idem c = simp idem

pub default_lnbits_idem : (c : LnbitsConfig) → default_lnbits (default_lnbits c) ≡ default_lnbits c
unfolding default_lnbits
default_lnbits_idem c = simp idem

pub default_fake_wallet_idem :
    (c : FakeWalletConfig) → default_fake_wallet (default_fake_wallet c) ≡ default_fake_wallet c
unfolding default_fake_wallet
default_fake_wallet_idem c = simp (idem, or_sat_idem)

pub default_sidecar_idem :
    (c : SidecarProcessorConfig) → default_sidecar (default_sidecar c) ≡ default_sidecar c
unfolding default_sidecar
default_sidecar_idem c = elim (Bool-cases c.enabled) [ inl e ↦ simp (idem, e) | inr e ↦ simp e ]

pub default_grpc_processor_idem :
    (c : GrpcProcessorConfig)
    → default_grpc_processor (default_grpc_processor c) ≡ default_grpc_processor c
unfolding default_grpc_processor
default_grpc_processor_idem c = simp (idem, or_sat_idem, through_idem default_sidecar_idem)

pub default_ldk_node_idem :
    (c : LdkNodeConfig) → default_ldk_node (default_ldk_node c) ≡ default_ldk_node c
unfolding default_ldk_node
default_ldk_node_idem c = elim (Bool-cases c.enabled) [ inl e ↦ simp (idem, e) | inr e ↦ simp e ]
