-- ===== src/Validation/Valid.antt =====
-- What the webhook of api/v1alpha1/cashumint_webhook.go asks of a mint, as a description that
-- mentions no check and no message. It is less than the documentation of the fields asks: a SQLite
-- database or a Redis cache needs no section of its own, a URL need not start with http or https,
-- and the two key references of LNBits may be empty.
use cashu_operator.Validation.Sections.{is_positive}
use cashu_operator.Common.Int.{pos, ℤ}
use cashu_operator.Api.ActiveBackend.{backend_total}
use cashu_operator.Validation.Payment.{sidecar_enabled}
use cashu_operator.Api.{
  DatabaseConfig, PaymentBackendConfig, SecretKeySelector, PostgresConfig, CertManagerConfig,
  IngressTlsConfig, IngressConfig, ManagementRpcConfig, LndConfig, ClnConfig, LnbitsConfig,
  SidecarProcessorConfig, GrpcProcessorConfig, S3BackupConfig, BackupConfig,
  database_engine_postgres, LocalObjectReference, database_engine_sqlite, database_engine_redb,
  OrchardMintRpcConfig, OrchardMintConfig, OrchardBitcoinConfig, OrchardLightningConfig,
  OrchardTaprootAssetsConfig, OrchardAiConfig, OrchardConfig, management_rpc_enabled, ResourceList,
  ResourceRequirements, CashuMintSpec,
}
use cashu_operator.Common.{
  ◌∷◌, [], Bool, Option, ◌≡◌, false, some, ◌≢◌, true, ◌⊎◌, present, none, String, ◌==◌, lookup,
}

-- A reference that is given names a secret and a key, and a required one is given.
abbrev pub SelectorIsValid : Bool → Option SecretKeySelector → Type 0
SelectorIsValid required none = required ≡ false
SelectorIsValid required (some r) = (r.name ≢ "") × (r.key ≢ "")

abbrev pub PostgresIsValid : Option PostgresConfig → Type 0
PostgresIsValid none = ⊥
PostgresIsValid (some pg) =
    ((pg.auto_provision ≡ true) ⊎ ((pg.url ≢ "") ⊎ (present pg.url_secret_ref ≡ true)))
    × ((pg.url ≡ "") ⊎ (present pg.url_secret_ref ≡ false))

abbrev pub DatabaseIsValid : DatabaseConfig → Type 0
DatabaseIsValid d =
    ((d.engine ≡ database_engine_postgres) × PostgresIsValid d.postgres)
    ⊎ ((d.engine ≡ database_engine_sqlite) ⊎ (d.engine ≡ database_engine_redb))

abbrev pub CertManagerIsValid : Option CertManagerConfig → Type 0
CertManagerIsValid none = Unit
CertManagerIsValid (some c) = c.enabled ≡ true → c.issuer_name ≢ ""

abbrev pub TlsIsValid : Option IngressTlsConfig → Type 0
TlsIsValid none = Unit
TlsIsValid (some t) = t.enabled ≡ true → CertManagerIsValid t.cert_manager

-- An ingress that is enabled has a host, and an issuer if cert-manager makes its certificate.
abbrev pub IngressIsValid : Option IngressConfig → Type 0
IngressIsValid none = Unit
IngressIsValid (some c) = c.enabled ≡ true → (c.host ≢ "") × TlsIsValid c.tls

abbrev pub TlsRefIsValid : Option LocalObjectReference → Type 0
TlsRefIsValid none = Unit
TlsRefIsValid (some r) = r.name ≢ ""

-- A TLS secret that is named has a name.
abbrev pub ManagementRpcIsValid : Option ManagementRpcConfig → Type 0
ManagementRpcIsValid none = Unit
ManagementRpcIsValid (some m) = TlsRefIsValid m.tls_secret_ref

abbrev pub LndIsValid : Option LndConfig → Type 0
LndIsValid none = Unit
LndIsValid (some c) = c.address ≢ ""

abbrev pub ClnIsValid : Option ClnConfig → Type 0
ClnIsValid none = Unit
ClnIsValid (some c) = c.rpc_path ≢ ""

abbrev pub LnbitsIsValid : Option LnbitsConfig → Type 0
LnbitsIsValid none = Unit
LnbitsIsValid (some c) = c.api ≢ ""

abbrev pub SidecarIsValid : Option SidecarProcessorConfig → Type 0
SidecarIsValid none = Unit
SidecarIsValid (some c) =
    c.enabled ≡ true → (c.image ≢ "") × (c.enable_tls ≡ true → present c.tls_secret_ref ≡ true)

-- A processor runs beside the mint, or has an address.
abbrev pub GrpcProcessorIsValid : Option GrpcProcessorConfig → Type 0
GrpcProcessorIsValid none = Unit
GrpcProcessorIsValid (some c) =
    ((sidecar_enabled c.sidecar_processor ≡ true) ⊎ (c.address ≢ ""))
    × SidecarIsValid c.sidecar_processor

-- Exactly one backend is given, and it has what it needs.
abbrev pub PaymentIsValid : PaymentBackendConfig → Type 0
PaymentIsValid p =
    (backend_total p ≡ 1)
    × (LndIsValid p.lnd
        × (ClnIsValid p.cln × (LnbitsIsValid p.lnbits × GrpcProcessorIsValid p.grpc_processor)))

abbrev pub AutoProvisions : Option PostgresConfig → Type 0
AutoProvisions none = ⊥
AutoProvisions (some pg) = pg.auto_provision ≡ true

abbrev pub S3IsValid : Option S3BackupConfig → Type 0
S3IsValid none = ⊥
S3IsValid (some s3) =
    (s3.bucket ≢ "")
    × (((s3.access_key_id_secret_ref.name ≢ "") × (s3.access_key_id_secret_ref.key ≢ ""))
        × ((s3.secret_access_key_secret_ref.name ≢ "")
            × (s3.secret_access_key_secret_ref.key ≢ "")))

-- A backup that is enabled has an auto-provisioned PostgreSQL, a schedule and a bucket.
abbrev pub BackupIsValid : DatabaseConfig → Option BackupConfig → Type 0
BackupIsValid d none = Unit
BackupIsValid d (some b) =
    b.enabled ≡ true
    → (d.engine ≡ database_engine_postgres)
      × (AutoProvisions d.postgres × ((b.schedule ≢ "") × S3IsValid b.s3))

abbrev pub MtlsIsValid : Bool → Option OrchardMintRpcConfig → Type 0
MtlsIsValid rpc_enabled none = Unit
MtlsIsValid rpc_enabled (some r) = r.mtls ≡ some true → rpc_enabled ≡ true

abbrev pub OrchardMintIsValid : Bool → Option OrchardMintConfig → Type 0
OrchardMintIsValid rpc_enabled none = Unit
OrchardMintIsValid rpc_enabled (some m) =
    SelectorIsValid false m.database_ca_secret_ref
    × (SelectorIsValid false m.database_cert_secret_ref
        × (SelectorIsValid false m.database_key_secret_ref × MtlsIsValid rpc_enabled m.rpc))

abbrev pub OrchardBitcoinIsValid : Option OrchardBitcoinConfig → Type 0
OrchardBitcoinIsValid none = Unit
OrchardBitcoinIsValid (some b) =
    (b.rpc_host ≢ "")
    × ((b.rpc_port ≢ pos 0)
        × (SelectorIsValid true b.rpc_user_secret_ref
            × SelectorIsValid true b.rpc_password_secret_ref))

-- LND wants a macaroon and a certificate, CLN a key and an authority, any other type neither.
abbrev pub LightningSecretsAreValid : OrchardLightningConfig → Type 0
LightningSecretsAreValid l =
    (((l.type == "lnd") ≡ true)
      → SelectorIsValid true l.macaroon_secret_ref × SelectorIsValid true l.cert_secret_ref)
    × (((l.type == "lnd") ≡ false)
        → ((l.type == "cln") ≡ true)
        → SelectorIsValid true l.key_secret_ref × SelectorIsValid true l.ca_secret_ref)

abbrev pub OrchardLightningIsValid : Option OrchardLightningConfig → Type 0
OrchardLightningIsValid none = Unit
OrchardLightningIsValid (some l) =
    (l.rpc_host ≢ "") × ((l.rpc_port ≢ pos 0) × LightningSecretsAreValid l)

abbrev pub OrchardTaprootAssetsIsValid : Option OrchardTaprootAssetsConfig → Type 0
OrchardTaprootAssetsIsValid none = Unit
OrchardTaprootAssetsIsValid (some t) =
    (t.rpc_host ≢ "")
    × ((t.rpc_port ≢ pos 0)
        × (SelectorIsValid true t.macaroon_secret_ref × SelectorIsValid true t.cert_secret_ref))

abbrev pub OrchardAiIsValid : Option OrchardAiConfig → Type 0
OrchardAiIsValid none = Unit
OrchardAiIsValid (some a) = a.api ≢ ""

-- Orchard has no database driver for redb, needs its setup key, and each part that is configured is
-- complete; mutual TLS with the mint needs the management endpoint.
abbrev pub OrchardIsValid :
    DatabaseConfig → Option ManagementRpcConfig → Option OrchardConfig → Type 0
OrchardIsValid d m none = Unit
OrchardIsValid d m (some o) =
    o.enabled ≡ true
    → (d.engine ≢ database_engine_redb)
      × (SelectorIsValid true o.setup_key_secret_ref
          × (IngressIsValid o.ingress
              × (OrchardMintIsValid (management_rpc_enabled m) o.mint
                  × (OrchardBitcoinIsValid o.bitcoin
                      × (OrchardLightningIsValid o.lightning
                          × (OrchardTaprootAssetsIsValid o.taproot_assets
                              × OrchardAiIsValid o.ai))))))

module _ (cmp : String → String → ℤ) where
  abbrev pub Fits : String → Option String → Type 0
  Fits limit none = Unit
  Fits limit (some request) = is_positive (cmp request limit) ≡ false

  -- No request is above the limit of the same resource.
  abbrev pub AllFit : ResourceList → ResourceList → Type 0
  AllFit requests [] = Unit
  AllFit requests ((resource, limit) ∷ limits) =
      Fits limit (lookup resource requests) × AllFit requests limits

  abbrev pub BothFit : Option ResourceList → Option ResourceList → Type 0
  BothFit none requests = Unit
  BothFit (some limits) none = Unit
  BothFit (some limits) (some requests) = AllFit requests limits

  abbrev pub ResourcesAreValid : Option ResourceRequirements → Type 0
  ResourcesAreValid none = Unit
  ResourcesAreValid (some r) = BothFit r.limits r.requests

  -- Every part that the webhook looks at is complete.
  pub record IsValid (s : CashuMintSpec) : Type 0 where
    pub url : s.mint_info.url ≢ ""
    pub database : DatabaseIsValid s.database
    pub payment_backend : PaymentIsValid s.payment_backend
    pub ingress : IngressIsValid s.ingress
    pub resources : ResourcesAreValid s.resources
    pub backup : BackupIsValid s.database s.backup
    pub management_rpc : ManagementRpcIsValid s.management_rpc
    pub orchard : OrchardIsValid s.database s.management_rpc s.orchard
