-- ===== src/Defaulting/Validity.antt =====
-- `Default` of api/v1alpha1/cashumint_webhook.go keeps a valid mint valid: what the first webhook
-- fills in, the second does not refuse.
use cashu_operator.Defaulting.Orchard.{default_orchard_rpc}
use cashu_operator.Validation.Valid.{
  DatabaseIsValid, PostgresIsValid, AutoProvisions, CertManagerIsValid, TlsIsValid, IngressIsValid,
  S3IsValid, BackupIsValid, ManagementRpcIsValid, MtlsIsValid,
}
use cashu_operator.Defaulting.Operational.{default_s3, default_backup, default_management_rpc}
use cashu_operator.Defaulting.Basics.{
  default_cert_manager, default_ingress_tls, default_ingress_config,
}
use cashu_operator.Api.{
  DatabaseConfig, PostgresConfig, CertManagerConfig, IngressTlsConfig, IngressConfig,
  S3BackupConfig, BackupConfig, ManagementRpcConfig, OrchardMintRpcConfig, management_rpc_enabled,
}
use cashu_operator.Defaulting.Database.{default_database_config, default_postgres}
use cashu_operator.Common.{
  Bool, or_text, through, String, Option, ◌≢◌, true, ◌≡◌, inl, ◌∙◌, some, inr, none, refl,
  Bool-cases, ◌==◌, eq_iff, or_some, some-injective, if_both,
}

or_text_nonempty : (s d : String) → s ≢ "" → or_text s d ≢ ""
unfolding or_text
or_text_nonempty s d n = elim (Bool-cases (s == "")) [
  | inl h ↦ absurd (n ((eq_iff s "").0 h))
  | inr h ↦ simp (h) n
]

PostgresIsValid-default :
    (o : Option PostgresConfig) → PostgresIsValid o → PostgresIsValid (through default_postgres o)
unfolding through default_postgres
PostgresIsValid-default none h = h
PostgresIsValid-default (some pg) h = h

AutoProvisions-default :
    (o : Option PostgresConfig) → AutoProvisions o → AutoProvisions (through default_postgres o)
unfolding through default_postgres
AutoProvisions-default none h = h
AutoProvisions-default (some pg) h = h

-- The engine of a valid database is set.
pub engine_set :
    (d : DatabaseConfig) → DatabaseIsValid d → (default_database_config d).engine ≡ d.engine
unfolding default_database_config or_text
engine_set d (inl (e, p)) = simp (e)
engine_set d (inr (inl e)) = simp (e)
engine_set d (inr (inr e)) = simp (e)

pub DatabaseIsValid-default :
    (d : DatabaseConfig) → DatabaseIsValid d → DatabaseIsValid (default_database_config d)
unfolding default_database_config
DatabaseIsValid-default d (inl (e, p)) = inl (
  engine_set d (inl (e, p)) ∙ e,
  if_both PostgresIsValid _ (PostgresIsValid-default d.postgres p) p,
)
DatabaseIsValid-default d (inr (inl e)) = inr (inl (engine_set d (inr (inl e)) ∙ e))
DatabaseIsValid-default d (inr (inr e)) = inr (inr (engine_set d (inr (inr e)) ∙ e))

CertManagerIsValid-default :
    (o : Option CertManagerConfig)
    → CertManagerIsValid o
    → CertManagerIsValid (through default_cert_manager o)
unfolding through default_cert_manager
CertManagerIsValid-default none h = h
CertManagerIsValid-default (some c) h = h

TlsIsValid-default :
    (o : Option IngressTlsConfig) → TlsIsValid o → TlsIsValid (through default_ingress_tls o)
unfolding through default_ingress_tls
TlsIsValid-default none h = h
TlsIsValid-default (some t) h = λ e. CertManagerIsValid-default t.cert_manager (h e)

pub IngressIsValid-default :
    (o : Option IngressConfig)
    → IngressIsValid o
    → IngressIsValid (through default_ingress_config o)
unfolding through default_ingress_config
IngressIsValid-default none h = h
IngressIsValid-default (some c) h =
    if_both (λ c. IngressIsValid (some c)) c.enabled
      (λ e. let (p, q) = h e in (p, TlsIsValid-default c.tls q)) h

S3IsValid-default :
    (name : String) (o : Option S3BackupConfig)
    → S3IsValid o
    → S3IsValid (through (default_s3 name) o)
unfolding through default_s3
S3IsValid-default name none h = h
S3IsValid-default name (some c) h = h

abbrev S3AndSchedule : BackupConfig → Type 0
S3AndSchedule b = (b.schedule ≢ "") × S3IsValid b.s3

AutoProvisions-database :
    (d : DatabaseConfig)
    → AutoProvisions d.postgres
    → AutoProvisions (default_database_config d).postgres
unfolding default_database_config
AutoProvisions-database d a = if_both AutoProvisions _ (AutoProvisions-default d.postgres a) a

-- The engine and the auto-provisioning of a valid mint's database stay.
pub BackupIsValid-default :
    (name : String) (d : DatabaseConfig) (o : Option BackupConfig)
    → DatabaseIsValid d
    → BackupIsValid d o
    → BackupIsValid (default_database_config d) (through (default_backup name) o)
unfolding through default_backup
BackupIsValid-default name d none v h = h
BackupIsValid-default name d (some b) v h =
    if_both (λ b. BackupIsValid (default_database_config d) (some b)) b.enabled
      (λ e.
        let (engine, (a, (n, s3))) = h e in
        (
          engine_set d v ∙ engine,
          (
            AutoProvisions-database d a,
            (or_text_nonempty b.schedule _ n, S3IsValid-default name b.s3 s3),
          ),
        ))
      (λ e.
        let (engine, (a, rest)) = h e in
        (engine_set d v ∙ engine, (AutoProvisions-database d a, rest)))

pub ManagementRpcIsValid-default :
    (o : Option ManagementRpcConfig)
    → ManagementRpcIsValid o
    → ManagementRpcIsValid (through default_management_rpc o)
unfolding through default_management_rpc
ManagementRpcIsValid-default none h = h
ManagementRpcIsValid-default (some m) h = if_both (λ m. ManagementRpcIsValid (some m)) m.enabled h h

pub management_rpc_enabled-default :
    (o : Option ManagementRpcConfig)
    → management_rpc_enabled (through default_management_rpc o) ≡ management_rpc_enabled o
unfolding through default_management_rpc
management_rpc_enabled-default none = refl
management_rpc_enabled-default (some m) =
    if_both (λ (d : ManagementRpcConfig). d.enabled ≡ m.enabled) m.enabled refl refl

-- A companion asks for mutual TLS only where the management endpoint is on.
pub MtlsIsValid-default :
    (before after tls : Bool) (o : Option OrchardMintRpcConfig)
    → (before ≡ true → after ≡ true)
    → (tls ≡ true → after ≡ true)
    → MtlsIsValid before o
    → MtlsIsValid after (through (default_orchard_rpc tls) o)
unfolding through default_orchard_rpc
MtlsIsValid-default before after tls none f g h = tt
MtlsIsValid-default before after tls (some r) f g h = by_mtls r.mtls (λ e. f (h e))
  where
    by_mtls :
        (o : Option Bool)
        → (o ≡ some true → after ≡ true)
        → or_some o tls ≡ some true
        → after ≡ true
    by_mtls none k e = g (some-injective _ _ e)
    by_mtls (some b) k e = k e
