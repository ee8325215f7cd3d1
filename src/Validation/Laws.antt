-- ===== src/Validation/Laws.antt =====
-- Each validator accepts exactly what is valid.
use cashu_operator.Validation.Payment.{
  validate_payment_backend, lnd_problems, cln_problems, lnbits_problems, sidecar_problems,
  grpc_processor_problems, backend_count,
}
use cashu_operator.Validation.Lists.{
  append_iff, problem_iff, report_iff, guarded_iff, unless_iff, nonempty_iff, compose_iff, both_iff,
  engine_iff, engine_switch_iff, same_iff,
}
use cashu_operator.Validation.Valid.{
  SelectorIsValid, PostgresIsValid, DatabaseIsValid, CertManagerIsValid, TlsIsValid, IngressIsValid,
  ManagementRpcIsValid, LndIsValid, ClnIsValid, LnbitsIsValid, SidecarIsValid, GrpcProcessorIsValid,
  PaymentIsValid, S3IsValid, AutoProvisions, BackupIsValid, TlsRefIsValid,
}
use cashu_operator.Validation.Sections.{
  postgres_problems, validate_database, validate_ingress_config, validate_management_rpc,
  validate_backup, cert_manager_problem, tls_problem, auto_provisions, s3_problems, tls_ref_problem,
}
use cashu_operator.Api.{
  PostgresConfig, SecretKeySelector, CertManagerConfig, IngressTlsConfig, LndConfig, ClnConfig,
  LnbitsConfig, SidecarProcessorConfig, GrpcProcessorConfig, S3BackupConfig, DatabaseConfig,
  IngressConfig, ManagementRpcConfig, PaymentBackendConfig, BackupConfig, LocalObjectReference,
}
use cashu_operator.Common.{
  Option, String, Bool, ◌≡◌, none, [], ◌↔◌, arith, some, eq_iff, ℕ, not, List, false, ◌=?◌, refl,
  ◌++◌, ltb, Bool-cases, ◌==◌, inl, inr,
}
use cashu_operator.Validation.Report.{validate_secret_key_selector, problem}

pub validate_secret_key_selector_iff :
    (path : String) (ref : Option SecretKeySelector) (required : Bool)
    → (validate_secret_key_selector path ref required ≡ none) ↔ SelectorIsValid required ref
unfolding validate_secret_key_selector
validate_secret_key_selector_iff path none required = ground arith
validate_secret_key_selector_iff path (some r) required =
    ground (arith, eq_iff r.name "", eq_iff r.key "")

postgres_problems_iff : (o : Option PostgresConfig) → (postgres_problems o ≡ []) ↔ PostgresIsValid o
postgres_problems_iff none = (λ h. cc, λ h. absurd h)
postgres_problems_iff (some pg) =
    append_iff _ _ (problem_iff _ _ (ground (arith, eq_iff pg.url "")))
      (problem_iff _ _ (ground (arith, eq_iff pg.url "")))

-- `validateDatabase` reports no problem exactly when the engine is SQLite or redb, with or without a
-- section of its own, or it is PostgreSQL with a section that auto-provisions, has a URL or refers
-- to a secret with the URL, and does not have both a URL and such a reference.
pub validate_database_iff : (d : DatabaseConfig) → (validate_database d ≡ none) ↔ DatabaseIsValid d
unfolding validate_database
validate_database_iff d =
    report_iff _ _ (engine_switch_iff d.engine _ _ (postgres_problems_iff d.postgres))

cert_manager_problem_iff :
    (path : String) (o : Option CertManagerConfig)
    → (cert_manager_problem path o ≡ []) ↔ CertManagerIsValid o
cert_manager_problem_iff path none = (λ _. tt, λ _. refl)
cert_manager_problem_iff path (some c) = problem_iff _ _ (ground (arith, eq_iff c.issuer_name ""))

tls_problem_iff :
    (path : String) (o : Option IngressTlsConfig) → (tls_problem path o ≡ []) ↔ TlsIsValid o
tls_problem_iff path none = (λ _. tt, λ _. refl)
tls_problem_iff path (some t) = guarded_iff t.enabled (cert_manager_problem_iff path t.cert_manager)

-- `validateIngressConfig` reports no problem, whatever path it names, exactly when an ingress that
-- is enabled has a host and, with an enabled cert-manager, an issuer.
pub validate_ingress_config_iff :
    (path : String) (o : Option IngressConfig)
    → (validate_ingress_config path o ≡ none) ↔ IngressIsValid o
unfolding validate_ingress_config
validate_ingress_config_iff path none = (λ _. tt, λ _. refl)
validate_ingress_config_iff path (some c) = unless_iff c.enabled (
    report_iff _ _
      (append_iff _ _ (problem_iff _ _ (nonempty_iff c.host)) (tls_problem_iff path c.tls)))

tls_ref_problem_iff :
    (o : Option LocalObjectReference) → (tls_ref_problem o ≡ none) ↔ TlsRefIsValid o
tls_ref_problem_iff none = (λ _. tt, λ _. refl)
tls_ref_problem_iff (some r) = elim (Bool-cases (r.name == "")) [
  | inl e ↦ rw e (λ h. cc, λ h. absurd (h ((eq_iff r.name "").0 e)))
  | inr e ↦ rw e (λ _. (nonempty_iff r.name).0 e, λ _. refl)
]

pub validate_management_rpc_iff :
    (o : Option ManagementRpcConfig) → (validate_management_rpc o ≡ none) ↔ ManagementRpcIsValid o
unfolding validate_management_rpc
validate_management_rpc_iff none = (λ _. tt, λ _. refl)
validate_management_rpc_iff (some m) = tls_ref_problem_iff m.tls_secret_ref

lnd_problems_iff : (o : Option LndConfig) → (lnd_problems o ≡ []) ↔ LndIsValid o
lnd_problems_iff none = (λ _. tt, λ _. refl)
lnd_problems_iff (some c) = problem_iff _ _ (nonempty_iff c.address)

cln_problems_iff : (o : Option ClnConfig) → (cln_problems o ≡ []) ↔ ClnIsValid o
cln_problems_iff none = (λ _. tt, λ _. refl)
cln_problems_iff (some c) = problem_iff _ _ (nonempty_iff c.rpc_path)

lnbits_problems_iff : (o : Option LnbitsConfig) → (lnbits_problems o ≡ []) ↔ LnbitsIsValid o
lnbits_problems_iff none = (λ _. tt, λ _. refl)
lnbits_problems_iff (some c) = problem_iff _ _ (nonempty_iff c.api)

sidecar_problems_iff :
    (o : Option SidecarProcessorConfig) → (sidecar_problems o ≡ []) ↔ SidecarIsValid o
sidecar_problems_iff none = (λ _. tt, λ _. refl)
sidecar_problems_iff (some c) =
    guarded_iff c.enabled
      (append_iff _ _ (problem_iff _ _ (nonempty_iff c.image)) (problem_iff _ _ (ground arith)))

grpc_processor_problems_iff :
    (o : Option GrpcProcessorConfig) → (grpc_processor_problems o ≡ []) ↔ GrpcProcessorIsValid o
grpc_processor_problems_iff none = (λ _. tt, λ _. refl)
grpc_processor_problems_iff (some c) =
    append_iff _ _ (problem_iff _ _ (ground (arith, eq_iff c.address "")))
      (sidecar_problems_iff c.sidecar_processor)

count_iff :
    (n : ℕ) (a b : String) (xs : List String) {P : Type 0}
    → ((xs ≡ []) ↔ P)
    → (problem (n =? 0) a ++ (problem (ltb 1 n) b ++ xs) ≡ []) ↔ ((n ≡ 1) × P)
count_iff n a b xs h =
    compose_iff
      (append_iff _ _ (problem_iff (n =? 0) a same_iff)
        (append_iff _ _ (problem_iff (ltb 1 n) b same_iff) h))
      (λ r. (one n r.0 r.1.0, r.1.1), λ r. (ground arith, (ground arith, r.1)))
  where
    one : (n : ℕ) → (n =? 0) ≡ false → ltb 1 n ≡ false → n ≡ 1
    one n h k = ground arith

-- `validatePaymentBackend` reports no problem exactly when one backend is given, and LND has its
-- address, CLN its RPC path, LNBits its API, and a gRPC processor an enabled sidecar or an address,
-- where an enabled sidecar has an image and, with TLS, a reference to the TLS secret.
pub validate_payment_backend_iff :
    (p : PaymentBackendConfig) → (validate_payment_backend p ≡ none) ↔ PaymentIsValid p
unfolding validate_payment_backend backend_count
validate_payment_backend_iff p = report_iff _ _ (
    count_iff _ _ _ _ (
      append_iff _ _ (lnd_problems_iff p.lnd) (
        append_iff _ _ (cln_problems_iff p.cln) (
          append_iff _ _ (lnbits_problems_iff p.lnbits)
            (grpc_processor_problems_iff p.grpc_processor)))))

auto_provisions_iff :
    (o : Option PostgresConfig) → (not (auto_provisions o) ≡ false) ↔ AutoProvisions o
auto_provisions_iff none = (λ h. cc, λ h. absurd h)
auto_provisions_iff (some pg) = ground arith

s3_problems_iff : (o : Option S3BackupConfig) → (s3_problems o ≡ []) ↔ S3IsValid o
s3_problems_iff none = (λ h. cc, λ h. absurd h)
s3_problems_iff (some s3) = append_iff _ _ (problem_iff _ _ (nonempty_iff s3.bucket)) (
    append_iff _ _
      (problem_iff _ _ (both_iff s3.access_key_id_secret_ref.name s3.access_key_id_secret_ref.key))
      (problem_iff _ _
        (both_iff s3.secret_access_key_secret_ref.name s3.secret_access_key_secret_ref.key)))

-- `validateBackup` reports no problem exactly when a backup that is enabled has an auto-provisioned
-- PostgreSQL, a schedule, and a bucket with both of its secrets.
pub validate_backup_iff :
    (d : DatabaseConfig) (o : Option BackupConfig)
    → (validate_backup d o ≡ none) ↔ BackupIsValid d o
unfolding validate_backup
validate_backup_iff d none = (λ _. tt, λ _. refl)
validate_backup_iff d (some b) = unless_iff b.enabled (
    report_iff _ _ (
      append_iff _ _ (problem_iff _ _ (engine_iff d.engine)) (
        append_iff _ _ (problem_iff _ _ (auto_provisions_iff d.postgres))
          (append_iff _ _ (problem_iff _ _ (nonempty_iff b.schedule)) (s3_problems_iff b.s3)))))
