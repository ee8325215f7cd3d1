-- ===== src/Validation/Sections.antt =====
-- `validateDatabase`, `validateIngress`, `validateResources`, `validateBackup` and
-- `validateManagementRPC` (api/v1alpha1/cashumint_webhook.go).
use cashu_operator.Api.{
  CertManagerConfig, ResourceList, ResourceRequirements, PostgresConfig, DatabaseConfig,
  IngressTlsConfig, IngressConfig, CashuMintSpec, ManagementRpcConfig, S3BackupConfig,
  database_engine_postgres, database_engine_sqlite, database_engine_redb, LocalObjectReference,
  BackupConfig,
}
use cashu_operator.Common.Int.{ℤ, pos, negsuc}
use cashu_operator.Validation.Report.{report, problem}
use cashu_operator.Common.{
  Option, String, Bool, List, false, none, some, ◌∷◌, if◌then◌else◌, [], not, ◌==◌, ◌<>◌, ◌=?◌,
  lookup, present, ◌&&◌, ◌++◌, ◌||◌,
}

-- The case `DatabaseEnginePostgres` of the switch.
abbrev pub postgres_problems : Option PostgresConfig → List String
postgres_problems none = "spec.database.postgres is required when engine is postgres" ∷ []
postgres_problems (some pg) =
    let has_url = not (pg.url == "") in
    let has_secret_ref = present pg.url_secret_ref in
    problem (not pg.auto_provision && (not has_url && not has_secret_ref))
      "spec.database.postgres must have either url, urlSecretRef, or autoProvision enabled"
    ++ problem (has_url && has_secret_ref)
        "spec.database.postgres cannot specify both url and urlSecretRef"

-- `validateDatabase`
unfoldable pub validate_database : DatabaseConfig → Option String
validate_database d = report "database validation errors: " (
    if d.engine == database_engine_postgres
    then postgres_problems d.postgres
    else if d.engine == database_engine_sqlite || d.engine == database_engine_redb
    then []
    else ("invalid database engine: " <> (d.engine <> " (must be postgres, sqlite, or redb)")) ∷ [])

abbrev pub cert_manager_problem : String → Option CertManagerConfig → List String
cert_manager_problem path none = []
cert_manager_problem path (some c) =
    problem (c.enabled && c.issuer_name == "")
      (path <> ".tls.certManager.issuerName is required when cert-manager is enabled")

abbrev pub tls_problem : String → Option IngressTlsConfig → List String
tls_problem path none = []
tls_problem path (some t) = if t.enabled then cert_manager_problem path t.cert_manager else []

-- `validateIngressConfig`
unfoldable pub validate_ingress_config : String → Option IngressConfig → Option String
validate_ingress_config path none = none
validate_ingress_config path (some c) =
    if not c.enabled
    then none
    else report (path <> " validation errors: ") (
        problem (c.host == "") (path <> ".host is required when ingress is enabled")
        ++ tls_problem path c.tls)

-- `validateIngress`
unfoldable pub validate_ingress : CashuMintSpec → Option String
validate_ingress s = validate_ingress_config "spec.ingress" s.ingress

abbrev pub tls_ref_problem : Option LocalObjectReference → Option String
tls_ref_problem none = none
tls_ref_problem (some r) =
    if r.name == ""
    then some "management RPC validation errors: [spec.managementRPC.tlsSecretRef.name is required]"
    else none

-- `validateManagementRPC`
unfoldable pub validate_management_rpc : Option ManagementRpcConfig → Option String
validate_management_rpc none = none
validate_management_rpc (some m) = tls_ref_problem m.tls_secret_ref

abbrev pub is_positive : ℤ → Bool
is_positive (pos n) = not (n =? 0)
is_positive (negsuc n) = false

module _ (cmp : String → String → ℤ) where
  abbrev pub exceeds : String → Option String → Bool
  exceeds limit none = false
  exceeds limit (some request) = is_positive (cmp request limit)

  -- The loop of `validateResources` over the limits, in the order in which the map is walked.
  unfoldable pub check_limits : ResourceList → ResourceList → Option String
  check_limits requests [] = none
  check_limits requests ((resource, limit) ∷ limits) =
      if exceeds limit (lookup resource requests)
      then some ("resource request for " <> (resource <> " exceeds limit"))
      else check_limits requests limits

  abbrev pub check_resources : Option ResourceList → Option ResourceList → Option String
  check_resources none requests = none
  check_resources (some limits) none = none
  check_resources (some limits) (some requests) = check_limits requests limits

  -- `validateResources`
  unfoldable pub validate_resources : Option ResourceRequirements → Option String
  validate_resources none = none
  validate_resources (some r) = check_resources r.limits r.requests

abbrev pub auto_provisions : Option PostgresConfig → Bool
auto_provisions none = false
auto_provisions (some pg) = pg.auto_provision

abbrev pub s3_problems : Option S3BackupConfig → List String
s3_problems none = "spec.backup.s3 is required when backup is enabled" ∷ []
s3_problems (some s3) =
    problem (s3.bucket == "") "spec.backup.s3.bucket is required"
    ++ (problem (s3.access_key_id_secret_ref.name == "" || s3.access_key_id_secret_ref.key == "")
          "spec.backup.s3.accessKeyIdSecretRef.name and key are required"
        ++ problem
            (s3.secret_access_key_secret_ref.name == ""
              || s3.secret_access_key_secret_ref.key == "")
            "spec.backup.s3.secretAccessKeySecretRef.name and key are required")

-- `validateBackup`, given `r.Spec.Database` and `r.Spec.Backup`.
unfoldable pub validate_backup : DatabaseConfig → Option BackupConfig → Option String
validate_backup d none = none
validate_backup d (some b) =
    if not b.enabled
    then none
    else report "backup validation errors: " (
        problem (not (d.engine == "postgres"))
          "spec.backup.enabled requires spec.database.engine to be postgres"
        ++ (problem (not (auto_provisions d.postgres))
              "spec.backup.enabled currently requires spec.database.postgres.autoProvision=true"
            ++ (problem (b.schedule == "") "spec.backup.schedule is required when backup is enabled"
                ++ s3_problems b.s3)))
