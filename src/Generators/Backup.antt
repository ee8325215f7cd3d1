-- ===== src/Generators/Backup.antt =====
-- internal/controller/generators/backup.go
use cashu_operator.Common.Int.{pos}
use cashu_operator.Controller.Secrets.{postgres_secret_name}
use cashu_operator.Generators.Postgres.{secret_env, plain_env, no_resources}
use cashu_operator.Generators.Names.{component_labels, added}
use cashu_operator.Controller.Env.{Result, ok, cron_job, job}
use cashu_operator.Generators.Manifest.{
  OwnerError, Labels, PodTemplate, CronJobManifest, JobManifest, owned_some,
}
use cashu_operator.Api.{
  CashuMint, BackupConfig, DatabaseConfig, S3BackupConfig, PostgresConfig,
  PostgresAutoProvisionSpec, EnvVar,
}
use cashu_operator.Common.{
  String, Option, List, slice, some, if◌then◌else◌, or_text, ◌∷◌, or_value, none, not, ◌<>◌, lookup,
  ◌==◌, [], ◌++◌, false,
}

abbrev pub restore_object_key_annotation : String
restore_object_key_annotation = "mint.cashu.asmogo.github.io/restore-object-key"

abbrev pub restore_request_id_annotation : String
restore_request_id_annotation = "mint.cashu.asmogo.github.io/restore-request-id"

-- The script of the backup container.
abbrev backup_script : String
backup_script =
    "set -euo pipefail\napk add --no-cache aws-cli >/dev/null\ntimestamp=\"$(date -u +%Y%m%dT%H%M%SZ)\"\ntmp_file=\"/tmp/${MINT_NAME}-${timestamp}.sql.gz\"\nobject_key=\"${MINT_NAME}-${timestamp}.sql.gz\"\nif [ -n \"${S3_PREFIX:-}\" ]; then\n  prefix=\"${S3_PREFIX%/}\"\n  object_key=\"${prefix}/${object_key}\"\nfi\npg_dump \"${DATABASE_URL}\" | gzip > \"${tmp_file}\"\nif [ -n \"${S3_ENDPOINT:-}\" ]; then\n  aws s3 cp \"${tmp_file}\" \"s3://${S3_BUCKET}/${object_key}\" --endpoint-url \"${S3_ENDPOINT}\"\nelse\n  aws s3 cp \"${tmp_file}\" \"s3://${S3_BUCKET}/${object_key}\"\nfi"

-- The script of the restore container.
abbrev restore_script : String
restore_script =
    "set -euo pipefail\napk add --no-cache aws-cli >/dev/null\ntmp_file=\"/tmp/restore.sql.gz\"\nif [ -n \"${S3_ENDPOINT:-}\" ]; then\n  aws s3 cp \"s3://${S3_BUCKET}/${RESTORE_OBJECT_KEY}\" \"${tmp_file}\" --endpoint-url \"${S3_ENDPOINT}\"\nelse\n  aws s3 cp \"s3://${S3_BUCKET}/${RESTORE_OBJECT_KEY}\" \"${tmp_file}\"\nfi\ngunzip -c \"${tmp_file}\" | psql \"${DATABASE_URL}\""

abbrev pub backup_labels : CashuMint → Labels
backup_labels = component_labels "cashu-mint" "backup"

-- What both generators go on with: the backup, its bucket and the database, where the backup is
-- enabled and the database is an auto-provisioned PostgreSQL.
abbrev pub BackupParts : Type 0
BackupParts = BackupConfig × (S3BackupConfig × PostgresConfig)

abbrev with_bucket :
    BackupConfig → Option PostgresConfig → Option S3BackupConfig → Option BackupParts
with_bucket b none s3 = none
with_bucket b (some p) none = none
with_bucket b (some p) (some s3) = if p.auto_provision then some (b, (s3, p)) else none

abbrev pub backup_parts : DatabaseConfig → Option BackupConfig → Option BackupParts
backup_parts d none = none
backup_parts d (some b) =
    if not b.enabled
    then none
    else if not (d.engine == "postgres")
    then none
    else with_bucket b d.postgres b.s3

abbrev set_version : Option PostgresAutoProvisionSpec → String
set_version none = "15"
set_version (some s) = or_text s.version "15"

abbrev database_url_env : CashuMint → EnvVar
database_url_env m =
    secret_env "DATABASE_URL"
      (some (record { name = postgres_secret_name m.metadata.name; key = "database-url" }))

-- The keys of the bucket, and its region and endpoint where they are set.
abbrev bucket_env : S3BackupConfig → List EnvVar
bucket_env s3 =
    secret_env "AWS_ACCESS_KEY_ID" (some s3.access_key_id_secret_ref)
    ∷ (secret_env "AWS_SECRET_ACCESS_KEY" (some s3.secret_access_key_secret_ref)
        ∷ (added (not (s3.region == "")) (plain_env "AWS_DEFAULT_REGION" s3.region ∷ [])
            ++ added (not (s3.endpoint == "")) (plain_env "S3_ENDPOINT" s3.endpoint ∷ [])))

unfoldable pub backup_env : CashuMint → S3BackupConfig → List EnvVar
backup_env m s3 =
    database_url_env m
    ∷ (plain_env "MINT_NAME" m.metadata.name
        ∷ (plain_env "S3_BUCKET" s3.bucket ∷ (plain_env "S3_PREFIX" s3.prefix ∷ bucket_env s3)))

unfoldable pub restore_env : CashuMint → S3BackupConfig → String → List EnvVar
restore_env m s3 object_key =
    database_url_env m
    ∷ (plain_env "S3_BUCKET" s3.bucket
        ∷ (plain_env "RESTORE_OBJECT_KEY" object_key ∷ bucket_env s3))

-- The pod of a job with one container that runs a script.
unfoldable pub job_template :
    CashuMint → String → PostgresConfig → String → List EnvVar → PodTemplate
job_template m name p script env = record {
  labels = backup_labels m;
  annotations = none;
  spec = record {
    init_containers = [];
    containers =
        record {
          name = name;
          image = "postgres:" <> (set_version p.auto_provision_spec <> "-alpine");
          image_pull_policy = "";
          command = "sh" ∷ ("-ec" ∷ (script ∷ []));
          args = [];
          ports = [];
          env = env;
          volume_mounts = [];
          resources = no_resources;
          liveness_probe = none;
          readiness_probe = none;
          security_context = some (record {
            allow_privilege_escalation = some false;
            read_only_root_filesystem = none;
            run_as_non_root = some false;
            run_as_user = none;
            drop = [];
          });
        }
        ∷ [];
    volumes = [];
    image_pull_secrets = [];
    node_selector = none;
    tolerations = [];
    affinity = none;
    restart_policy = "OnFailure";
    security_context = none;
  };
}

unfoldable pub cron_job_manifest :
    CashuMint → BackupConfig → S3BackupConfig → PostgresConfig → CronJobManifest
cron_job_manifest m b s3 p = record {
  meta = record {
    name = m.metadata.name <> "-backup";
    namespace = m.metadata.namespace;
    labels = backup_labels m;
    annotations = none;
    owner = some m.metadata.name;
  };
  schedule = or_text b.schedule "0 */6 * * *";
  successful_history = or_value b.retention_count (pos 14);
  failed_history = or_value b.retention_count (pos 14);
  template = job_template m "postgres-backup" p backup_script (backup_env m s3);
}

-- `GeneratePostgresBackupCronJob`
unfoldable pub generate_postgres_backup_cron_job :
    OwnerError → CashuMint → Result (Option CronJobManifest)
generate_postgres_backup_cron_job owner_error m =
    elim (backup_parts m.spec.database m.spec.backup) [
      | none ↦ ok none
      | some parts ↦
          owned_some owner_error cron_job m (cron_job_manifest m parts.0 parts.1.0 parts.1.1)
    ]

-- `shortHash`
unfoldable pub short_hash : (String → String) → String → String
short_hash sha256_hex input = slice (sha256_hex input) 0 10

-- The trimmed annotation of a name; a missing one is empty.
unfoldable pub annotation_text : (String → String) → Option Labels → String → String
annotation_text trim_space none key = ""
annotation_text trim_space (some l) key = trim_space (or_value (lookup key l) "")

unfoldable pub restore_request_id : (String → String) → Option Labels → String → String
restore_request_id trim_space l object_key =
    or_text (annotation_text trim_space l restore_request_id_annotation) object_key

unfoldable pub restore_job_manifest :
    (String → String) → CashuMint → S3BackupConfig → PostgresConfig → String → String → JobManifest
restore_job_manifest sha256_hex m s3 p object_key request_id = record {
  meta = record {
    name =
        m.metadata.name
        <> ("-restore-" <> short_hash sha256_hex (request_id <> (":" <> object_key)));
    namespace = m.metadata.namespace;
    labels = backup_labels m;
    annotations = some (
        (restore_object_key_annotation, object_key)
        ∷ ((restore_request_id_annotation, request_id) ∷ []));
    owner = some m.metadata.name;
  };
  backoff_limit = pos 1;
  ttl_seconds = pos 86400;
  template = job_template m "postgres-restore" p restore_script (restore_env m s3 object_key);
}

-- `GeneratePostgresRestoreJob`
unfoldable pub generate_postgres_restore_job :
    (String → String) → (String → String) → OwnerError → CashuMint → Result (Option JobManifest)
generate_postgres_restore_job trim_space sha256_hex owner_error m =
    elim (backup_parts m.spec.database m.spec.backup) [
      | none ↦ ok none
      | some parts ↦
          let object_key =
            annotation_text trim_space m.metadata.annotations restore_object_key_annotation in
          if object_key == ""
          then ok none
          else owned_some owner_error job m (
              restore_job_manifest sha256_hex m parts.1.0 parts.1.1 object_key
                (restore_request_id trim_space m.metadata.annotations object_key))
    ]
