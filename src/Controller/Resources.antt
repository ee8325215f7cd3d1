-- ===== src/Controller/Resources.antt =====
-- internal/controller/cashumint_controller.go: the resources that a pass applies.
use cashu_operator.Controller.Readiness.{calculate_config_hash, is_stateful_set_ready}
use cashu_operator.Controller.Status.{set_condition}
use cashu_operator.Controller.Secrets.{reconcile_postgres_secret, is_auto_provisioned}
use cashu_operator.Controller.Monad.{
  M, is_no_match, ◌>>=◌, ◌>>◌, wrapping, the_mint, lift, get_config_map, done, send,
  apply_stateful_set, attempt, event, is_not_found, fail,
}
use cashu_operator.Controller.Env.{
  Error, Env, Result, Object, patch, delete, ok, pod_monitor, err, wrapped,
}
use cashu_operator.Api.{
  CashuMintSpec, IngressConfig, CertManagerConfig, IngressTlsConfig, PrometheusConfig, BackupConfig,
  OrchardConfig, database_engine_sqlite, orchard_enabled, database_engine_redb, backup_ready,
  database_ready,
}
use cashu_operator.Common.{
  String, Option, Bool, if◌then◌else◌, ◌==◌, ◌||◌, false, some, ◌&&◌, none, not, ◌<>◌, true,
}

-- `Engine` of a database, and the tests of what a mint needs.
abbrev is_sqlite_or_redb : String → Bool
is_sqlite_or_redb engine = (engine == database_engine_sqlite) || (engine == database_engine_redb)

-- `needsPVCReconciliation`
unfoldable pub needs_pvc_reconciliation : CashuMintSpec → Bool
needs_pvc_reconciliation s = is_sqlite_or_redb s.database.engine || orchard_enabled s.orchard

abbrev pub ingress_enabled : Option IngressConfig → Bool
ingress_enabled none = false
ingress_enabled (some i) = i.enabled

abbrev pub cert_manager_enabled : Option CertManagerConfig → Bool
cert_manager_enabled none = false
cert_manager_enabled (some c) = c.enabled

abbrev pub tls_needs_certificate : Option IngressTlsConfig → Bool
tls_needs_certificate none = false
tls_needs_certificate (some t) = t.enabled && cert_manager_enabled t.cert_manager

abbrev pub needs_certificate : Option IngressConfig → Bool
needs_certificate none = false
needs_certificate (some i) = i.enabled && tls_needs_certificate i.tls

-- A test of the Orchard companion's ingress, where the companion is enabled.
abbrev pub orchard_ingress_test : (Option IngressConfig → Bool) → Option OrchardConfig → Bool
orchard_ingress_test test none = false
orchard_ingress_test test (some o) = o.enabled && test o.ingress

-- `needsIngressReconciliation`
unfoldable pub needs_ingress_reconciliation : CashuMintSpec → Bool
needs_ingress_reconciliation s =
    ingress_enabled s.ingress || orchard_ingress_test ingress_enabled s.orchard

-- `needsCertificateReconciliation`
unfoldable pub needs_certificate_reconciliation : CashuMintSpec → Bool
needs_certificate_reconciliation s =
    needs_certificate s.ingress || orchard_ingress_test needs_certificate s.orchard

abbrev pub prometheus_enabled : Option PrometheusConfig → Bool
prometheus_enabled none = false
prometheus_enabled (some p) = p.enabled

abbrev pub backup_enabled : Option BackupConfig → Bool
backup_enabled none = false
backup_enabled (some b) = b.enabled

abbrev pub pod_monitor_failure : Error → String
pod_monitor_failure e =
    if is_no_match e
    then "failed to apply PodMonitor: Prometheus Operator PodMonitor CRD is not installed"
    else "failed to apply PodMonitor"

module _ (env : Env) where
  open env use {server, library, generators}

  -- Generate a manifest, and apply it where there is one.
  unfoldable pub apply_optional : String → String → Result (Option Object) → M (Unit {0})
  apply_optional generate_text apply_text generated = do
    o ← wrapping generate_text (lift generated)
    elim o [ none ↦ done | some o ↦ wrapping apply_text (send env (patch o)) ]

  unfoldable pub apply_required : String → String → Result Object → M (Unit {0})
  apply_required generate_text apply_text generated = do
    o ← wrapping generate_text (lift generated)
    wrapping apply_text (send env (patch o))

  -- The second part of `reconcilePostgreSQL`; readiness is read from what the patch wrote back.
  unfoldable pub reconcile_postgres_stateful_set : M (Unit {0})
  reconcile_postgres_stateful_set = do
    m ← the_mint
    o ←
        wrapping "failed to generate PostgreSQL StatefulSet"
          (lift (generators.postgres_stateful_set m))
    elim o [
      | none ↦ done
      | some o ↦ do
        s ← wrapping "failed to apply PostgreSQL StatefulSet" (apply_stateful_set env o)
        if is_stateful_set_ready s
            then set_condition env database_ready true "PostgreSQLReady"
                "PostgreSQL database is ready"
            else set_condition env database_ready false "PostgreSQLNotReady"
                "Waiting for PostgreSQL to be ready"
    ]

  -- `reconcilePostgreSQL`
  unfoldable pub reconcile_postgre_sql : M (Unit {0})
  reconcile_postgre_sql = do
    reconcile_postgres_secret env
    m ← the_mint
    apply_optional "failed to generate PostgreSQL service" "failed to apply PostgreSQL service"
        (generators.postgres_service m)
    reconcile_postgres_stateful_set

  -- `reconcileOptionalPostgreSQL`
  unfoldable pub reconcile_optional_postgre_sql : M (Unit {0})
  reconcile_optional_postgre_sql = do
    m ← the_mint
    if not (is_auto_provisioned m.spec.database.postgres) then done else (do
      r ← attempt reconcile_postgre_sql
      elim r [
        | ok _ ↦ done
        | err e ↦ do
          event true "PostgreSQLFailed"
          fail (wrapped "failed to reconcile PostgreSQL" e)
      ])

  -- `reconcileBackup`
  unfoldable pub reconcile_backup : M (Unit {0})
  reconcile_backup = do
    m ← the_mint
    o ← wrapping "failed to generate backup CronJob" (lift (generators.postgres_backup_cron_job m))
    elim o [
      | none ↦
          set_condition env backup_ready false "BackupNotReconciled"
            "Backup is enabled but no backup resources were generated"
      | some cron_job ↦ do
        wrapping "failed to apply backup CronJob" (send env (patch cron_job))
        o ← wrapping "failed to generate restore Job" (lift (generators.postgres_restore_job m))
        elim o [
          | none ↦
              set_condition env backup_ready true "BackupScheduleReady"
                ("Backup CronJob " <> (cron_job.name <> " reconciled"))
          | some restore_job ↦ do
            wrapping "failed to apply restore Job" (send env (patch restore_job))
            set_condition env backup_ready true "RestoreJobReconciled"
                ("Restore Job " <> (restore_job.name <> " reconciled for requested backup object"))
        ]
    ]

  -- `reconcileOptionalBackup`
  unfoldable pub reconcile_optional_backup : M (Unit {0})
  reconcile_optional_backup = do
    m ← the_mint
    if not (backup_enabled m.spec.backup)
        then done
        else wrapping "failed to reconcile backup resources" reconcile_backup

  -- `reconcilePVC`
  unfoldable pub reconcile_pvc : M (Unit {0})
  reconcile_pvc = do
    m ← the_mint
    apply_optional "failed to generate PVC" "failed to apply PVC" (generators.pvc_object m)
    apply_optional "failed to generate Orchard PVC" "failed to apply Orchard PVC"
        (generators.orchard_pvc m)

  -- `reconcileDeployment`
  unfoldable pub reconcile_deployment : M (Unit {0})
  reconcile_deployment = do
    m ← the_mint
    c ←
        wrapping "failed to get ConfigMap for hash calculation"
          (get_config_map env m.metadata.namespace (m.metadata.name <> "-config"))
    apply_required "failed to generate Deployment" "failed to apply Deployment"
        (generators.deployment_object m (calculate_config_hash library.sha256_hex c))

  -- `reconcileService`
  unfoldable pub reconcile_service : M (Unit {0})
  reconcile_service = do
    m ← the_mint
    apply_required "failed to generate Service" "failed to apply Service"
        (generators.service_object m)
    apply_optional "failed to generate Orchard Service" "failed to apply Orchard Service"
        (generators.orchard_service m)

  -- `reconcilePodMonitor`; without metrics the monitor is deleted.
  unfoldable pub reconcile_pod_monitor : M (Unit {0})
  reconcile_pod_monitor = do
    m ← the_mint
    if not (prometheus_enabled m.spec.prometheus)
        then (do
          r ← attempt (send env (delete pod_monitor m.metadata.namespace m.metadata.name))
          elim r [
            | ok _ ↦ done
            | err e ↦
                if is_not_found e || is_no_match e
                then done
                else fail (wrapped "failed to delete PodMonitor" e)
          ])
        else (do
          o ← wrapping "failed to generate PodMonitor" (lift (generators.pod_monitor_object m))
          elim o [
            | none ↦ done
            | some o ↦ do
              r ← attempt (send env (patch o))
              elim r [ ok _ ↦ done | err e ↦ fail (wrapped (pod_monitor_failure e) e) ]
          ])

  -- `reconcileIngress`
  unfoldable pub reconcile_ingress : M (Unit {0})
  reconcile_ingress = do
    m ← the_mint
    apply_optional "failed to generate Ingress" "failed to apply Ingress"
        (generators.ingress_object m)
    apply_optional "failed to generate Orchard Ingress" "failed to apply Orchard Ingress"
        (generators.orchard_ingress m)

  -- `reconcileCertificate`
  unfoldable pub reconcile_certificate : M (Unit {0})
  reconcile_certificate = do
    m ← the_mint
    apply_optional "failed to generate Certificate" "failed to apply Certificate"
        (generators.certificate_object m)
    apply_optional "failed to generate Orchard Certificate" "failed to apply Orchard Certificate"
        (generators.orchard_certificate m)
