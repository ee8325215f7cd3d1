-- ===== src/Controller/WorkingDatabase.antt =====
-- The secrets, the database and the backups of internal/controller/cashumint_controller.go, in a
-- healthy cluster.
use cashu_operator.Controller.Readiness.{is_stateful_set_ready}
use cashu_operator.Controller.Status.{set_condition}
use cashu_operator.Controller.Works.{
  Works-bind, Works-then, Works-the_mint, Works, OfOk, Any, Works-if, Works-done, Works-attempt,
  Works-wrapping,
}
use cashu_operator.Common.{String, Option, none, some, true, if◌then◌else◌, ◌<>◌, false}
use cashu_operator.Controller.WorkingResources.{
  Steady, Works-apply_optional, Works-patch, Works-made,
}
use cashu_operator.Api.{CashuMint, backup_ready, database_ready}
use cashu_operator.Controller.Resources.{
  reconcile_postgres_stateful_set, reconcile_postgre_sql, reconcile_optional_postgre_sql,
  reconcile_optional_backup, reconcile_backup,
}
use cashu_operator.Controller.Monad.{
  apply_stateful_set, M, done, wrapping, ◌>>=◌, event, is_not_found, ◌>>◌, send, fail, lift,
}
use cashu_operator.Controller.Secrets.{
  ensure_secret, reconcile_optional_mnemonic, reconcile_management_rpc_tls_secret,
  reconcile_postgres_secret,
}
use cashu_operator.Controller.Healthy.{IsHealthy, Works-send, Works-set_condition, Works-get_secret}
use cashu_operator.Controller.Env.{Env, Object, Result, Secret, ok, err, patch, wrapped}

module _ (env : Env) (healthy : IsHealthy env) where
  open env use {server, library, generators}

  Works-ensure_secret :
      {Q : CashuMint → Type 0} (text ns name : String) (make : M (Unit {0}))
      → Works Q (ensure_secret env text ns name make) Any Q
  unfolding ensure_secret
  Works-ensure_secret {Q = Q} text ns name make =
      Works-bind (Works-attempt (Works-get_secret env healthy ns name)) by_answer
    where
      by_answer :
          (r : Result Secret)
          → OfOk Any r
          → Works Q
              (elim r [
                | ok _ ↦ done
                | err e ↦ if is_not_found e then make else fail {A = Unit {0}} (wrapped text e)
              ])
              Any
              Q
      by_answer (ok s) p = Works-done
      by_answer (err e) p = absurd p

  pub Works-mnemonic : Steady env healthy (reconcile_optional_mnemonic env)
  unfolding reconcile_optional_mnemonic
  Works-mnemonic =
      Works-bind Works-the_mint (λ m q. Works-if _ Works-done (Works-ensure_secret _ _ _ _))

  pub Works-management_rpc_tls_secret : Steady env healthy (reconcile_management_rpc_tls_secret env)
  unfolding reconcile_management_rpc_tls_secret
  Works-management_rpc_tls_secret =
      Works-bind Works-the_mint (λ m q. Works-if _ Works-done (Works-ensure_secret _ _ _ _))

  Works-postgres_secret : Steady env healthy (reconcile_postgres_secret env)
  unfolding reconcile_postgres_secret
  Works-postgres_secret = Works-bind Works-the_mint (λ m q. Works-ensure_secret _ _ _ _)

  Works-apply_stateful_set :
      {Q : CashuMint → Type 0} (o : Object) → Works Q (apply_stateful_set env o) Any Q
  unfolding apply_stateful_set
  Works-apply_stateful_set o =
      Works-then (Works-send env healthy _) (record { run = λ w q. (tt, q) })

  Works-stateful_set : Steady env healthy (reconcile_postgres_stateful_set env)
  unfolding reconcile_postgres_stateful_set
  Works-stateful_set = Works-bind Works-the_mint (λ m q.
      Works-bind (Works-made env healthy _ _ (healthy.manifests.postgres_stateful_set m))
        (λ o _. by_object o))
    where
      by_object :
          (o : Option Object)
          → Steady env healthy (elim o [
            | none ↦ done
            | some o ↦
                wrapping "failed to apply PostgreSQL StatefulSet" (apply_stateful_set env o)
                >>= λ s.
                    if is_stateful_set_ready s
                    then set_condition env database_ready true "PostgreSQLReady"
                        "PostgreSQL database is ready"
                    else set_condition env database_ready false "PostgreSQLNotReady"
                        "Waiting for PostgreSQL to be ready"
          ])
      by_object none = Works-done
      by_object (some o) = Works-bind (Works-wrapping _ (Works-apply_stateful_set o)) (λ s _.
          Works-if _ (Works-set_condition env healthy _ _ _ _)
            (Works-set_condition env healthy _ _ _ _))

  Works-postgre_sql : Steady env healthy (reconcile_postgre_sql env)
  unfolding reconcile_postgre_sql
  Works-postgre_sql = Works-then Works-postgres_secret (
      Works-bind Works-the_mint (λ m q.
        Works-then (Works-apply_optional env healthy _ _ _ (healthy.manifests.postgres_service m))
          Works-stateful_set))

  pub Works-optional_postgre_sql : Steady env healthy (reconcile_optional_postgre_sql env)
  unfolding reconcile_optional_postgre_sql
  Works-optional_postgre_sql =
      Works-bind Works-the_mint
        (λ m q. Works-if _ Works-done (Works-bind (Works-attempt Works-postgre_sql) by_answer))
    where
      by_answer :
          (r : Result (Unit {0}))
          → OfOk Any r
          → Steady env healthy (elim r [
            | ok _ ↦ done
            | err e ↦
                event true "PostgreSQLFailed"
                >> fail {A = Unit {0}} (wrapped "failed to reconcile PostgreSQL" e)
          ])
      by_answer (ok _) p = Works-done
      by_answer (err e) p = absurd p

  pub Works-backup : Steady env healthy (reconcile_optional_backup env)
  unfolding reconcile_optional_backup reconcile_backup
  Works-backup = Works-bind Works-the_mint (λ m q. Works-if _ Works-done (
      Works-wrapping _ (
        Works-bind Works-the_mint (λ m q.
          Works-bind (Works-made env healthy _ _ (healthy.manifests.cron_job_made m))
            (λ o _. by_cron_job m o)))))
    where
      by_restore_job :
          (name : String) (o : Option Object)
          → Steady env healthy (elim o [
            | none ↦
                set_condition env backup_ready true "BackupScheduleReady"
                  ("Backup CronJob " <> (name <> " reconciled"))
            | some restore_job ↦
                wrapping "failed to apply restore Job" (send env (patch restore_job))
                >> set_condition env backup_ready true "RestoreJobReconciled" (
                    "Restore Job "
                    <> (restore_job.name <> " reconciled for requested backup object"))
          ])
      by_restore_job name none = Works-set_condition env healthy _ _ _ _
      by_restore_job name (some o) =
          Works-then (Works-patch env healthy _ o) (Works-set_condition env healthy _ _ _ _)

      by_cron_job :
          (m : CashuMint) (o : Option Object)
          → Steady env healthy (elim o [
            | none ↦
                set_condition env backup_ready false "BackupNotReconciled"
                  "Backup is enabled but no backup resources were generated"
            | some cron_job ↦
                wrapping "failed to apply backup CronJob" (send env (patch cron_job))
                >> (wrapping "failed to generate restore Job"
                      (lift (generators.postgres_restore_job m))
                    >>= λ o. elim o [
                      | none ↦
                          set_condition env backup_ready true "BackupScheduleReady"
                            ("Backup CronJob " <> (cron_job.name <> " reconciled"))
                      | some restore_job ↦
                          wrapping "failed to apply restore Job" (send env (patch restore_job))
                          >> set_condition env backup_ready true "RestoreJobReconciled" (
                              "Restore Job "
                              <> (restore_job.name <> " reconciled for requested backup object"))
                    ])
          ])
      by_cron_job m none = Works-set_condition env healthy _ _ _ _
      by_cron_job m (some c) = Works-then (Works-patch env healthy _ c) (
          Works-bind (Works-made env healthy _ _ (healthy.manifests.restore_job m))
            (λ o _. by_restore_job c.name o))
