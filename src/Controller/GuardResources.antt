-- ===== src/Controller/GuardResources.antt =====
-- Guarded exchanges (Controller/Guard.antt) under the steps of
-- internal/controller/cashumint_controller.go that apply resources.
use cashu_operator.Controller.Readiness.{is_stateful_set_ready}
use cashu_operator.Api.{backup_ready, database_ready, CashuMint}
use cashu_operator.Controller.Status.{set_condition}
use cashu_operator.Controller.Monad.{
  done, wrapping, apply_stateful_set, is_not_found, ◌>>=◌, send, is_no_match, fail, ◌>>◌, lift,
  attempt,
}
use cashu_operator.Controller.GuardSteps.{
  Keeps-the_mint, Keeps-apply_optional, Keeps-apply_required, Keeps-get_config_map, Keeps-done,
  Keeps-set_condition, Keeps-apply_stateful_set, Keeps-patch, Keeps-lift, Keeps-fail,
}
use cashu_operator.Controller.Secrets.{reconcile_postgres_secret}
use cashu_operator.Common.{Option, String, none, some, if◌then◌else◌, true, ◌<>◌, ◌||◌, false, refl}
use cashu_operator.Controller.Guard.{
  Keeps, Keeps-bind, Keeps-then, Keeps-wrapping, Keeps-if, Keeps-attempt, Keeps-send,
}
use cashu_operator.Controller.Resources.{
  reconcile_postgres_stateful_set, reconcile_postgre_sql, reconcile_optional_backup, reconcile_pvc,
  reconcile_deployment, reconcile_service, reconcile_ingress, reconcile_certificate,
  reconcile_pod_monitor, reconcile_backup, pod_monitor_failure,
}
use cashu_operator.Controller.Env.{Env, Result, Object, ok, err, patch, wrapped}

module _ (env : Env) where
  open env use {server, library, generators}

  Keeps-stateful_set : Keeps (reconcile_postgres_stateful_set env)
  unfolding reconcile_postgres_stateful_set
  Keeps-stateful_set =
      Keeps-bind (Keeps-the_mint env)
        (λ m. Keeps-bind (Keeps-wrapping _ (Keeps-lift env _)) by_object)
    where
      by_object :
          (o : Option Object)
          → Keeps (elim o [
            | none ↦ done
            | some o ↦
                wrapping "failed to apply PostgreSQL StatefulSet" (apply_stateful_set env o)
                >>= λ s.
                    if is_stateful_set_ready s
                    then set_condition env database_ready true "PostgreSQLReady"
                        "PostgreSQL database is ready"
                    else set_condition env database_ready false "PostgreSQLNotReady"
                        "Waiting for PostgreSQL to be ready"
          ])
      by_object none = Keeps-done env
      by_object (some o) =
          Keeps-bind (Keeps-wrapping _ (Keeps-apply_stateful_set env o))
            (λ s. Keeps-if _ (Keeps-set_condition env _ _ _ _) (Keeps-set_condition env _ _ _ _))

  -- With what is known of the secret of the database
  pub Keeps-postgre_sql : Keeps (reconcile_postgres_secret env) → Keeps (reconcile_postgre_sql env)
  unfolding reconcile_postgre_sql
  Keeps-postgre_sql h = Keeps-then h (
      Keeps-bind (Keeps-the_mint env)
        (λ m. Keeps-then (Keeps-apply_optional env _ _ _) Keeps-stateful_set))

  pub Keeps-backup : Keeps (reconcile_optional_backup env)
  unfolding reconcile_optional_backup reconcile_backup
  Keeps-backup = Keeps-bind (Keeps-the_mint env) (λ m. Keeps-if _ (Keeps-done env) (
      Keeps-wrapping _ (
        Keeps-bind (Keeps-the_mint env)
          (λ m. Keeps-bind (Keeps-wrapping _ (Keeps-lift env _)) (λ o. by_cron_job m o)))))
    where
      by_restore_job :
          (name : String) (o : Option Object)
          → Keeps (elim o [
            | none ↦
                set_condition env backup_ready true "BackupScheduleReady"
                  ("Backup CronJob " <> (name <> " reconciled"))
            | some restore_job ↦
                wrapping "failed to apply restore Job" (send env (patch restore_job))
                >> set_condition env backup_ready true "RestoreJobReconciled" (
                    "Restore Job "
                    <> (restore_job.name <> " reconciled for requested backup object"))
          ])
      by_restore_job name none = Keeps-set_condition env _ _ _ _
      by_restore_job name (some o) =
          Keeps-then (Keeps-wrapping _ (Keeps-patch env o)) (Keeps-set_condition env _ _ _ _)

      by_cron_job :
          (m : CashuMint) (o : Option Object)
          → Keeps (elim o [
            | none ↦
                set_condition env backup_ready false "BackupNotReconciled"
                  "Backup is enabled but no backup resources were generated"
            | some cron_job ↦
                wrapping "failed to apply backup CronJob" (send env (patch cron_job))
                >> (wrapping "failed to generate restore Job"
                      (lift (generators.postgres_restore_job m))
                    >>= λ o. elim o [
                      | none ↦
                          set_condition env backup_ready true "BackupScheduleReady"
                            ("Backup CronJob " <> (cron_job.name <> " reconciled"))
                      | some restore_job ↦
                          wrapping "failed to apply restore Job" (send env (patch restore_job))
                          >> set_condition env backup_ready true "RestoreJobReconciled" (
                              "Restore Job "
                              <> (restore_job.name <> " reconciled for requested backup object"))
                    ])
          ])
      by_cron_job m none = Keeps-set_condition env _ _ _ _
      by_cron_job m (some c) =
          Keeps-then (Keeps-wrapping _ (Keeps-patch env c))
            (Keeps-bind (Keeps-wrapping _ (Keeps-lift env _)) (by_restore_job c.name))

  pub Keeps-pvc : Keeps (reconcile_pvc env)
  unfolding reconcile_pvc
  Keeps-pvc =
      Keeps-bind (Keeps-the_mint env)
        (λ m. Keeps-then (Keeps-apply_optional env _ _ _) (Keeps-apply_optional env _ _ _))

  pub Keeps-deployment : Keeps (reconcile_deployment env)
  unfolding reconcile_deployment
  Keeps-deployment = Keeps-bind (Keeps-the_mint env) (λ m.
      Keeps-bind (Keeps-wrapping _ (Keeps-get_config_map env _ _))
        (λ c. Keeps-apply_required env _ _ _))

  pub Keeps-service : Keeps (reconcile_service env)
  unfolding reconcile_service
  Keeps-service =
      Keeps-bind (Keeps-the_mint env)
        (λ m. Keeps-then (Keeps-apply_required env _ _ _) (Keeps-apply_optional env _ _ _))

  pub Keeps-ingress : Keeps (reconcile_ingress env)
  unfolding reconcile_ingress
  Keeps-ingress =
      Keeps-bind (Keeps-the_mint env)
        (λ m. Keeps-then (Keeps-apply_optional env _ _ _) (Keeps-apply_optional env _ _ _))

  pub Keeps-certificate : Keeps (reconcile_certificate env)
  unfolding reconcile_certificate
  Keeps-certificate =
      Keeps-bind (Keeps-the_mint env)
        (λ m. Keeps-then (Keeps-apply_optional env _ _ _) (Keeps-apply_optional env _ _ _))

  pub Keeps-pod_monitor : Keeps (reconcile_pod_monitor env)
  unfolding reconcile_pod_monitor
  Keeps-pod_monitor = Keeps-bind (Keeps-the_mint env) (λ m.
      Keeps-if _ (Keeps-bind (Keeps-attempt (Keeps-send env _ (λ t. refl))) by_deletion)
        (Keeps-bind (Keeps-wrapping _ (Keeps-lift env _)) by_object))
    where
      by_deletion :
          (r : Result (Unit {0}))
          → Keeps (elim r [
            | ok _ ↦ done
            | err e ↦
                if is_not_found e || is_no_match e
                then done
                else fail {A = Unit {0}} (wrapped "failed to delete PodMonitor" e)
          ])
      by_deletion (ok _) = Keeps-done env
      by_deletion (err e) = Keeps-if _ (Keeps-done env) (Keeps-fail env _)

      by_patch :
          (r : Result (Unit {0}))
          → Keeps (elim r [
            | ok _ ↦ done
            | err e ↦ fail {A = Unit {0}} (wrapped (pod_monitor_failure e) e)
          ])
      by_patch (ok _) = Keeps-done env
      by_patch (err e) = Keeps-fail env _

      by_object :
          (o : Option Object)
          → Keeps (elim o [
            | none ↦ done
            | some o ↦ attempt (send env (patch o)) >>= λ r. elim r [
              | ok _ ↦ done
              | err e ↦ fail (wrapped (pod_monitor_failure e) e)
            ]
          ])
      by_object none = Keeps-done env
      by_object (some o) = Keeps-bind (Keeps-attempt (Keeps-patch env o)) by_patch
