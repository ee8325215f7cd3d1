-- ===== src/Controller/GuardPass.antt =====
-- Guarded exchanges (Controller/Guard.antt) under the configuration, the status and a whole pass of
-- internal/controller/cashumint_controller.go.
use cashu_operator.Controller.GuardConfiguration.{Keeps-config_map}
use cashu_operator.Generators.Contract.{MakesTheSecrets}
use cashu_operator.Controller.GuardDeletion.{Keeps-handle_deletion}
use cashu_operator.Controller.Readiness.{is_deployment_ready}
use cashu_operator.Controller.GuardResources.{
  Keeps-pvc, Keeps-ingress, Keeps-backup, Keeps-deployment, Keeps-certificate, Keeps-service,
  Keeps-pod_monitor, Keeps-postgre_sql,
}
use cashu_operator.Controller.GuardSecrets.{
  Keeps-management_rpc_tls_secret, Keeps-mnemonic, Keeps-postgres_secret,
}
use cashu_operator.Controller.Monad.{
  done, return, event, is_not_found, attempt, is_conflict, ◌>>◌, fail, get_ingress, ◌>>=◌, when,
  put_mint, World, send,
}
use cashu_operator.Controller.GuardSteps.{
  Keeps-the_mint, Keeps-transition, Keeps-fail, Keeps-return, Keeps-set_condition, Keeps-done,
  Keeps-event, Keeps-get_mint, Keeps-get_ingress, Keeps-get_deployment, Keeps-get_service,
  Keeps-get_config_map, Keeps-set_phase, Keeps-handle_error, Keeps-put_mint,
}
use cashu_operator.Api.{CashuMint, ready, ready_condition}
use cashu_operator.Common.{String, Option, none, if◌then◌else◌, some, true, not, refl, false, ◌≡◌}
use cashu_operator.Controller.Guard.{
  Keeps, Keeps-bind, Keeps-then, Keeps-if, Keeps-wrapping, Keeps-when, Keeps-attempt, Keeps-send,
  IsGuarded, Keeps-if_of,
}
use cashu_operator.Controller.StatusUpdate.{
  observed_mint, update_status_of, observe_ingress, observe_optional_ingress, ingress_host,
}
use cashu_operator.Controller.Reconcile.{
  reconcile_core_resources, reconcile_optional_ingress_resources, reconcile_resources,
  reconcile_present, reconcile_found, reconcile, with_finalizer,
}
use cashu_operator.Controller.Status.{
  update_deployment_readiness, phase_is, set_phase, set_condition, Requeue, handle_error,
  no_requeue, at_once,
}
use cashu_operator.Controller.Resources.{reconcile_optional_postgre_sql}
use cashu_operator.Controller.Env.{Env, Result, Deployment, ok, err, wrapped, update_status, update}

module _ (env : Env) (makes : MakesTheSecrets env.generators) where
  open env use {server, library, generators}

  Keeps-optional_postgre_sql : Keeps (reconcile_optional_postgre_sql env)
  unfolding reconcile_optional_postgre_sql
  Keeps-optional_postgre_sql = Keeps-bind (Keeps-the_mint env) (λ m. Keeps-if _ (Keeps-done env) (
      Keeps-bind (Keeps-attempt (Keeps-postgre_sql env (Keeps-postgres_secret env makes)))
        by_answer))
    where
      by_answer :
          (r : Result (Unit {0}))
          → Keeps (elim r [
            | ok _ ↦ done
            | err e ↦
                event true "PostgreSQLFailed"
                >> fail {A = Unit {0}} (wrapped "failed to reconcile PostgreSQL" e)
          ])
      by_answer (ok _) = Keeps-done env
      by_answer (err e) = Keeps-then (Keeps-event env _ _) (Keeps-fail env _)

  Keeps-readiness : Keeps (update_deployment_readiness env)
  unfolding update_deployment_readiness
  Keeps-readiness =
      Keeps-bind (Keeps-the_mint env)
        (λ m. Keeps-bind (Keeps-attempt (Keeps-get_deployment env _ _)) (by_answer m))
    where
      by_answer :
          (m : CashuMint) (r : Result Deployment)
          → Keeps (elim r [
            | err e ↦
                if is_not_found e
                then done
                else fail {A = Unit {0}} (wrapped "failed to get Deployment readiness" e)
            | ok d ↦
                if is_deployment_ready d
                then when (not (phase_is m.status.phase ready)) (event false "Ready")
                  >> (set_phase env ready
                      >> set_condition env ready_condition true "ReconciliationComplete"
                          "All resources reconciled successfully")
                else set_condition env ready_condition false "DeploymentNotReady"
                    "Waiting for deployment to be ready"
          ])
      by_answer m (err e) = Keeps-if _ (Keeps-done env) (Keeps-fail env _)
      by_answer m (ok d) =
          Keeps-if _
            (Keeps-then (Keeps-when _ (Keeps-event env _ _))
              (Keeps-then (Keeps-set_phase env _) (Keeps-set_condition env _ _ _ _)))
            (Keeps-set_condition env _ _ _ _)

  Keeps-core : Keeps (reconcile_core_resources env)
  unfolding reconcile_core_resources
  Keeps-core = Keeps-then (Keeps-wrapping _ (Keeps-management_rpc_tls_secret env makes)) (
      Keeps-then (Keeps-wrapping _ (Keeps-config_map env)) (
        Keeps-bind (Keeps-the_mint env) (λ m.
          Keeps-then (Keeps-when _ (Keeps-wrapping _ (Keeps-pvc env))) (
            Keeps-then (Keeps-wrapping _ (Keeps-deployment env)) (
              Keeps-then (Keeps-wrapping _ (Keeps-service env))
                (Keeps-wrapping _ (Keeps-pod_monitor env)))))))

  Keeps-optional_ingress : Keeps (reconcile_optional_ingress_resources env)
  unfolding reconcile_optional_ingress_resources
  Keeps-optional_ingress = Keeps-bind (Keeps-the_mint env) (λ m. Keeps-when _ (
      Keeps-then (Keeps-wrapping _ (Keeps-ingress env))
        (Keeps-when _ (Keeps-wrapping _ (Keeps-certificate env)))))

  Keeps-resources : Keeps (reconcile_resources env)
  unfolding reconcile_resources
  Keeps-resources = Keeps-then (Keeps-transition env) (
      Keeps-then (Keeps-mnemonic env makes) (
        Keeps-then Keeps-optional_postgre_sql (
          Keeps-then (Keeps-backup env) (
            Keeps-then Keeps-core (
              Keeps-then Keeps-optional_ingress (
                Keeps-then Keeps-readiness
                  (Keeps-bind (Keeps-the_mint env) (λ m. Keeps-return env _))))))))

  Keeps-observed : (d f : CashuMint) → Keeps (observed_mint env d f)
  unfolding observed_mint
  Keeps-observed d f = Keeps-bind (Keeps-attempt (Keeps-get_deployment env _ _)) (λ r.
      Keeps-bind (Keeps-attempt (Keeps-get_service env _ _)) (λ s.
        Keeps-bind (by_ingress _) (λ m.
          Keeps-bind (Keeps-attempt (Keeps-get_config_map env _ _)) (λ c. Keeps-return env _))))
    where
      by_host :
          (m : CashuMint) (host : Option String)
          → Keeps (elim host [
            | none ↦ return m
            | some host ↦ attempt (get_ingress env m.metadata.namespace m.metadata.name) >>= λ r.
                return (observe_ingress library host r m)
          ])
      by_host m none = Keeps-return env _
      by_host m (some h) =
          Keeps-bind (Keeps-attempt (Keeps-get_ingress env _ _)) (λ r. Keeps-return env _)

      by_ingress : (m : CashuMint) → Keeps (observe_optional_ingress env m)
      by_ingress m = by_host m (ingress_host env m.spec.ingress)

  Keeps-update_status : Keeps (update_status_of env)
  unfolding update_status_of
  Keeps-update_status = Keeps-bind (Keeps-the_mint env) (λ d.
      Keeps-bind (Keeps-wrapping _ (Keeps-get_mint env _ _)) (λ f.
        Keeps-bind (Keeps-observed d f) (λ m.
          Keeps-bind (Keeps-attempt (Keeps-send env (update_status m) (λ t. refl))) by_answer)))
    where
      by_answer :
          (r : Result (Unit {0}))
          → Keeps (elim r [
            | ok _ ↦ done
            | err e ↦ if is_conflict e then done else fail {A = Unit {0}} e
          ])
      by_answer (ok _) = Keeps-done env
      by_answer (err e) = Keeps-if _ (Keeps-done env) (Keeps-fail env _)

  Keeps-present : Keeps (reconcile_present env)
  unfolding reconcile_present
  Keeps-present = Keeps-bind (Keeps-the_mint env) (λ m.
      Keeps-if _
        (Keeps-then (Keeps-put_mint env _) (
          Keeps-then (Keeps-send env _ (λ t. refl))
            (Keeps-then (Keeps-event env _ _) (Keeps-return env _))))
        (Keeps-bind (Keeps-attempt Keeps-resources) by_answer))
    where
      by_answer :
          (r : Result Requeue)
          → Keeps (elim r [
            | err e ↦ handle_error env e
            | ok result ↦ update_status_of env >> return result
          ])
      by_answer (err e) = Keeps-handle_error env e
      by_answer (ok result) = Keeps-then Keeps-update_status (Keeps-return env _)

  -- The finalizer is added to a mint that is not deleted.
  Keeps-added :
      (m : CashuMint)
      → m.metadata.is_deleted ≡ false
      → Keeps (
          put_mint (with_finalizer env m)
          >> (send env (update (with_finalizer env m)) >> return at_once))
  Keeps-added m h =
      Keeps-then (Keeps-put_mint env _)
        (Keeps-then (Keeps-send env _ (λ t. simp (h))) (Keeps-return env _))

  Keeps-found : Keeps (reconcile_found env)
  unfolding reconcile_found
  Keeps-found = Keeps-bind (Keeps-the_mint env) (λ m.
      Keeps-if_of m.metadata.is_deleted (λ h. Keeps-handle_deletion env)
        (λ h. Keeps-if _ (Keeps-added m h) Keeps-present))

  -- Where the generators make the secrets under the names for which the reconciler looks, and
  -- whatever the server answers, a pass whose earlier exchanges are guarded leaves them guarded: each
  -- create is of a secret and comes directly after a read of that very secret that found none, each
  -- deletion of a secret directly after a read that found that secret, and an update of a deleted
  -- mint with an auto-provisioned database directly after its secret was missed or deleted.
  pub reconcile-IsGuarded :
      (ns name : String) (w : World)
      → IsGuarded w.trace
      → IsGuarded (reconcile env ns name w).1.trace
  unfolding reconcile
  reconcile-IsGuarded ns name =
      (Keeps-bind (Keeps-attempt (Keeps-get_mint env ns name)) by_answer).run
    where
      by_answer :
          (r : Result CashuMint)
          → Keeps (elim r [
            | err e ↦ if is_not_found e then return no_requeue else fail {A = Requeue} e
            | ok m ↦ put_mint m >> reconcile_found env
          ])
      by_answer (err e) = Keeps-if _ (Keeps-return env _) (Keeps-fail env _)
      by_answer (ok m) = Keeps-then (Keeps-put_mint env _) Keeps-found
