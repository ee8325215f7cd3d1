-- ===== src/Controller/WorkingSteps.antt =====
-- The phase, the readiness and the resources of internal/controller/cashumint_controller.go in a
-- healthy cluster.
use cashu_operator.Controller.WorkingDatabase.{
  Works-management_rpc_tls_secret, Works-mnemonic, Works-optional_postgre_sql, Works-backup,
}
use cashu_operator.Controller.Readiness.{is_deployment_ready}
use cashu_operator.Controller.WorkingConfiguration.{Works-config_map}
use cashu_operator.Controller.Monad.{◌>>◌, when, event, is_not_found, done, fail}
use cashu_operator.Controller.WorkingResources.{
  Steady, Works-ingress, Works-pvc, Works-certificate, Works-deployment, Works-service,
  Works-pod_monitor,
}
use cashu_operator.Controller.Works.{
  Works, Any, Works-then, Works-bind, Works-wrapping, Works-the_mint, Works-when, Works-put_mint,
  Works-return, Works-event, OfOk, Works-attempt,
}
use cashu_operator.Controller.Reconcile.{
  reconcile_core_resources, reconcile_optional_ingress_resources, reconcile_resources,
}
use cashu_operator.Controller.Healthy.{
  IsHealthy, IsResolvable, Works-set_phase, Works-set_condition, Works-get_deployment,
}
use cashu_operator.Common.{◌≡◌, Bool, String, true, refl, if◌then◌else◌, false, not, arith}
use cashu_operator.Controller.Env.{Env, Result, Deployment, err, wrapped, ok}
use cashu_operator.Controller.Status.{
  Requeue, after, transition_reconciliation_phase, update_deployment_readiness,
  reconcile_result_for_phase, reconcile_interval, set_phase, set_condition, phase_is,
}
use cashu_operator.Api.{
  CashuMint, ready, ConditionType, MintPhase, ready_condition, provisioning, updating,
}

-- A pass over a mint that is ready
abbrev pub IsReady : CashuMint → Type 0
IsReady m = m.status.phase ≡ ready

-- The next pass is due after the interval of a mint that needs no further step.
abbrev pub IsSettled : Requeue → Type 0
IsSettled r = r ≡ after reconcile_interval

module _ (env : Env) (healthy : IsHealthy env) where
  open env use {server, library, generators}

  Works-transition : Steady env healthy (transition_reconciliation_phase env)
  unfolding transition_reconciliation_phase
  Works-transition = Works-bind Works-the_mint (λ m q.
      Works-then (Works-when _ (moved provisioning _ _ _))
        (Works-bind Works-the_mint (λ m q. Works-when _ (moved updating _ _ _))))
    where
      moved :
          (p : MintPhase) (reason message name : String)
          → Steady env healthy (
              set_phase env p
              >> (set_condition env ready_condition false reason message >> event false name))
      moved p reason message name =
          Works-then (Works-set_phase env healthy p)
            (Works-then (Works-set_condition env healthy _ _ _ _) (Works-event _ _))

  Works-core : Steady env healthy (reconcile_core_resources env)
  unfolding reconcile_core_resources
  Works-core = Works-then (Works-wrapping _ (Works-management_rpc_tls_secret env healthy)) (
      Works-then (Works-wrapping _ (Works-config_map env healthy)) (
        Works-bind Works-the_mint (λ m q.
          Works-then (Works-when _ (Works-wrapping _ (Works-pvc env healthy))) (
            Works-then (Works-wrapping _ (Works-deployment env healthy)) (
              Works-then (Works-wrapping _ (Works-service env healthy))
                (Works-wrapping _ (Works-pod_monitor env healthy)))))))

  Works-optional_ingress : Steady env healthy (reconcile_optional_ingress_resources env)
  unfolding reconcile_optional_ingress_resources
  Works-optional_ingress = Works-bind Works-the_mint (λ m q. Works-when _ (
      Works-then (Works-wrapping _ (Works-ingress env healthy))
        (Works-when _ (Works-wrapping _ (Works-certificate env healthy)))))

  Works-IsReady_phase : {Q : CashuMint → Type 0} → Works Q (set_phase env ready) Any IsReady
  Works-IsReady_phase = Works-bind Works-the_mint (λ m q. Works-put_mint _ refl)

  Works-IsReady_condition :
      (c : ConditionType) (b : Bool) (reason message : String)
      → Works IsReady (set_condition env c b reason message) Any IsReady
  Works-IsReady_condition c b reason message = Works-bind Works-the_mint (λ m q. Works-put_mint _ q)

  Works-readiness : {Q : CashuMint → Type 0} → Works Q (update_deployment_readiness env) Any IsReady
  unfolding update_deployment_readiness
  Works-readiness {Q = Q} =
      Works-bind Works-the_mint
        (λ m q. Works-bind (Works-attempt (Works-get_deployment env healthy _ _)) (by_answer m))
    where
      by_test :
          (m : CashuMint) (b : Bool)
          → b ≡ true
          → Works Q
              (if b
                then when (not (phase_is m.status.phase ready)) (event false "Ready")
                  >> (set_phase env ready
                      >> set_condition env ready_condition true "ReconciliationComplete"
                          "All resources reconciled successfully")
                else set_condition env ready_condition false "DeploymentNotReady"
                    "Waiting for deployment to be ready")
              Any
              IsReady
      by_test m true h =
          Works-then (Works-when _ (Works-event _ _))
            (Works-then Works-IsReady_phase (Works-IsReady_condition _ _ _ _))
      by_test m false h = absurd (ground arith)

      by_answer :
          (m : CashuMint) (r : Result Deployment)
          → OfOk (λ d. is_deployment_ready d ≡ true) r
          → Works Q
              (elim r [
                | err e ↦
                    if is_not_found e
                    then done
                    else fail {A = Unit {0}} (wrapped "failed to get Deployment readiness" e)
                | ok d ↦
                    if is_deployment_ready d
                    then when (not (phase_is m.status.phase ready)) (event false "Ready")
                      >> (set_phase env ready
                          >> set_condition env ready_condition true "ReconciliationComplete"
                              "All resources reconciled successfully")
                    else set_condition env ready_condition false "DeploymentNotReady"
                        "Waiting for deployment to be ready"
              ])
              Any
              IsReady
      by_answer m (err e) p = absurd p
      by_answer m (ok d) p = by_test m (is_deployment_ready d) p

  IsSettled-ready : (p : MintPhase) → p ≡ ready → IsSettled (reconcile_result_for_phase p)
  unfolding reconcile_result_for_phase
  IsSettled-ready p h = rw (h) refl

  pub Works-resources : Works (IsResolvable env) (reconcile_resources env) IsSettled IsReady
  unfolding reconcile_resources
  Works-resources = Works-then Works-transition (
      Works-then (Works-mnemonic env healthy) (
        Works-then (Works-optional_postgre_sql env healthy) (
          Works-then (Works-backup env healthy) (
            Works-then Works-core (
              Works-then Works-optional_ingress (
                Works-then Works-readiness (
                  Works-bind Works-the_mint
                    (λ m q. Works-return _ (IsSettled-ready m.status.phase q)))))))))
