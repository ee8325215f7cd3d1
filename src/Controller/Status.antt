-- ===== src/Controller/Status.antt =====
-- internal/controller/cashumint_controller.go: the phase of a mint, what an error does to it, and
-- the status that a pass writes.
use cashu_operator.Controller.Readiness.{is_deployment_ready}
use cashu_operator.Common.Int.{is_zero, int_eq}
use cashu_operator.Controller.Monad.{
  M, is_conflict, return, is_not_found, ◌>>=◌, ◌>>◌, the_mint, event, put_mint, when, attempt,
  get_deployment, error_text, done, send, fail,
}
use cashu_operator.Controller.Env.{Library, Env, Error, err, update_status, wrapped, ok}
use cashu_operator.Api.{
  MintPhase, CashuMint, ConditionType, updating, provisioning, Condition, unset, failed, pending,
  ready_condition, ready,
}
use cashu_operator.Common.{ℕ, Bool, if◌then◌else◌, String, not, ◌||◌, ◌&&◌, true, false}

-- A duration in milliseconds.
abbrev pub reconcile_interval : ℕ
reconcile_interval = 300000

abbrev pub update_reconcile_interval : ℕ
update_reconcile_interval = 30000

abbrev pub not_ready_retry_interval : ℕ
not_ready_retry_interval = 10000

-- `ctrl.Result`: `none` asks for no other pass, `at_once` is `Requeue: true`, and `after` is
-- `RequeueAfter`.
pub data Requeue : Type 0 where
  no_requeue : Requeue
  at_once : Requeue
  after : ℕ → Requeue

abbrev pub phase_is : MintPhase → MintPhase → Bool
phase_is unset p = elim p [ unset ↦ true | _ ↦ false ]
phase_is pending p = elim p [ pending ↦ true | _ ↦ false ]
phase_is provisioning p = elim p [ provisioning ↦ true | _ ↦ false ]
phase_is ready p = elim p [ ready ↦ true | _ ↦ false ]
phase_is failed p = elim p [ failed ↦ true | _ ↦ false ]
phase_is updating p = elim p [ updating ↦ true | _ ↦ false ]

abbrev pub with_phase : MintPhase → CashuMint → CashuMint
with_phase p m = record m { status = record m.status { phase = p } }

-- `reconcileResultForPhase`
unfoldable pub reconcile_result_for_phase : MintPhase → Requeue
reconcile_result_for_phase p =
    if phase_is p updating || phase_is p provisioning
    then after update_reconcile_interval
    else after reconcile_interval

-- The mint with one more condition of its current generation.
abbrev pub with_condition : Library → ConditionType → Bool → String → String → CashuMint → CashuMint
with_condition lib type status reason message m =
    let c : Condition = record {
      type = type;
      status = status;
      observed_generation = m.metadata.generation;
      reason = reason;
      message = message;
    } in
    record m {
      status = record m.status { conditions = lib.set_status_condition m.status.conditions c };
    }

-- The observed generation is set and is not the current one.
abbrev pub is_spec_changed : CashuMint → Bool
is_spec_changed m =
    not (is_zero m.status.observed_generation)
    && not (int_eq m.status.observed_generation m.metadata.generation)

module _ (env : Env) where
  open env use {server, library}

  -- `meta.SetStatusCondition(&cashuMint.Status.Conditions, …)`
  abbrev pub set_condition : ConditionType → Bool → String → String → M (Unit {0})
  set_condition type status reason message = do
    m ← the_mint
    put_mint (with_condition library type status reason message m)

  abbrev pub set_phase : MintPhase → M (Unit {0})
  set_phase p = do m ← the_mint; put_mint (with_phase p m)

  -- `transitionReconciliationPhase`
  unfoldable pub transition_reconciliation_phase : M (Unit {0})
  transition_reconciliation_phase = do
    m ← the_mint
    when (phase_is m.status.phase pending) (do
      set_phase provisioning
      set_condition ready_condition false "Provisioning" "Starting resource provisioning"
      event false "Provisioning")
    m ← the_mint
    when (is_spec_changed m) (do
      set_phase updating
      set_condition ready_condition false "Updating" "Updating resources due to spec change"
      event false "Updating")

  -- `updateDeploymentReadiness`
  unfoldable pub update_deployment_readiness : M (Unit {0})
  update_deployment_readiness = do
    m ← the_mint
    r ← attempt (get_deployment env m.metadata.namespace m.metadata.name)
    elim r [
      | err e ↦
          if is_not_found e then done else fail (wrapped "failed to get Deployment readiness" e)
      | ok d ↦
          if is_deployment_ready d
          then (do
            when (not (phase_is m.status.phase ready)) (event false "Ready")
            set_phase ready
            set_condition ready_condition true "ReconciliationComplete"
                "All resources reconciled successfully")
          else set_condition ready_condition false "DeploymentNotReady"
              "Waiting for deployment to be ready"
    ]

  -- `handleError`; the error of the status update is only logged.
  unfoldable pub handle_error : Error → M Requeue
  handle_error e =
      if is_conflict e
      then return (after 1)
      else if is_not_found e
      then (do event true "DependencyNotFound"; return (after not_ready_retry_interval))
      else do
        set_phase failed
        set_condition ready_condition false "ReconciliationFailed" (error_text e)
        event true "ReconciliationFailed"
        m ← the_mint
        _ ← attempt (send env (update_status m))
        fail e
