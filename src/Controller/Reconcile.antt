-- ===== src/Controller/Reconcile.antt =====
-- internal/controller/cashumint_controller.go: a whole pass over a mint.
use cashu_operator.Controller.StatusUpdate.{update_status_of}
use cashu_operator.Controller.Resources.{
  needs_ingress_reconciliation, reconcile_optional_postgre_sql, needs_pvc_reconciliation,
  reconcile_ingress, reconcile_optional_backup, reconcile_pvc, needs_certificate_reconciliation,
  reconcile_deployment, reconcile_certificate, reconcile_service, reconcile_pod_monitor,
}
use cashu_operator.Controller.Configuration.{reconcile_config_map}
use cashu_operator.Controller.Secrets.{
  cashu_mint_finalizer, reconcile_management_rpc_tls_secret, reconcile_optional_mnemonic,
  handle_deletion,
}
use cashu_operator.Controller.Status.{
  Requeue, transition_reconciliation_phase, phase_is, update_deployment_readiness,
  reconcile_result_for_phase, no_requeue, with_phase, at_once, handle_error,
}
use cashu_operator.Common.{String, if◌then◌else◌, not, false}
use cashu_operator.Api.{CashuMint, unset, pending}
use cashu_operator.Controller.Monad.{
  M, ◌>>◌, ◌>>=◌, wrapping, the_mint, attempt, when, get_mint, is_not_found, return, fail, put_mint,
  send, event,
}
use cashu_operator.Controller.Env.{Env, err, ok, update_status, update}

module _ (env : Env) where
  open env use {library}

  -- `reconcileCoreResources`
  unfoldable pub reconcile_core_resources : M (Unit {0})
  reconcile_core_resources = do
    wrapping "failed to reconcile management RPC TLS secret"
        (reconcile_management_rpc_tls_secret env)
    wrapping "failed to reconcile ConfigMap" (reconcile_config_map env)
    m ← the_mint
    when (needs_pvc_reconciliation m.spec) (wrapping "failed to reconcile PVC" (reconcile_pvc env))
    wrapping "failed to reconcile Deployment" (reconcile_deployment env)
    wrapping "failed to reconcile Service" (reconcile_service env)
    wrapping "failed to reconcile PodMonitor" (reconcile_pod_monitor env)

  -- `reconcileOptionalIngressResources`
  unfoldable pub reconcile_optional_ingress_resources : M (Unit {0})
  reconcile_optional_ingress_resources = do
    m ← the_mint
    when (needs_ingress_reconciliation m.spec) (do
      wrapping "failed to reconcile Ingress" (reconcile_ingress env)
      when (needs_certificate_reconciliation m.spec)
          (wrapping "failed to reconcile Certificate" (reconcile_certificate env)))

  -- `reconcileResources`
  unfoldable pub reconcile_resources : M Requeue
  reconcile_resources = do
    transition_reconciliation_phase env
    reconcile_optional_mnemonic env
    reconcile_optional_postgre_sql env
    reconcile_optional_backup env
    reconcile_core_resources
    reconcile_optional_ingress_resources
    update_deployment_readiness env
    m ← the_mint
    return (reconcile_result_for_phase m.status.phase)

  abbrev pub with_finalizer : CashuMint → CashuMint
  with_finalizer m = record m {
    metadata = record m.metadata {
      finalizers = library.add_finalizer m.metadata.finalizers cashu_mint_finalizer;
    };
  }

  -- `Reconcile` from `Initialize status if needed` on
  unfoldable pub reconcile_present : M Requeue
  reconcile_present = do
    m ← the_mint
    if phase_is m.status.phase unset
        then (do
          put_mint (with_phase pending m)
          send env (update_status (with_phase pending m))
          event false "Created"
          return at_once)
        else (do
          r ← attempt reconcile_resources
          elim r [
            | err e ↦ handle_error env e
            | ok result ↦ do update_status_of env; return result
          ])

  -- `Reconcile` on a mint that was found
  unfoldable pub reconcile_found : M Requeue
  reconcile_found = do
    m ← the_mint
    if m.metadata.is_deleted
        then handle_deletion env
        else if not (library.contains_finalizer m.metadata.finalizers cashu_mint_finalizer)
        then (do put_mint (with_finalizer m); send env (update (with_finalizer m)); return at_once)
        else reconcile_present

  -- `Reconcile` of a request for a namespace and a name
  unfoldable pub reconcile : String → String → M Requeue
  reconcile ns name = do
    r ← attempt (get_mint env ns name)
    elim r [
      | err e ↦ if is_not_found e then return no_requeue else fail e
      | ok m ↦ do put_mint m; reconcile_found
    ]
