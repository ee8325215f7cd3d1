-- ===== src/Controller/WorkingResources.antt =====
-- The steps of internal/controller/cashumint_controller.go that apply resources, in a healthy
-- cluster.
use cashu_operator.Common.{String, Option, none, some, if◌then◌else◌, ◌||◌}
use cashu_operator.Controller.Works.{
  Works, Works-bind, Works-then, OfOk, Any, Works-the_mint, Works-if, Works-wrapping, Works-lift,
  Works-done, Works-attempt,
}
use cashu_operator.Controller.Resources.{
  apply_optional, apply_required, reconcile_pvc, reconcile_deployment, reconcile_service,
  reconcile_ingress, reconcile_certificate, reconcile_pod_monitor, pod_monitor_failure,
}
use cashu_operator.Api.{CashuMint}
use cashu_operator.Controller.Monad.{
  M, wrapping, lift, send, done, ◌>>=◌, is_not_found, fail, is_no_match, attempt,
}
use cashu_operator.Controller.Healthy.{IsHealthy, IsResolvable, Works-send, Works-get_config_map}
use cashu_operator.Controller.Env.{Env, Object, Result, ok, patch, err, wrapped}

module _ (env : Env) (healthy : IsHealthy env) where
  open env use {server, library, generators}

  -- A step that works for a mint that can be resolved, and leaves such a mint.
  abbrev pub Steady : M (Unit {0}) → Type 0
  Steady m = Works (IsResolvable env) m Any (IsResolvable env)

  pub Works-made :
      {A : Type 0} {Q : CashuMint → Type 0} (text : String) (r : Result A)
      → OfOk Any r
      → Works Q (wrapping text (lift r)) Any Q
  Works-made text r h = Works-wrapping text (Works-lift Any r h)

  pub Works-patch :
      {Q : CashuMint → Type 0} (text : String) (o : Object)
      → Works Q (wrapping text (send env (patch o))) Any Q
  Works-patch text o = Works-wrapping text (Works-send env healthy _)

  pub Works-apply_optional :
      {Q : CashuMint → Type 0} (s t : String) (r : Result (Option Object))
      → OfOk Any r
      → Works Q (apply_optional env s t r) Any Q
  unfolding apply_optional
  Works-apply_optional {Q = Q} s t r h = Works-bind (Works-made s r h) (λ o _. by_object o)
    where
      by_object :
          (o : Option Object)
          → Works Q (elim o [ none ↦ done | some o ↦ wrapping t (send env (patch o)) ]) Any Q
      by_object none = Works-done
      by_object (some o) = Works-patch t o

  Works-apply_required :
      {Q : CashuMint → Type 0} (s t : String) (r : Result Object)
      → OfOk Any r
      → Works Q (apply_required env s t r) Any Q
  unfolding apply_required
  Works-apply_required s t r h = Works-bind (Works-made s r h) (λ o _. Works-patch t o)

  pub Works-pvc : Steady (reconcile_pvc env)
  unfolding reconcile_pvc
  Works-pvc = Works-bind Works-the_mint (λ m q.
      Works-then (Works-apply_optional _ _ _ (healthy.manifests.pvc_object m))
        (Works-apply_optional _ _ _ (healthy.manifests.orchard_pvc m)))

  pub Works-deployment : Steady (reconcile_deployment env)
  unfolding reconcile_deployment
  Works-deployment = Works-bind Works-the_mint (λ m q.
      Works-bind (Works-wrapping _ (Works-get_config_map env healthy _ _))
        (λ c _. Works-apply_required _ _ _ (healthy.manifests.deployment_object m _)))

  pub Works-service : Steady (reconcile_service env)
  unfolding reconcile_service
  Works-service = Works-bind Works-the_mint (λ m q.
      Works-then (Works-apply_required _ _ _ (healthy.manifests.service_object m))
        (Works-apply_optional _ _ _ (healthy.manifests.orchard_service m)))

  pub Works-ingress : Steady (reconcile_ingress env)
  unfolding reconcile_ingress
  Works-ingress = Works-bind Works-the_mint (λ m q.
      Works-then (Works-apply_optional _ _ _ (healthy.manifests.ingress_object m))
        (Works-apply_optional _ _ _ (healthy.manifests.orchard_ingress m)))

  pub Works-certificate : Steady (reconcile_certificate env)
  unfolding reconcile_certificate
  Works-certificate = Works-bind Works-the_mint (λ m q.
      Works-then (Works-apply_optional _ _ _ (healthy.manifests.certificate_object m))
        (Works-apply_optional _ _ _ (healthy.manifests.orchard_certificate m)))

  pub Works-pod_monitor : Steady (reconcile_pod_monitor env)
  unfolding reconcile_pod_monitor
  Works-pod_monitor = Works-bind Works-the_mint (λ m q.
      Works-if _ (Works-bind (Works-attempt (Works-send env healthy _)) by_deletion)
        (Works-bind (Works-made _ _ (healthy.manifests.pod_monitor_object m)) (λ o _. by_object o)))
    where
      by_deletion :
          (r : Result (Unit {0}))
          → OfOk Any r
          → Steady (elim r [
            | ok _ ↦ done
            | err e ↦
                if is_not_found e || is_no_match e
                then done
                else fail {A = Unit {0}} (wrapped "failed to delete PodMonitor" e)
          ])
      by_deletion (ok _) p = Works-done
      by_deletion (err e) p = absurd p

      by_patch :
          (r : Result (Unit {0}))
          → OfOk Any r
          → Steady (elim r [
            | ok _ ↦ done
            | err e ↦ fail {A = Unit {0}} (wrapped (pod_monitor_failure e) e)
          ])
      by_patch (ok _) p = Works-done
      by_patch (err e) p = absurd p

      by_object :
          (o : Option Object)
          → Steady (elim o [
            | none ↦ done
            | some o ↦ attempt (send env (patch o)) >>= λ r. elim r [
              | ok _ ↦ done
              | err e ↦ fail (wrapped (pod_monitor_failure e) e)
            ]
          ])
      by_object none = Works-done
      by_object (some o) = Works-bind (Works-attempt (Works-send env healthy _)) by_patch
