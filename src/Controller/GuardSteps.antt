-- ===== src/Controller/GuardSteps.antt =====
-- Guarded exchanges (Controller/Guard.antt) under the calls and the small steps of
-- internal/controller/cashumint_controller.go.
use cashu_operator.Controller.Status.{
  transition_reconciliation_phase, handle_error, set_condition, set_phase,
}
use cashu_operator.Controller.Resources.{apply_optional, apply_required}
use cashu_operator.Controller.Monad.{
  get_config_map, get_secret, get_mint, get_deployment, get_service, get_ingress,
  apply_stateful_set, lift, return, fail, the_mint, send, event, done, put_mint, ◌>>=◌, wrapping,
  ◌>>◌,
}
use cashu_operator.Api.{
  ConditionType, MintPhase, CashuMint, ready_condition, provisioning, updating,
}
use cashu_operator.Common.{Bool, String, Option, refl, none, some, false}
use cashu_operator.Controller.Guard.{
  Keeps, Keeps-then, Keeps-bind, Keeps-if, Keeps-silent, Keeps-wrapping, Keeps-when, Keeps-attempt,
  Keeps-send,
}
use cashu_operator.Controller.Env.{Env, Result, Error, Object, patch, update_status}

module _ (env : Env) where
  open env use {server, library, generators}

  pub Keeps-lift : {A : Type 0} (r : Result A) → Keeps (lift r)
  unfolding lift
  Keeps-lift r = Keeps-silent (λ w. refl)

  pub Keeps-return : {A : Type 0} (a : A) → Keeps (return a)
  unfolding return
  Keeps-return a = Keeps-silent (λ w. refl)

  pub Keeps-done : Keeps done
  unfolding done
  Keeps-done = Keeps-return tt

  pub Keeps-put_mint : (m : CashuMint) → Keeps (put_mint m)
  unfolding put_mint
  Keeps-put_mint m = Keeps-silent (λ w. refl)

  pub Keeps-set_phase : (p : MintPhase) → Keeps (set_phase env p)
  unfolding ◌>>=◌ the_mint put_mint
  Keeps-set_phase p = Keeps-silent (λ w. refl)

  pub Keeps-fail : {A : Type 0} (e : Error) → Keeps (fail {A = A} e)
  unfolding fail
  Keeps-fail e = Keeps-silent (λ w. refl)

  pub Keeps-event : (b : Bool) (reason : String) → Keeps (event b reason)
  unfolding event
  Keeps-event b reason = Keeps-silent (λ w. refl)

  pub Keeps-the_mint : Keeps the_mint
  unfolding the_mint
  Keeps-the_mint = Keeps-silent (λ w. refl)

  pub Keeps-set_condition :
      (c : ConditionType) (b : Bool) (reason message : String)
      → Keeps (set_condition env c b reason message)
  unfolding ◌>>=◌ the_mint put_mint
  Keeps-set_condition c b reason message = Keeps-silent (λ w. refl)

  pub Keeps-patch : (o : Object) → Keeps (send env (patch o))
  Keeps-patch o = Keeps-send env (patch o) (λ t. refl)

  pub Keeps-get_config_map : (ns name : String) → Keeps (get_config_map env ns name)
  unfolding get_config_map
  Keeps-get_config_map ns name = record { run = λ w g. (refl, g) }

  pub Keeps-get_secret : (ns name : String) → Keeps (get_secret env ns name)
  unfolding get_secret
  Keeps-get_secret ns name = record { run = λ w g. (refl, g) }

  pub Keeps-get_mint : (ns name : String) → Keeps (get_mint env ns name)
  unfolding get_mint
  Keeps-get_mint ns name = record { run = λ w g. (refl, g) }

  pub Keeps-get_deployment : (ns name : String) → Keeps (get_deployment env ns name)
  unfolding get_deployment
  Keeps-get_deployment ns name = record { run = λ w g. (refl, g) }

  pub Keeps-get_service : (ns name : String) → Keeps (get_service env ns name)
  unfolding get_service
  Keeps-get_service ns name = record { run = λ w g. (refl, g) }

  pub Keeps-get_ingress : (ns name : String) → Keeps (get_ingress env ns name)
  unfolding get_ingress
  Keeps-get_ingress ns name = record { run = λ w g. (refl, g) }

  pub Keeps-apply_stateful_set : (o : Object) → Keeps (apply_stateful_set env o)
  unfolding apply_stateful_set
  Keeps-apply_stateful_set o = Keeps-then (Keeps-patch o) (Keeps-silent (λ w. refl))

  pub Keeps-apply_optional :
      (s t : String) (r : Result (Option Object)) → Keeps (apply_optional env s t r)
  unfolding apply_optional
  Keeps-apply_optional s t r = Keeps-bind (Keeps-wrapping s (Keeps-lift r)) by_object
    where
      by_object :
          (o : Option Object)
          → Keeps (elim o [ none ↦ done | some o ↦ wrapping t (send env (patch o)) ])
      by_object none = Keeps-done
      by_object (some o) = Keeps-wrapping t (Keeps-patch o)

  pub Keeps-apply_required : (s t : String) (r : Result Object) → Keeps (apply_required env s t r)
  unfolding apply_required
  Keeps-apply_required s t r =
      Keeps-bind (Keeps-wrapping s (Keeps-lift r)) (λ o. Keeps-wrapping t (Keeps-patch o))

  pub Keeps-transition : Keeps (transition_reconciliation_phase env)
  unfolding transition_reconciliation_phase
  Keeps-transition = Keeps-bind Keeps-the_mint (λ m.
      Keeps-then (Keeps-when _ (moved provisioning _ _ _))
        (Keeps-bind Keeps-the_mint (λ m. Keeps-when _ (moved updating _ _ _))))
    where
      moved :
          (p : MintPhase) (reason message name : String)
          → Keeps (
              set_phase env p
              >> (set_condition env ready_condition false reason message >> event false name))
      moved p reason message name =
          Keeps-then (Keeps-set_phase p)
            (Keeps-then (Keeps-set_condition _ _ _ _) (Keeps-event _ _))

  pub Keeps-handle_error : (e : Error) → Keeps (handle_error env e)
  unfolding handle_error
  Keeps-handle_error e = Keeps-if _ (Keeps-return _) (
      Keeps-if _ (Keeps-then (Keeps-event _ _) (Keeps-return _)) (
        Keeps-then (Keeps-set_phase _) (
          Keeps-then (Keeps-set_condition _ _ _ _) (
            Keeps-then (Keeps-event _ _) (
              Keeps-bind Keeps-the_mint (λ m.
                Keeps-bind (Keeps-attempt (Keeps-send env (update_status m) (λ t. refl)))
                  (λ _. Keeps-fail e)))))))
