-- ===== src/Controller/ReadinessLaws.antt =====
-- When `updateDeploymentReadiness` of internal/controller/cashumint_controller.go reports a mint
-- as ready.
use cashu_operator.Controller.Readiness.{is_deployment_ready}
use cashu_operator.Api.{ready}
use cashu_operator.Controller.StatusLaws.{IsRolledOut, is_deployment_ready_iff}
use cashu_operator.Common.{inr, inl, ◌≡◌, ◌⊎◌, Bool-cases, refl, false, arith}
use cashu_operator.Controller.Monad.{
  World, ◌>>=◌, ◌>>◌, the_mint, put_mint, when, done, return, event, attempt, get_deployment, fail,
  is_not_found,
}
use cashu_operator.Controller.Status.{update_deployment_readiness, phase_is}
use cashu_operator.Controller.Env.{Env, Deployment, ok, Result, err, Error}

abbrev answer_of : Env → World → Result Deployment
answer_of env w = env.server.get_deployment w.trace w.mint.metadata.namespace w.mint.metadata.name

-- The server did not answer with a deployment that is rolled out, and the phase is as it was.
pub record IsUnreported (env : Env) (w v : World) : Type 0 where
  pub none_rolled_out : (d : Deployment) → answer_of env w ≡ ok d → ¬ IsRolledOut d
  pub phase : v.mint.status.phase ≡ w.mint.status.phase

-- The server answered with a deployment that is rolled out, and the mint is reported as ready.
pub record IsReportedReady (env : Env) (w v : World) : Type 0 where
  pub deployment : Deployment
  pub answered :
      env.server.get_deployment w.trace w.mint.metadata.namespace w.mint.metadata.name
      ≡ ok deployment
  pub rolled_out : IsRolledOut deployment
  pub phase : v.mint.status.phase ≡ ready

-- Where the server answers with a deployment that is rolled out, the phase of the mint is `ready`
-- after it is read; on every other answer, the phase is as it was.
pub update_deployment_readiness-phase :
    (env : Env) (w : World)
    → IsUnreported env w (update_deployment_readiness env w).1
      ⊎ IsReportedReady env w (update_deployment_readiness env w).1
unfolding update_deployment_readiness ◌>>=◌ ◌>>◌ the_mint put_mint when done return event attempt
    get_deployment fail
update_deployment_readiness-phase env w =
    by_answer (env.server.get_deployment w.trace w.mint.metadata.namespace w.mint.metadata.name)
      refl
  where
    no_answer :
        (e : Error)
        → answer_of env w ≡ err e
        → (d : Deployment) → answer_of env w ≡ ok d
        → ¬ IsRolledOut d
    no_answer e h d k r = cc

    not_rolled_out :
        (d : Deployment)
        → answer_of env w ≡ ok d
        → is_deployment_ready d ≡ false
        → (c : Deployment) → answer_of env w ≡ ok c
        → ¬ IsRolledOut c
    not_rolled_out d h b c k r =
        let t = (is_deployment_ready_iff c).1 r in let q : d ≡ c = ground arith in ground arith

    by_answer :
        (r : Result Deployment)
        → env.server.get_deployment w.trace w.mint.metadata.namespace w.mint.metadata.name ≡ r
        → IsUnreported env w (update_deployment_readiness env w).1
          ⊎ IsReportedReady env w (update_deployment_readiness env w).1
    by_answer (err e) h = elim (Bool-cases (is_not_found e)) [
      | inl b ↦ inl (record { none_rolled_out = no_answer e h; phase = simp (h, b) })
      | inr b ↦ inl (record { none_rolled_out = no_answer e h; phase = simp (h, b) })
    ]
    by_answer (ok d) h = elim (Bool-cases (is_deployment_ready d)) [
      | inr b ↦ inl (record { none_rolled_out = not_rolled_out d h b; phase = simp (h, b) })
      | inl b ↦ elim (Bool-cases (phase_is w.mint.status.phase ready)) [
        | inl p ↦ inr record {
          deployment = d;
          answered = h;
          rolled_out = (is_deployment_ready_iff d).0 b;
          phase = simp (h, b, p);
        }
        | inr p ↦ inr record {
          deployment = d;
          answered = h;
          rolled_out = (is_deployment_ready_iff d).0 b;
          phase = simp (h, b, p);
        }
      ]
    ]
