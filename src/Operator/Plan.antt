-- ===== src/Operator/Plan.antt =====
-- The actions of cmd/main.go as a list, with the end of the process at each that fails.
use cashu_operator.Operator.Main.{
  main, run_config, setup_manager, setup_controllers, setup_health_checks, watch,
  setup_with_manager, setup_webhook_with_manager,
}
use cashu_operator.Controller.Env.{Error, mint_kind, wrapped}
use cashu_operator.Operator.Options.{
  ServerConfig, Arguments, manager_options, build_tls_options, parse_flags,
}
use cashu_operator.Common.{
  List, String, Bool, Option, if◌then◌else◌, ◌∷◌, ◌≡◌, none, some, [], ◌==◌, arith, ◌≢◌, ◌↔◌,
  Option-cases, inl, inr, refl,
}
use cashu_operator.Operator.Actions.{
  ◌>>=◌, ◌>>◌, Action, Host, add_healthz_check, get_config, Ending, complete_webhook,
  no_cluster_config, stopped, problem, add_readyz_check, new_manager, start, complete_controller,
  perform, perform_or_die, context, or_exit, nothing, exit_status, parsed,
}

-- An action, and how the process ends where it fails.
pub record PlannedAction : Type 0 where
  pub action : Action
  pub on_error : Error → Ending

-- Take the actions in turn, up to the first that fails.
unfoldable pub run_plan :
    (List Action → Action → Option Error) → List PlannedAction → List Action → Ending × List Action
run_plan answer [] t = (stopped, t)
run_plan answer (p ∷ ps) t = elim (answer t p.action) [
  | some e ↦ (p.on_error e, p.action ∷ t)
  | none ↦ run_plan answer ps (p.action ∷ t)
]

pub run_plan-none :
    (answer : List Action → Action → Option Error) (p : PlannedAction) (ps : List PlannedAction)
    (t : List Action)
    → answer t p.action ≡ none
    → run_plan answer (p ∷ ps) t ≡ run_plan answer ps (p.action ∷ t)
unfolding run_plan
run_plan-none answer p ps t h = rw (h, run_plan) refl

pub run_plan-some :
    (answer : List Action → Action → Option Error) (p : PlannedAction) (ps : List PlannedAction)
    (t : List Action) (e : Error)
    → answer t p.action ≡ some e
    → run_plan answer (p ∷ ps) t ≡ (p.on_error e, p.action ∷ t)
unfolding run_plan
run_plan-some answer p ps t e h = rw (h, run_plan) refl

abbrev controllers_problem : String → Error → Ending
controllers_problem text e = problem "failed to setup controllers" (wrapped text e)

abbrev checks_problem : String → Error → Ending
checks_problem text e = problem "failed to setup health checks" (wrapped text e)

abbrev last_actions : List PlannedAction
last_actions =
    record {
      action = add_healthz_check "healthz";
      on_error = checks_problem "unable to set up health check";
    }
    ∷ record {
      action = add_readyz_check "readyz";
      on_error = checks_problem "unable to set up ready check";
    }
    ∷ record { action = start; on_error = problem "problem running manager" }
    ∷ []

abbrev pub webhook_actions : Bool → List PlannedAction
webhook_actions is_off =
    if is_off
    then last_actions
    else record {
      action = complete_webhook mint_kind;
      on_error = controllers_problem "unable to create CashuMint webhook";
    }
      ∷ last_actions

-- The plan for a configuration.
unfoldable pub plan : ServerConfig → String → List PlannedAction
plan config enable_webhooks =
    record { action = get_config; on_error = λ e. no_cluster_config }
    ∷ record {
      action = new_manager (manager_options config (build_tls_options config.enable_http2));
      on_error = λ e. problem "failed to setup manager" (wrapped "unable to create manager" e);
    }
    ∷ record {
      action = complete_controller watch;
      on_error = controllers_problem "unable to create CashuMint controller";
    }
    ∷ webhook_actions (enable_webhooks == "false")

-- Every action of the plan succeeds after those before it.
abbrev pub AllSucceed :
    (List Action → Action → Option Error) → List PlannedAction → List Action → Type 0
AllSucceed answer [] t = Unit
AllSucceed answer (p ∷ ps) t = (answer t p.action ≡ none) × AllSucceed answer ps (p.action ∷ t)

-- The actions of a plan, the latest first, in front of `t`.
abbrev pub performed : List PlannedAction → List Action → List Action
performed [] t = t
performed (p ∷ ps) t = performed ps (p.action ∷ t)

-- No end of the process at a failed action is `stopped`.
abbrev pub Fails : List PlannedAction → Type 0
Fails [] = Unit
Fails (p ∷ ps) = ((e : Error) → exit_status (p.on_error e) ≢ 0) × Fails ps

abbrev pub RunsThrough :
    (List Action → Action → Option Error)
    → List PlannedAction
    → List Action
    → (Ending × List Action)
    → Type 0
RunsThrough answer ps t r =
    (exit_status r.0 ≡ 0) ↔ (AllSucceed answer ps t × (r.1 ≡ performed ps t))

run_plan-RunsThrough :
    (answer : List Action → Action → Option Error) (ps : List PlannedAction) (t : List Action)
    → Fails ps
    → RunsThrough answer ps t (run_plan answer ps t)
unfolding run_plan exit_status
run_plan-RunsThrough answer [] t f = (λ h. (tt, refl), λ h. refl)
run_plan-RunsThrough answer (p ∷ ps) t (n, f) = elim (Option-cases (answer t p.action)) [
  | inl h ↦
      rw (run_plan-none answer p ps t h, h)
        (let (to, from) = run_plan-RunsThrough answer ps (p.action ∷ t) f in
          (λ e. let (s, q) = to e in ((refl, s), q), λ ((_, s), q). from (s, q)))
  | inr (e, h) ↦
      rw (run_plan-some answer p ps t e h, h) (λ q. absurd (n e q), λ ((q, _), _). ground arith)
]

module _ (host : Host) (a : Arguments) where
  -- Where the command line is accepted, `main` takes the actions of its plan in turn up to the
  -- first that fails, and ends as the plan says for that action, or by `stopped` at its end.
  pub main-run_plan :
      host.arguments ≡ parsed a
      → main host ≡ run_plan host.answer (plan (parse_flags a) host.enable_webhooks) []
  unfolding main run_config setup_manager setup_controllers setup_health_checks ◌>>=◌ ◌>>◌ perform
      perform_or_die context or_exit nothing plan run_plan setup_with_manager
      setup_webhook_with_manager
  main-run_plan h = ground arith

  Fails-plan : (c : ServerConfig) (e : String) → Fails (plan c e)
  unfolding plan exit_status
  Fails-plan c e = ground arith

  -- Where the command line is accepted, the process exits with status 0 just where every action of
  -- its plan succeeds, and it has then taken the whole plan.
  pub main-RunsThrough :
      host.arguments ≡ parsed a
      → RunsThrough host.answer (plan (parse_flags a) host.enable_webhooks) [] (main host)
  main-RunsThrough h = rw (main-run_plan h) (run_plan-RunsThrough host.answer _ [] (Fails-plan _ _))
