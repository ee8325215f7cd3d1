-- ===== src/Operator/Main.antt =====
-- cmd/main.go: the setup functions and `main`, in its order.
use cashu_operator.Common.{List, ◌∷◌, if◌then◌else◌, ◌==◌, []}
use cashu_operator.Operator.Options.{
  ServerConfig, TlsOption, build_tls_options, manager_options, parse_flags,
}
use cashu_operator.Controller.Env.{
  mint_kind, deployment, stateful_set, cron_job, job, service, config_map, pvc, secret, ingress,
  certificate,
}
use cashu_operator.Operator.Actions.{
  ◌>>◌, Watch, Host, Process, Outcome, Ending, Halt, or_exit, perform, context, Action,
  complete_controller, complete_webhook, perform_or_die, add_healthz_check, start, value,
  get_config, add_readyz_check, stopped, bad_usage, new_manager, nothing, halted, help_asked,
  helped, parsed, rejected,
}

-- What `SetupWithManager` of internal/controller/cashumint_controller.go watches.
unfoldable pub watch : Watch
watch = record {
  for_kind = mint_kind;
  owned =
      deployment ∷ stateful_set ∷ cron_job ∷ job ∷ service ∷ config_map ∷ pvc ∷ secret ∷ ingress
      ∷ certificate ∷ [];
  named = "cashumint";
}

module _ (host : Host) where
  -- `SetupWithManager`
  unfoldable pub setup_with_manager : Process Halt (Unit {0})
  setup_with_manager = perform host (complete_controller watch)

  -- `SetupWebhookWithManager` of api/v1alpha1/cashumint_webhook.go
  unfoldable pub setup_webhook_with_manager : Process Halt (Unit {0})
  setup_webhook_with_manager = perform host (complete_webhook mint_kind)

  -- `setupManager`
  unfoldable pub setup_manager : ServerConfig → List TlsOption → Process Halt (Unit {0})
  setup_manager config opts = do
    perform_or_die host get_config
    context "unable to create manager" (perform host (new_manager (manager_options config opts)))

  -- `setupControllers`
  unfoldable pub setup_controllers : Process Halt (Unit {0})
  setup_controllers = do
    context "unable to create CashuMint controller" setup_with_manager
    if host.enable_webhooks == "false"
        then nothing
        else context "unable to create CashuMint webhook" setup_webhook_with_manager

  -- `setupHealthChecks`
  unfoldable pub setup_health_checks : Process Halt (Unit {0})
  setup_health_checks = do
    context "unable to set up health check" (perform host (add_healthz_check "healthz"))
    context "unable to set up ready check" (perform host (add_readyz_check "readyz"))

  -- `main` after `parseFlags`
  unfoldable pub run_config : ServerConfig → Process Ending (Unit {0})
  run_config config = do
    or_exit "failed to setup manager" (setup_manager config (build_tls_options config.enable_http2))
    or_exit "failed to setup controllers" setup_controllers
    or_exit "failed to setup health checks" setup_health_checks
    or_exit "problem running manager" (perform host start)

  abbrev ended : Outcome Ending (Unit {0}) × List Action → Ending × List Action
  ended (value u, t) = (stopped, t)
  ended (halted e, t) = (e, t)

  -- `main`: how the process ends, and the actions that it took, the latest first.
  unfoldable pub main : Ending × List Action
  main = elim host.arguments [
    | help_asked ↦ (helped, [])
    | rejected ↦ (bad_usage, [])
    | parsed a ↦ ended (run_config (parse_flags a) [])
  ]
