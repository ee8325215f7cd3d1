-- ===== src/Tests/Operator.antt =====
-- A process that starts, one that cannot create its manager, and one instance of each result
-- about cmd/main.go and the certificates of the management endpoint that has conditions.
use cashu_operator.Generators.ManagementRpc.Bundle.{generate_management_rpc_tls_bundle}
use cashu_operator.Generators.ManagementRpc.Signed.{
  OfBundle, generate_management_rpc_tls_bundle-IsSignedBundle,
}
use cashu_operator.Operator.Actions.{◌>>=◌, ◌>>◌, parsed}
use cashu_operator.Tests.WideMint.{machinery, encoding, test_crypto}
use cashu_operator.Controller.Env.{plain, wrapped}
use cashu_operator.Generators.Interface.{make_generators}
use cashu_operator.Common.{none, some, ◌≡◌, [], arith, refl}
use cashu_operator.Operator.Watching.{MakesKinds, IsFollowed, make_generators-MakesKinds}
use cashu_operator.Operator.Protocols.{Each, OffersHttp1Only, main-OffersHttp1Only}
use cashu_operator.Operator.Plan.{RunsThrough, plan, main-RunsThrough}
use cashu_operator.Operator.Main.{
  main, run_config, setup_manager, setup_controllers, setup_health_checks, setup_with_manager,
}
use cashu_operator.Operator.Actions.{
  Host, complete_controller, perform, perform_or_die, context, or_exit, nothing, problem,
}
use cashu_operator.Operator.Options.{Arguments, parse_flags}

abbrev no_arguments : Arguments
no_arguments = record { text_argument = λ name. none; bool_argument = λ name. none }

abbrev willing_host : Host
willing_host = record {
  arguments = parsed no_arguments;
  enable_webhooks = "";
  answer = λ t c. none;
}

abbrev bare_host : Host
bare_host = record {
  arguments = parsed no_arguments;
  enable_webhooks = "false";
  answer = λ t c. elim c [ complete_controller w ↦ some (plain "no match") | _ ↦ none ];
}

bare_host_runs :
    (main bare_host).0
    ≡ problem "failed to setup controllers"
        (wrapped "unable to create CashuMint controller" (plain "no match"))
unfolding main run_config setup_manager setup_controllers setup_health_checks ◌>>=◌ ◌>>◌ perform
    perform_or_die context or_exit nothing setup_with_manager
bare_host_runs = refl

main-RunsThrough_example :
    RunsThrough bare_host.answer
      (plan (parse_flags no_arguments) bare_host.enable_webhooks)
      []
      (main bare_host)
main-RunsThrough_example = main-RunsThrough bare_host no_arguments refl

main-OffersHttp1Only_example : Each OffersHttp1Only (main willing_host).1
main-OffersHttp1Only_example =
    main-OffersHttp1Only willing_host no_arguments refl (λ h. ground arith)

make_generators-MakesKinds_example : MakesKinds IsFollowed (make_generators machinery encoding)
make_generators-MakesKinds_example = make_generators-MakesKinds machinery encoding

generate_management_rpc_tls_bundle-IsSignedBundle_example :
    OfBundle test_crypto (generate_management_rpc_tls_bundle test_crypto)
generate_management_rpc_tls_bundle-IsSignedBundle_example =
    generate_management_rpc_tls_bundle-IsSignedBundle test_crypto
