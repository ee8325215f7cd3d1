-- ===== src/Tests/Passes.antt =====
-- A mint that is there, in a cluster without its secrets, and one instance of each result about
-- whole passes of internal/controller/cashumint_controller.go.
use cashu_operator.Generators.Success.{make_generators-MakesAll}
use cashu_operator.Controller.WorkingSteps.{IsSettled}
use cashu_operator.Controller.Readiness.{is_deployment_ready}
use cashu_operator.Controller.Progress.{reconcile-IsSettled, OfEnd}
use cashu_operator.Controller.Healthy.{IsHealthy, IsAdmitted}
use cashu_operator.Generators.Contract.{make_generators-MakesTheSecrets}
use cashu_operator.Controller.GuardPass.{reconcile-IsGuarded}
use cashu_operator.Tests.WideMint.{machinery, encoding}
use cashu_operator.Controller.Reconcile.{reconcile}
use cashu_operator.Generators.Interface.{make_generators}
use cashu_operator.Common.{false, [], refl, none, true, lookup}
use cashu_operator.Controller.Scheduling.{OfReturn, IsScheduled, reconcile-IsScheduled}
use cashu_operator.Controller.Guard.{IsGuarded}
use cashu_operator.Controller.Monad.{World}
use cashu_operator.Controller.Env.{Server, Env, ok, err}
use cashu_operator.Api.{CashuMint}
use cashu_operator.Tests.{
  small_spec, deleted_metadata, first_status, small_server, small_library, absent,
}

abbrev live_mint : CashuMint
live_mint = record {
  metadata = record deleted_metadata { is_deleted = false };
  spec = small_spec;
  status = first_status;
}

abbrev empty_server : Server
empty_server = record small_server {
  get_mint = λ t ns name. ok live_mint;
  get_secret = λ t ns name. err absent;
}

abbrev empty_cluster : Env
empty_cluster = record {
  server = empty_server;
  library = small_library;
  generators = make_generators machinery encoding;
}

abbrev live_start : World
live_start = record { trace = []; mint = live_mint; events = [] }

reconcile-IsGuarded_example : IsGuarded (reconcile empty_cluster "cashu" "mint" live_start).1.trace
reconcile-IsGuarded_example =
    reconcile-IsGuarded empty_cluster (make_generators-MakesTheSecrets machinery encoding) "cashu"
      "mint" live_start tt

reconcile-IsScheduled_example :
    OfReturn IsScheduled (reconcile empty_cluster "cashu" "mint" live_start).0
reconcile-IsScheduled_example =
    reconcile-IsScheduled empty_cluster "cashu" "mint" live_start live_mint refl refl

-- A cluster that has all that a mint needs.
abbrev full_server : Server
full_server = record small_server {
  get_mint = λ t ns name. ok live_mint;
  get_config_map = λ t ns name. ok (record { name = name; entries = none });
  get_ingress = λ t ns name. ok (record { name = name; is_assigned = true; has_tls = false });
}

abbrev full_cluster : Env
full_cluster = record {
  server = full_server;
  library = small_library;
  generators = make_generators machinery encoding;
}

full_cluster-IsHealthy : IsHealthy full_cluster
unfolding is_deployment_ready
full_cluster-IsHealthy = record {
  writes = λ t c. refl;
  mints = λ t ns name. tt;
  secrets = λ t ns name. tt;
  config_maps = λ t ns name. tt;
  services = λ t ns name. tt;
  ingresses = λ t ns name. tt;
  deployments = λ t ns name. refl;
  manifests = make_generators-MakesAll machinery encoding (λ m k. refl);
}

live_mint-IsAdmitted : IsAdmitted full_cluster live_mint
unfolding lookup
live_mint-IsAdmitted = record {
  is_live = refl;
  has_finalizer = refl;
  has_phase = refl;
  is_resolvable = (record { read = λ t. refl }, tt);
}

reconcile-IsSettled_example : OfEnd IsSettled (reconcile full_cluster "cashu" "mint" live_start)
reconcile-IsSettled_example =
    reconcile-IsSettled full_cluster full_cluster-IsHealthy "cashu" "mint" live_start live_mint refl
      live_mint-IsAdmitted
