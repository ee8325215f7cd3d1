-- ===== src/Generators/Deployment/Containers.antt =====
-- The containers of the mint's pod (internal/controller/generators/deployment.go).
use cashu_operator.Generators.Postgres.{no_resources}
use cashu_operator.Generators.Deployment.Volumes.{
  generate_volume_mounts, mount, sidecar_tls, secret_mount,
}
use cashu_operator.Generators.Deployment.Env.{generate_environment_variables}
use cashu_operator.Common.Int.{or_port, pos}
use cashu_operator.Generators.Names.{
  added, prometheus_metrics_port_name, listen_port, ldk_port, metrics_port, for_each,
  ldk_webserver_port, enabled_prometheus,
}
use cashu_operator.Generators.Manifest.{Probe, Container, VolumeMount, ContainerPort, http_get}
use cashu_operator.Api.{
  PrometheusConfig, CashuMintSpec, CashuMint, LdkNodeConfig, SidecarProcessorConfig,
  GrpcProcessorConfig, ResourceRequirements, SecurityContext, default_mint_image,
}
use cashu_operator.Common.{
  String, ℕ, or_text, List, some, or_value, [], false, ◌∷◌, true, not, none, ◌==◌, ◌++◌,
}

abbrev pub pull_policy : String → String
pull_policy p = or_text p "IfNotPresent"

abbrev pub metrics_container_port : PrometheusConfig → List ContainerPort
metrics_container_port p =
    record { name = prometheus_metrics_port_name; port = metrics_port p } ∷ []

unfoldable pub mint_ports : CashuMintSpec → List ContainerPort
mint_ports s =
    record { name = "api"; port = listen_port s }
    ∷ for_each (enabled_prometheus s.prometheus) metrics_container_port

-- Resources of which the limit of the processor and the memory differ between containers.
abbrev pub default_resources : String → ResourceRequirements
default_resources cpu_limit = record {
  limits = some (("cpu", cpu_limit) ∷ (("memory", "512Mi") ∷ []));
  requests = some (("cpu", "100m") ∷ (("memory", "128Mi") ∷ []));
}

-- `getResourceRequirements`
unfoldable pub get_resource_requirements : CashuMintSpec → ResourceRequirements
get_resource_requirements s = or_value s.resources (default_resources "1000m")

-- `getContainerSecurityContext`
unfoldable pub get_container_security_context : CashuMintSpec → SecurityContext
get_container_security_context s = or_value s.container_security_context (record {
  allow_privilege_escalation = some false;
  read_only_root_filesystem = some false;
  run_as_non_root = some true;
  run_as_user = none;
  drop = "ALL" ∷ [];
})

abbrev info_probe : ℕ → ℕ → ℕ → Probe
info_probe delay period timeout = record {
  handler = http_get "/v1/info" "api";
  initial_delay = delay;
  period = period;
  timeout = timeout;
  success_threshold = 1;
  failure_threshold = 3;
}

-- `generateMintContainer`
unfoldable pub mint_container : CashuMint → Container
mint_container m = record {
  name = "mintd";
  image = or_text m.spec.image default_mint_image;
  image_pull_policy = pull_policy m.spec.image_pull_policy;
  command = [];
  args = [];
  ports = mint_ports m.spec;
  env = generate_environment_variables m;
  volume_mounts = generate_volume_mounts m;
  resources = get_resource_requirements m.spec;
  liveness_probe = some (info_probe 30 30 10);
  readiness_probe = some (info_probe 10 10 5);
  security_context = some (get_container_security_context m.spec);
}

-- `generateLDKContainer`
unfoldable pub ldk_container : LdkNodeConfig → Container
ldk_container l = record {
  name = "ldk-node";
  image = or_text l.image "ghcr.io/cashubtc/ldk-node:latest";
  image_pull_policy = "";
  command = [];
  args = [];
  ports =
      record { name = "ldk"; port = ldk_port l }
      ∷ (record { name = "webserver"; port = ldk_webserver_port l } ∷ []);
  env = [];
  volume_mounts = mount "data" "/data" ∷ [];
  resources = no_resources;
  liveness_probe = none;
  readiness_probe = none;
  security_context = some (record {
    allow_privilege_escalation = some false;
    read_only_root_filesystem = none;
    run_as_non_root = some true;
    run_as_user = none;
    drop = [];
  });
}

abbrev pub work_mount : String → VolumeMount
work_mount dir = record {
  name = "data";
  mount_path = dir;
  sub_path = "sidecar-processor";
  read_only = false;
}

unfoldable pub sidecar_mounts : SidecarProcessorConfig → List VolumeMount
sidecar_mounts s =
    added (not (s.working_dir == "")) (work_mount s.working_dir ∷ [])
    ++ for_each (sidecar_tls s) (λ r. secret_mount "sidecar-tls" "/secrets/sidecar-tls" "" ∷ [])

-- `generateSidecarProcessorContainer`
unfoldable pub sidecar_container : GrpcProcessorConfig → SidecarProcessorConfig → Container
sidecar_container gp s = record {
  name = "grpc-processor";
  image = s.image;
  image_pull_policy = pull_policy s.image_pull_policy;
  command = s.command;
  args = s.args;
  ports = record { name = "grpc"; port = or_port gp.port (pos 50051) } ∷ [];
  env = s.env;
  volume_mounts = sidecar_mounts s;
  resources = or_value s.resources no_resources;
  liveness_probe = none;
  readiness_probe = none;
  security_context = some (record {
    allow_privilege_escalation = some false;
    read_only_root_filesystem = none;
    run_as_non_root = none;
    run_as_user = none;
    drop = [];
  });
}
