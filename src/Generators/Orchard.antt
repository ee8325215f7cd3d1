-- ===== src/Generators/Orchard.antt =====
-- The Orchard companion in the mint's pod (internal/controller/generators/orchard.go).
pub mod Env
pub mod Volumes
use cashu_operator.Generators.Orchard.Volumes.{orchard_volume_mounts}
use cashu_operator.Generators.Orchard.Env.{orchard_env}
use cashu_operator.Common.Int.{pos, or_port}
use cashu_operator.Generators.Deployment.Containers.{default_resources, pull_policy}
use cashu_operator.Generators.Names.{orchard_str}
use cashu_operator.Generators.Manifest.{Probe, Container, tcp_socket}
use cashu_operator.Common.{ℕ, or_value, some, or_text, false, ◌∷◌, []}
use cashu_operator.Api.{
  OrchardConfig, CashuMint, ResourceRequirements, SecurityContext, default_orchard_image,
}

-- `getOrchardResourceRequirements`
unfoldable pub get_orchard_resource_requirements : OrchardConfig → ResourceRequirements
get_orchard_resource_requirements o = or_value o.resources (default_resources "500m")

-- `getOrchardContainerSecurityContext`
unfoldable pub get_orchard_container_security_context : OrchardConfig → SecurityContext
get_orchard_container_security_context o = or_value o.container_security_context (record {
  allow_privilege_escalation = some false;
  read_only_root_filesystem = some false;
  run_as_non_root = some false;
  run_as_user = some (pos 0);
  drop = "ALL" ∷ [];
})

abbrev socket_probe : ℕ → ℕ → Probe
socket_probe delay period = record {
  handler = tcp_socket orchard_str;
  initial_delay = delay;
  period = period;
  timeout = 5;
  success_threshold = 0;
  failure_threshold = 3;
}

-- `GenerateOrchardContainer`
unfoldable pub orchard_container : CashuMint → OrchardConfig → Container
orchard_container m o = record {
  name = orchard_str;
  image = or_text o.image (default_orchard_image m.spec.database.engine);
  image_pull_policy = pull_policy o.image_pull_policy;
  command = [];
  args = [];
  ports = record { name = orchard_str; port = or_port o.port (pos 3321) } ∷ [];
  env = orchard_env m o;
  volume_mounts = orchard_volume_mounts m.spec o;
  resources = get_orchard_resource_requirements o;
  liveness_probe = some (socket_probe 30 30);
  readiness_probe = some (socket_probe 10 10);
  security_context = some (get_orchard_container_security_context o);
}
