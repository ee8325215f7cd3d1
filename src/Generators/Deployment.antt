-- ===== src/Generators/Deployment.antt =====
-- internal/controller/generators/deployment.go
pub mod Env
pub mod Volumes
pub mod Containers
use cashu_operator.Generators.Orchard.{orchard_container}
use cashu_operator.Common.Int.{pos}
use cashu_operator.Generators.Orchard.Volumes.{generate_orchard_volumes}
use cashu_operator.Generators.Deployment.Containers.{
  sidecar_container, ldk_container, mint_container,
}
use cashu_operator.Generators.Deployment.Volumes.{generate_volumes, sidecar_of}
use cashu_operator.Generators.Names.{for_each, mint_selector_labels, enabled_ldk, enabled_orchard}
use cashu_operator.Controller.Env.{Result, deployment}
use cashu_operator.Common.{List, String, or_value, [], some, ◌++◌, true, none, ◌∷◌}
use cashu_operator.Generators.Manifest.{
  OwnerError, PodSpec, Container, Volume, DeploymentManifest, owned,
}
use cashu_operator.Api.{CashuMint, CashuMintSpec, PodSecurityContext}

-- `generatePodSpec`: the sidecars, the mint, and the Orchard companion.
unfoldable pub pod_containers : CashuMint → List Container
pod_containers m =
    for_each (sidecar_of m.spec.payment_backend) (λ s. sidecar_container s.0 s.1 ∷ [])
    ++ (for_each (enabled_ldk m.spec.ldk_node) (λ l. ldk_container l ∷ [])
        ++ (mint_container m
            ∷ for_each (enabled_orchard m.spec.orchard) (λ o. orchard_container m o ∷ [])))

unfoldable pub pod_volumes : CashuMint → List Volume
pod_volumes m = generate_volumes m ++ generate_orchard_volumes m

-- `getPodSecurityContext`
abbrev pod_security_context : CashuMintSpec → PodSecurityContext
pod_security_context s = or_value s.pod_security_context (record {
  run_as_non_root = some true;
  run_as_user = some (pos 1000);
  fs_group = some (pos 1000);
})

unfoldable pub pod_spec : CashuMint → PodSpec
pod_spec m = record {
  init_containers = [];
  containers = pod_containers m;
  volumes = pod_volumes m;
  image_pull_secrets = m.spec.image_pull_secrets;
  node_selector = m.spec.node_selector;
  tolerations = m.spec.tolerations;
  affinity = m.spec.affinity;
  restart_policy = "";
  security_context = some (pod_security_context m.spec);
}

unfoldable pub deployment_manifest : CashuMint → String → DeploymentManifest
deployment_manifest m config_hash = record {
  meta = record {
    name = m.metadata.name;
    namespace = m.metadata.namespace;
    labels = mint_selector_labels m;
    annotations = none;
    owner = some m.metadata.name;
  };
  replicas = or_value m.spec.replicas (pos 1);
  selector = mint_selector_labels m;
  max_unavailable = 0;
  max_surge = 1;
  template = record {
    labels = mint_selector_labels m;
    annotations = some (("config-hash", config_hash) ∷ []);
    spec = pod_spec m;
  };
}

-- `GenerateDeployment`
unfoldable pub generate_deployment : OwnerError → CashuMint → String → Result DeploymentManifest
generate_deployment owner_error m config_hash =
    owned owner_error deployment m (deployment_manifest m config_hash)
