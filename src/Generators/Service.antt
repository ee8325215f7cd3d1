-- ===== src/Generators/Service.antt =====
-- internal/controller/generators/service.go and podmonitor.go, and `GenerateOrchardService`.
use cashu_operator.Controller.Env.{Result, service, ok, pod_monitor}
use cashu_operator.Generators.Names.{
  listen_port, ldk_port, management_port, prometheus_metrics_port_name, metrics_port, for_each,
  enabled_ldk, enabled_orchard, enabled_prometheus, ldk_webserver_port, enabled_management,
  mint_selector_labels, orchard_resource_name, orchard_labels, orchard_str, orchard_port,
}
use cashu_operator.Generators.Manifest.{
  OwnerError, ServicePort, Labels, ServiceManifest, PodMonitorManifest, by_name, by_number, owned,
  owned_some,
}
use cashu_operator.Api.{
  CashuMintSpec, LdkNodeConfig, ManagementRpcConfig, PrometheusConfig, ServiceConfig, CashuMint,
}
use cashu_operator.Common.{
  Option, List, String, ◌∷◌, [], some, or_text, or_value, if◌then◌else◌, ◌==◌, ◌++◌, none,
}

abbrev service_type : Option ServiceConfig → String
service_type none = "ClusterIP"
service_type (some c) = or_text c.type "ClusterIP"

-- `make(map[string]string)`, replaced by annotations that are not nil.
abbrev service_annotations : Option ServiceConfig → Labels
service_annotations none = []
service_annotations (some c) = or_value c.annotations []

-- The address is set only on a load balancer; an empty one is the zero value.
abbrev service_load_balancer_ip : Option ServiceConfig → String
service_load_balancer_ip none = ""
service_load_balancer_ip (some c) =
    if or_text c.type "ClusterIP" == "LoadBalancer" then c.load_balancer_ip else ""

abbrev pub api_port : CashuMintSpec → ServicePort
api_port s = record { name = "api"; port = listen_port s; target = some (by_name "api") }

abbrev pub ldk_service_ports : LdkNodeConfig → List ServicePort
ldk_service_ports l =
    record { name = "ldk"; port = ldk_port l; target = some (by_name "ldk") }
    ∷ (record {
      name = "ldk-webserver";
      port = ldk_webserver_port l;
      target = some (by_name "webserver");
    }
        ∷ [])

abbrev pub management_service_port : ManagementRpcConfig → List ServicePort
management_service_port m =
    record {
      name = "management";
      port = management_port m;
      target = some (by_number (management_port m));
    }
    ∷ []

abbrev pub metrics_service_port : PrometheusConfig → List ServicePort
metrics_service_port p =
    record {
      name = prometheus_metrics_port_name;
      port = metrics_port p;
      target = some (by_name prometheus_metrics_port_name);
    }
    ∷ []

unfoldable pub service_ports : CashuMintSpec → List ServicePort
service_ports s =
    api_port s
    ∷ (for_each (enabled_ldk s.ldk_node) ldk_service_ports
        ++ (for_each (enabled_management s.management_rpc) management_service_port
            ++ for_each (enabled_prometheus s.prometheus) metrics_service_port))

-- `GenerateService`
unfoldable pub generate_service : OwnerError → CashuMint → Result ServiceManifest
generate_service owner_error m = owned owner_error service m (record {
  meta = record {
    name = m.metadata.name;
    namespace = m.metadata.namespace;
    labels = mint_selector_labels m;
    annotations = some (service_annotations m.spec.service);
    owner = some m.metadata.name;
  };
  type = service_type m.spec.service;
  selector = mint_selector_labels m;
  ports = service_ports m.spec;
  cluster_ip = "";
  load_balancer_ip = service_load_balancer_ip m.spec.service;
})

-- `GenerateOrchardService`
unfoldable pub generate_orchard_service : OwnerError → CashuMint → Result (Option ServiceManifest)
generate_orchard_service owner_error m = elim (enabled_orchard m.spec.orchard) [
  | none ↦ ok none
  | some o ↦ owned_some owner_error service m (record {
    meta = record {
      name = orchard_resource_name m;
      namespace = m.metadata.namespace;
      labels = orchard_labels m;
      annotations = some (service_annotations o.service);
      owner = some m.metadata.name;
    };
    type = service_type o.service;
    selector = mint_selector_labels m;
    ports =
        record {
          name = orchard_str;
          port = orchard_port m.spec;
          target = some (by_name orchard_str);
        }
        ∷ [];
    cluster_ip = "";
    load_balancer_ip = service_load_balancer_ip o.service;
  })
]

-- `GeneratePodMonitor`
unfoldable pub generate_pod_monitor : OwnerError → CashuMint → Result (Option PodMonitorManifest)
generate_pod_monitor owner_error m = elim (enabled_prometheus m.spec.prometheus) [
  | none ↦ ok none
  | some p ↦ owned_some owner_error pod_monitor m (record {
    meta = record {
      name = m.metadata.name;
      namespace = m.metadata.namespace;
      labels = mint_selector_labels m;
      annotations = none;
      owner = some m.metadata.name;
    };
    selector = mint_selector_labels m;
    port = prometheus_metrics_port_name;
    path = "/metrics";
  })
]
