-- ===== src/Generators/Pod/Ports.antt =====
-- Named target ports of the services and of the pod monitor, and the ports of the mint's pod
-- (internal/controller/generators/service.go, podmonitor.go, orchard.go and deployment.go).
use cashu_operator.Generators.Pod.PortNames.{
  container_port_names, Reached, named_targets, IsServed, Served-right, Reached-cons, Served-here,
  Served-left, Served-of, Reached-append, Reached-for_each,
}
use cashu_operator.Generators.Orchard.{orchard_container}
use cashu_operator.Controller.Env.{Kind, ok, service, pod_monitor}
use cashu_operator.Generators.Service.{
  service_ports, generate_service, generate_orchard_service, generate_pod_monitor,
}
use cashu_operator.Generators.Deployment.Containers.{
  mint_ports, sidecar_container, ldk_container, mint_container,
}
use cashu_operator.Generators.Deployment.{pod_containers}
use cashu_operator.Generators.Deployment.Volumes.{sidecar_of}
use cashu_operator.Api.{CashuMint, PrometheusConfig, LdkNodeConfig, OrchardConfig}
use cashu_operator.Generators.Pod.Mounts.{In, none_left, here, there}
use cashu_operator.Generators.Manifest.{
  Container, OwnerError, owned, owned_some, ServiceManifest, PodMonitorManifest,
}
use cashu_operator.Generators.Names.{
  for_each, enabled_ldk, enabled_orchard, listen_port, enabled_prometheus,
  prometheus_metrics_port_name, orchard_str, enabled_management,
}
use cashu_operator.Common.{List, String, Option, ◌∷◌, ◌≡◌, some, [], refl, none, arith, subst}

module _ (m : CashuMint) where
  abbrev sidecars : List Container
  sidecars = for_each (sidecar_of m.spec.payment_backend) (λ s. sidecar_container s.0 s.1 ∷ [])

  abbrev nodes : List Container
  nodes = for_each (enabled_ldk m.spec.ldk_node) (λ l. ldk_container l ∷ [])

  abbrev companions : List Container
  companions = for_each (enabled_orchard m.spec.orchard) (λ o. orchard_container m o ∷ [])

  IsServed-mint_ports :
      (x : String) → In x (container_port_names (mint_ports m.spec)) → IsServed x (pod_containers m)
  unfolding pod_containers mint_container
  IsServed-mint_ports x i =
      Served-right sidecars (Served-right nodes (Served-here x (mint_container m) companions i))

  IsServed-ldk_container :
      (x : String) (l : LdkNodeConfig)
      → enabled_ldk m.spec.ldk_node ≡ some l
      → In x ("ldk" ∷ ("webserver" ∷ []))
      → IsServed x (pod_containers m)
  unfolding pod_containers ldk_container container_port_names
  IsServed-ldk_container x l e i = Served-right sidecars (
      Served-left (mint_container m ∷ companions) (
        Served-of (enabled_ldk m.spec.ldk_node) (λ l. ldk_container l ∷ []) e
          (Served-here x (ldk_container l) [] i)))

  IsServed-metrics :
      (p : PrometheusConfig)
      → enabled_prometheus m.spec.prometheus ≡ some p
      → IsServed prometheus_metrics_port_name (pod_containers m)
  unfolding mint_ports for_each container_port_names
  IsServed-metrics p e = IsServed-mint_ports _ (rw (e) (there here))

  IsServed-orchard_container :
      (o : OrchardConfig)
      → enabled_orchard m.spec.orchard ≡ some o
      → IsServed orchard_str (pod_containers m)
  unfolding pod_containers orchard_container container_port_names
  IsServed-orchard_container o e = Served-right sidecars (
      Served-right nodes (
        Served-right (mint_container m ∷ []) (
          Served-of (enabled_orchard m.spec.orchard) (λ o. orchard_container m o ∷ []) e
            (Served-here orchard_str (orchard_container m o) [] here))))

  Reached-service : Reached (pod_containers m) (service_ports m.spec)
  unfolding service_ports mint_ports container_port_names named_targets
  Reached-service = Reached-cons "api" "api" (listen_port m.spec) (IsServed-mint_ports "api" here) (
      Reached-append
        (Reached-for_each (enabled_ldk m.spec.ldk_node) (λ l e.
          Reached-cons "ldk" "ldk" _ (IsServed-ldk_container _ l e here) (
            Reached-cons "ldk-webserver" "webserver" _ (IsServed-ldk_container _ l e (there here))
              (record { reached = none_left }))))
        (Reached-append
          (Reached-for_each (enabled_management m.spec.management_rpc)
            (λ r e. record { reached = none_left }))
          (Reached-for_each (enabled_prometheus m.spec.prometheus)
            (λ p e. Reached-cons _ _ _ (IsServed-metrics p e) (record { reached = none_left })))))

pub owned-ok {ℓ} :
    {A : Type ℓ} (owner_error : OwnerError) (k : Kind) (m : CashuMint) (a b : A)
    → owned owner_error k m a ≡ ok b
    → a ≡ b
owned-ok owner_error k m a b h = ground arith

owned_some-ok {ℓ} :
    {A : Type ℓ} (owner_error : OwnerError) (k : Kind) (m : CashuMint) (a b : A)
    → owned_some owner_error k m a ≡ ok (some b)
    → a ≡ b
owned_some-ok owner_error k m a b h = ground arith

pub made-owned {ℓ κ} :
    {A : Type ℓ} {B : Type κ} (owner_error : OwnerError) (k : Kind) (m : CashuMint) (o : Option A)
    → (f : A → B) (b : B)
    → elim o [ none ↦ ok none | some a ↦ owned_some owner_error k m (f a) ] ≡ ok (some b)
    → (a : A) × (o ≡ some a) × (f a ≡ b)
made-owned owner_error k m none f b h = ground arith
made-owned owner_error k m (some a) f b h = (a, refl, owned_some-ok owner_error k m (f a) b h)

-- Every named target port of the service that a mint gets is a port of a container of its pod.
pub generate_service-Reached :
    (owner_error : OwnerError) (m : CashuMint) (s : ServiceManifest)
    → generate_service owner_error m ≡ ok s
    → Reached (pod_containers m) s.ports
unfolding generate_service
generate_service-Reached owner_error m s h =
    subst (λ s. Reached (pod_containers m) s.ports) (owned-ok owner_error service m _ s h)
      (Reached-service m)

-- Every named target port of the service that the Orchard companion gets is a port of a container of
-- the mint's pod.
pub generate_orchard_service-Reached :
    (owner_error : OwnerError) (m : CashuMint) (s : ServiceManifest)
    → generate_orchard_service owner_error m ≡ ok (some s)
    → Reached (pod_containers m) s.ports
unfolding generate_orchard_service named_targets
generate_orchard_service-Reached owner_error m s h =
    let (o, e, p) = made-owned owner_error service m (enabled_orchard m.spec.orchard) _ s h in
    subst (λ s. Reached (pod_containers m) s.ports) p
      (Reached-cons _ orchard_str _ (IsServed-orchard_container m o e)
        (record { reached = none_left }))

-- The port that a pod monitor reads is a port of a container of the mint's pod.
pub generate_pod_monitor-IsServed :
    (owner_error : OwnerError) (m : CashuMint) (p : PodMonitorManifest)
    → generate_pod_monitor owner_error m ≡ ok (some p)
    → IsServed p.port (pod_containers m)
unfolding generate_pod_monitor
generate_pod_monitor-IsServed owner_error m p h =
    let (c, e, q) =
      made-owned owner_error pod_monitor m (enabled_prometheus m.spec.prometheus) _ p h in
    subst (λ p. IsServed p.port (pod_containers m)) q (IsServed-metrics m c e)
