-- ===== src/Generators/Pod/Covering.antt =====
-- The mounts of each container of the mint's pod (internal/controller/generators/deployment.go and
-- orchard.go).
use cashu_operator.Generators.Deployment.Containers.{sidecar_mounts, work_mount}
use cashu_operator.Generators.Deployment.Volumes.{
  secret_mount, secret_volume_of, data_source, generate_volume_mounts, mount, generate_volumes,
  lnd_in_use, grpc_in_use, sidecar_of, sidecar_tls, sidecar_volumes, lnd_volumes, grpc_volumes,
  management_volumes,
}
use cashu_operator.Generators.Names.{
  for_each, management_rpc_tls_volume_name, grpc_processor_tls_mount_path,
}
use cashu_operator.Generators.Manifest.{Volume, config_map_volume, VolumeMount, secret_volume}
use cashu_operator.Generators.Pod.Mounts.{
  IsCovered, Covered-for_each, Covered-append, Covered-one, mount_names, volume_names, also, there,
  here, Covered-left, none_left, Covered-added, Covered-both, Covered-if_added, Covered-right,
  Covered-of,
}
use cashu_operator.Api.{
  CashuMint, LndConfig, GrpcProcessorConfig, SidecarProcessorConfig, management_rpc_tls_secret_name,
  management_rpc_tls_enabled,
}
use cashu_operator.Common.{Option, List, ◌<>◌, ◌∷◌, [], ◌++◌, refl, String, ◌≡◌, some}

Covered-lnd :
    (l : Option LndConfig)
    → IsCovered
        (for_each l (λ l.
          for_each l.macaroon_secret_ref
            (λ r. secret_mount "lnd-macaroon" "/secrets/lnd/macaroon" r.key ∷ [])
          ++ for_each l.cert_secret_ref
              (λ r. secret_mount "lnd-cert" "/secrets/lnd/cert" r.key ∷ [])))
        (for_each l (λ l.
          for_each l.macaroon_secret_ref (secret_volume_of "lnd-macaroon")
          ++ for_each l.cert_secret_ref (secret_volume_of "lnd-cert")))
Covered-lnd l = Covered-for_each l (λ l.
    Covered-append (Covered-for_each l.macaroon_secret_ref (λ r. Covered-one _ _ refl))
      (Covered-for_each l.cert_secret_ref (λ r. Covered-one _ _ refl)))

abbrev base_mounts : List VolumeMount
base_mounts = mount "data" "/data" ∷ (secret_mount "config" "/data/config.toml" "config.toml" ∷ [])

-- The two volumes that every pod has.
abbrev pub base_volumes : CashuMint → List Volume
base_volumes m =
    record { name = "config"; source = config_map_volume (m.metadata.name <> "-config") }
    ∷ (record { name = "data"; source = data_source m } ∷ [])

Covered-base : (m : CashuMint) → IsCovered base_mounts (base_volumes m)
unfolding mount_names volume_names
Covered-base m = record { all_in = also (there here) (also here none_left) }

pub Covered-data :
    (m : CashuMint) (v : VolumeMount) → v.name ≡ "data" → IsCovered (v ∷ []) (base_volumes m)
unfolding mount_names volume_names
Covered-data m v e = record { all_in = also (rw e (there here)) none_left }

pub Covered-management :
    (m : CashuMint) (path : String)
    → IsCovered (secret_mount management_rpc_tls_volume_name path "" ∷ []) (
        record {
          name = management_rpc_tls_volume_name;
          source = secret_volume (management_rpc_tls_secret_name m.spec m.metadata.name);
        }
        ∷ [])
Covered-management m path = Covered-one _ _ refl

Covered-grpc :
    (g : Option GrpcProcessorConfig)
    → IsCovered
        (for_each g (λ gp.
          for_each gp.tls_secret_ref
            (λ r. secret_mount "grpc-tls" grpc_processor_tls_mount_path "" ∷ [])))
        (for_each g (λ gp. for_each gp.tls_secret_ref (secret_volume_of "grpc-tls")))
Covered-grpc g =
    Covered-for_each g (λ gp. Covered-for_each gp.tls_secret_ref (λ r. Covered-one _ _ refl))

pub Covered-mint : (m : CashuMint) → IsCovered (generate_volume_mounts m) (generate_volumes m)
unfolding generate_volume_mounts generate_volumes
Covered-mint m = Covered-append {a = base_mounts} {b = base_volumes m} (Covered-base m) (
    Covered-append (Covered-lnd (lnd_in_use m.spec.payment_backend)) (
      Covered-append (Covered-grpc (grpc_in_use m.spec.payment_backend)) (
        Covered-left _
          (Covered-added (management_rpc_tls_enabled m.spec) (Covered-management m _)))))

pub Covered-sidecar :
    (m : CashuMint) (s : GrpcProcessorConfig × SidecarProcessorConfig)
    → sidecar_of m.spec.payment_backend ≡ some s
    → IsCovered (sidecar_mounts s.1) (generate_volumes m)
unfolding sidecar_mounts generate_volumes
Covered-sidecar m s e =
    let p = m.spec.payment_backend in
    let w : IsCovered (work_mount s.1.working_dir ∷ []) (base_volumes m) = Covered-data m _ refl in
    let t : IsCovered
        (for_each (sidecar_tls s.1)
          (λ r. secret_mount "sidecar-tls" "/secrets/sidecar-tls" "" ∷ []))
        (sidecar_volumes p) =
      Covered-of (sidecar_of p) (λ s. for_each (sidecar_tls s.1) (secret_volume_of "sidecar-tls")) e
        (Covered-for_each (sidecar_tls s.1) (λ r. Covered-one _ _ refl)) in
    Covered-both
      (Covered-if_added _ (
        Covered-left
          (lnd_volumes p ++ (grpc_volumes p ++ (management_volumes m ++ sidecar_volumes p))) w))
      (Covered-right (base_volumes m) (
        Covered-right (lnd_volumes p)
          (Covered-right (grpc_volumes p) (Covered-right (management_volumes m) t))))
