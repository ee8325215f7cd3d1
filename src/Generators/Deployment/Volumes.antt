-- ===== src/Generators/Deployment/Volumes.antt =====
-- Volumes and mounts of the mint's pod (internal/controller/generators/deployment.go).
use cashu_operator.Generators.Names.{
  for_each, grpc_processor_tls_mount_path, added, management_rpc_tls_volume_name,
  orchard_management_rpc_tls_mount_path,
}
use cashu_operator.Generators.Manifest.{
  VolumeMount, VolumeSource, Volume, secret_volume, config_map_volume, claim_volume, empty_dir,
}
use cashu_operator.Common.{
  Option, String, if◌then◌else◌, List, some, none, true, false, ◌∷◌, ◌==◌, [], ◌||◌, ◌<>◌, ◌++◌,
}
use cashu_operator.Api.{
  PaymentBackendConfig, GrpcProcessorConfig, SidecarProcessorConfig, CashuMint, LndConfig,
  SecretKeySelector, active_backend, payment_backend_lnd, payment_backend_grpc_processor,
  database_engine_sqlite, database_engine_redb, management_rpc_tls_enabled,
  management_rpc_tls_secret_name,
}

abbrev pub lnd_in_use : PaymentBackendConfig → Option LndConfig
lnd_in_use p = if active_backend p == payment_backend_lnd then p.lnd else none

abbrev pub grpc_in_use : PaymentBackendConfig → Option GrpcProcessorConfig
grpc_in_use p =
    if active_backend p == payment_backend_grpc_processor then p.grpc_processor else none

abbrev enabled_sidecar :
    GrpcProcessorConfig
    → Option SidecarProcessorConfig
    → Option (GrpcProcessorConfig × SidecarProcessorConfig)
enabled_sidecar gp none = none
enabled_sidecar gp (some s) = if s.enabled then some (gp, s) else none

abbrev sidecar_in :
    Option GrpcProcessorConfig → Option (GrpcProcessorConfig × SidecarProcessorConfig)
sidecar_in none = none
sidecar_in (some gp) = enabled_sidecar gp gp.sidecar_processor

-- The enabled sidecar of the gRPC processor in use.
abbrev pub sidecar_of : PaymentBackendConfig → Option (GrpcProcessorConfig × SidecarProcessorConfig)
sidecar_of p = sidecar_in (grpc_in_use p)

-- The TLS secret of a sidecar, where TLS is enabled.
abbrev pub sidecar_tls : SidecarProcessorConfig → Option SecretKeySelector
sidecar_tls s = if s.enable_tls then s.tls_secret_ref else none

-- A mount that is only read.
abbrev pub secret_mount : String → String → String → VolumeMount
secret_mount name path sub_path = record {
  name = name;
  mount_path = path;
  sub_path = sub_path;
  read_only = true;
}

abbrev pub mount : String → String → VolumeMount
mount name path = record { name = name; mount_path = path; sub_path = ""; read_only = false }

-- `generateVolumeMounts`: `data` stands before `config`, whose file lies in it.
unfoldable pub generate_volume_mounts : CashuMint → List VolumeMount
generate_volume_mounts m =
    mount "data" "/data"
    ∷ (secret_mount "config" "/data/config.toml" "config.toml"
        ∷ (for_each (lnd_in_use m.spec.payment_backend) (λ l.
              for_each l.macaroon_secret_ref
                (λ r. secret_mount "lnd-macaroon" "/secrets/lnd/macaroon" r.key ∷ [])
              ++ for_each l.cert_secret_ref
                  (λ r. secret_mount "lnd-cert" "/secrets/lnd/cert" r.key ∷ []))
            ++ (for_each (grpc_in_use m.spec.payment_backend) (λ gp.
                  for_each gp.tls_secret_ref
                    (λ r. secret_mount "grpc-tls" grpc_processor_tls_mount_path "" ∷ []))
                ++ added (management_rpc_tls_enabled m.spec) (
                    secret_mount management_rpc_tls_volume_name
                      orchard_management_rpc_tls_mount_path ""
                    ∷ []))))

-- A volume that holds the secret of a reference.
abbrev pub secret_volume_of : String → SecretKeySelector → List Volume
secret_volume_of name r = record { name = name; source = secret_volume r.name } ∷ []

abbrev pub data_source : CashuMint → VolumeSource
data_source m =
    if (m.spec.database.engine == database_engine_sqlite)
      || (m.spec.database.engine == database_engine_redb)
    then claim_volume (m.metadata.name <> "-data")
    else empty_dir

-- The volumes that depend on the payment backend and on the management RPC.
abbrev pub lnd_volumes : PaymentBackendConfig → List Volume
lnd_volumes p = for_each (lnd_in_use p) (λ l.
    for_each l.macaroon_secret_ref (secret_volume_of "lnd-macaroon")
    ++ for_each l.cert_secret_ref (secret_volume_of "lnd-cert"))

abbrev pub grpc_volumes : PaymentBackendConfig → List Volume
grpc_volumes p =
    for_each (grpc_in_use p) (λ gp. for_each gp.tls_secret_ref (secret_volume_of "grpc-tls"))

abbrev pub management_volumes : CashuMint → List Volume
management_volumes m = added (management_rpc_tls_enabled m.spec) (
    record {
      name = management_rpc_tls_volume_name;
      source = secret_volume (management_rpc_tls_secret_name m.spec m.metadata.name);
    }
    ∷ [])

abbrev pub sidecar_volumes : PaymentBackendConfig → List Volume
sidecar_volumes p =
    for_each (sidecar_of p) (λ s. for_each (sidecar_tls s.1) (secret_volume_of "sidecar-tls"))

-- `generateVolumes`
unfoldable pub generate_volumes : CashuMint → List Volume
generate_volumes m =
    record { name = "config"; source = config_map_volume (m.metadata.name <> "-config") }
    ∷ (record { name = "data"; source = data_source m }
        ∷ (lnd_volumes m.spec.payment_backend
            ++ (grpc_volumes m.spec.payment_backend
                ++ (management_volumes m ++ sidecar_volumes m.spec.payment_backend))))
