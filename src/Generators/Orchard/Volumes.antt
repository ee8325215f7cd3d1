-- ===== src/Generators/Orchard/Volumes.antt =====
-- Volumes and mounts of the Orchard companion (internal/controller/generators/orchard.go).
use cashu_operator.Generators.Orchard.Env.{orchard_mint_rpc_mtls}
use cashu_operator.Generators.Names.{
  for_each, orchard_pvc_name, enabled_orchard, added, management_rpc_tls_volume_name,
  orchard_management_rpc_tls_mount_path,
}
use cashu_operator.Generators.Deployment.Volumes.{mount, secret_volume_of, secret_mount}
use cashu_operator.Generators.Manifest.{VolumeMount, Volume, claim_volume, empty_dir}
use cashu_operator.Common.{List, ◌∷◌, ◌++◌, []}
use cashu_operator.Api.{CashuMintSpec, CashuMint, OrchardConfig}

-- `generateOrchardVolumeMounts`
unfoldable pub orchard_volume_mounts : CashuMintSpec → OrchardConfig → List VolumeMount
orchard_volume_mounts s o =
    mount "orchard-data" "/app/data"
    ∷ (mount "orchard-tmp" "/app/data/tmp"
        ∷ (mount "data" "/mnt/mint"
            ∷ (added (orchard_mint_rpc_mtls s o) (
                  secret_mount management_rpc_tls_volume_name orchard_management_rpc_tls_mount_path
                    ""
                  ∷ [])
                ++ (for_each o.lightning (λ l.
                      for_each l.macaroon_secret_ref (λ r.
                        secret_mount "orchard-lightning-macaroon"
                          "/secrets/orchard/lightning/macaroon" r.key
                        ∷ [])
                      ++ (for_each l.cert_secret_ref (λ r.
                            secret_mount "orchard-lightning-cert" "/secrets/orchard/lightning/cert"
                              r.key
                            ∷ [])
                          ++ (for_each l.key_secret_ref (λ r.
                                secret_mount "orchard-lightning-key"
                                  "/secrets/orchard/lightning/key" r.key
                                ∷ [])
                              ++ for_each l.ca_secret_ref (λ r.
                                secret_mount "orchard-lightning-ca" "/secrets/orchard/lightning/ca"
                                  r.key
                                ∷ []))))
                    ++ for_each o.taproot_assets (λ t.
                      for_each t.macaroon_secret_ref (λ r.
                        secret_mount "orchard-taproot-macaroon" "/secrets/orchard/taproot/macaroon"
                          r.key
                        ∷ [])
                      ++ for_each t.cert_secret_ref (λ r.
                        secret_mount "orchard-taproot-cert" "/secrets/orchard/taproot/cert" r.key
                        ∷ []))))))

unfoldable pub orchard_volumes : CashuMint → OrchardConfig → List Volume
orchard_volumes m o =
    record { name = "orchard-data"; source = claim_volume (orchard_pvc_name m) }
    ∷ (record { name = "orchard-tmp"; source = empty_dir }
        ∷ (for_each o.lightning (λ l.
              for_each l.macaroon_secret_ref (secret_volume_of "orchard-lightning-macaroon")
              ++ (for_each l.cert_secret_ref (secret_volume_of "orchard-lightning-cert")
                  ++ (for_each l.key_secret_ref (secret_volume_of "orchard-lightning-key")
                      ++ for_each l.ca_secret_ref (secret_volume_of "orchard-lightning-ca"))))
            ++ for_each o.taproot_assets (λ t.
              for_each t.macaroon_secret_ref (secret_volume_of "orchard-taproot-macaroon")
              ++ for_each t.cert_secret_ref (secret_volume_of "orchard-taproot-cert"))))

-- `GenerateOrchardVolumes`
unfoldable pub generate_orchard_volumes : CashuMint → List Volume
generate_orchard_volumes m = for_each (enabled_orchard m.spec.orchard) (orchard_volumes m)
