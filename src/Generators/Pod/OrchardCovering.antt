-- ===== src/Generators/Pod/OrchardCovering.antt =====
-- The mounts of the Orchard companion (internal/controller/generators/orchard.go), and those of all
-- containers of the pod.
use cashu_operator.Generators.Pod.Covering.{base_volumes, Covered-data, Covered-management}
use cashu_operator.Generators.Deployment.{pod_volumes}
use cashu_operator.Generators.Orchard.Volumes.{
  orchard_volume_mounts, generate_orchard_volumes, orchard_volumes,
}
use cashu_operator.Validation.Valid.{OrchardMintIsValid}
use cashu_operator.Generators.Names.{
  for_each, orchard_pvc_name, added, management_rpc_tls_volume_name,
  orchard_management_rpc_tls_mount_path, enabled_orchard,
}
use cashu_operator.Generators.Deployment.Volumes.{
  mount, secret_volume_of, generate_volumes, secret_mount, lnd_volumes, grpc_volumes,
  management_volumes, sidecar_volumes,
}
use cashu_operator.Generators.Pod.Mounts.{
  mount_names, volume_names, IsCovered, Covered-for_each, Covered-one, Covered-append, also, here,
  there, none_left, Covered-nothing, Covered-right, Covered-of, Covered-both, Covered-left,
}
use cashu_operator.Generators.Manifest.{VolumeMount, Volume, claim_volume, empty_dir}
use cashu_operator.Generators.Orchard.Env.{orchard_mint_rpc_mtls}
use cashu_operator.Api.{
  OrchardConfig, CashuMint, SecretKeySelector, management_rpc_tls_enabled, CashuMintSpec,
  orchard_enabled, management_rpc_enabled,
}
use cashu_operator.Common.{
  Option, List, String, ◌∷◌, [], ◌++◌, ◌≡◌, true, refl, arith, Bool-cases, inr, some, inl,
}

-- A file of a secret and the volume that holds it.
Covered-ref :
    (o : Option SecretKeySelector) (name path : String)
    → IsCovered
        (for_each o (λ r. secret_mount name path r.key ∷ []))
        (for_each o (secret_volume_of name))
Covered-ref o name path = Covered-for_each o (λ r. Covered-one _ _ refl)

abbrev own_mounts : List VolumeMount
own_mounts =
    mount "orchard-data" "/app/data"
    ∷ (mount "orchard-tmp" "/app/data/tmp" ∷ (mount "data" "/mnt/mint" ∷ []))

abbrev file_volumes : OrchardConfig → List Volume
file_volumes o =
    for_each o.lightning (λ l.
      for_each l.macaroon_secret_ref (secret_volume_of "orchard-lightning-macaroon")
      ++ (for_each l.cert_secret_ref (secret_volume_of "orchard-lightning-cert")
          ++ (for_each l.key_secret_ref (secret_volume_of "orchard-lightning-key")
              ++ for_each l.ca_secret_ref (secret_volume_of "orchard-lightning-ca"))))
    ++ for_each o.taproot_assets (λ t.
      for_each t.macaroon_secret_ref (secret_volume_of "orchard-taproot-macaroon")
      ++ for_each t.cert_secret_ref (secret_volume_of "orchard-taproot-cert"))

abbrev own_volumes : CashuMint → List Volume
own_volumes m =
    record { name = "orchard-data"; source = claim_volume (orchard_pvc_name m) }
    ∷ (record { name = "orchard-tmp"; source = empty_dir } ∷ [])

-- Orchard's mTLS is on only where the secret of the management RPC is made.
pub orchard_mint_rpc_mtls-enabled :
    (s : CashuMintSpec) (o : OrchardConfig)
    → orchard_enabled s.orchard ≡ true
    → OrchardMintIsValid (management_rpc_enabled s.management_rpc) o.mint
    → orchard_mint_rpc_mtls s o ≡ true
    → management_rpc_tls_enabled s ≡ true
unfolding orchard_mint_rpc_mtls management_rpc_tls_enabled
orchard_mint_rpc_mtls-enabled s o e v h = ground arith

Covered-orchard_files :
    (o : OrchardConfig)
    → IsCovered
        (for_each o.lightning (λ l.
            for_each l.macaroon_secret_ref (λ r.
              secret_mount "orchard-lightning-macaroon" "/secrets/orchard/lightning/macaroon" r.key
              ∷ [])
            ++ (for_each l.cert_secret_ref (λ r.
                  secret_mount "orchard-lightning-cert" "/secrets/orchard/lightning/cert" r.key
                  ∷ [])
                ++ (for_each l.key_secret_ref (λ r.
                      secret_mount "orchard-lightning-key" "/secrets/orchard/lightning/key" r.key
                      ∷ [])
                    ++ for_each l.ca_secret_ref (λ r.
                      secret_mount "orchard-lightning-ca" "/secrets/orchard/lightning/ca" r.key
                      ∷ []))))
          ++ for_each o.taproot_assets (λ t.
            for_each t.macaroon_secret_ref (λ r.
              secret_mount "orchard-taproot-macaroon" "/secrets/orchard/taproot/macaroon" r.key
              ∷ [])
            ++ for_each t.cert_secret_ref (λ r.
              secret_mount "orchard-taproot-cert" "/secrets/orchard/taproot/cert" r.key ∷ [])))
        (file_volumes o)
Covered-orchard_files o =
    Covered-append
      (Covered-for_each o.lightning (λ l. Covered-append (Covered-ref l.macaroon_secret_ref _ _) (
        Covered-append (Covered-ref l.cert_secret_ref _ _)
          (Covered-append (Covered-ref l.key_secret_ref _ _) (Covered-ref l.ca_secret_ref _ _)))))
      (Covered-for_each o.taproot_assets (λ t.
        Covered-append (Covered-ref t.macaroon_secret_ref _ _) (Covered-ref t.cert_secret_ref _ _)))

abbrev backend_volumes : CashuMint → List Volume
backend_volumes m =
    lnd_volumes m.spec.payment_backend
    ++ (grpc_volumes m.spec.payment_backend
        ++ (management_volumes m ++ sidecar_volumes m.spec.payment_backend))

pub Covered-base_volumes :
    (m : CashuMint) (a : List VolumeMount)
    → IsCovered a (base_volumes m)
    → IsCovered a (generate_volumes m)
unfolding generate_volumes
Covered-base_volumes m a p = Covered-left (backend_volumes m) p

Covered-tls :
    (m : CashuMint) (o : OrchardConfig)
    → (orchard_mint_rpc_mtls m.spec o ≡ true → management_rpc_tls_enabled m.spec ≡ true)
    → IsCovered
        (added (orchard_mint_rpc_mtls m.spec o) (
          secret_mount management_rpc_tls_volume_name orchard_management_rpc_tls_mount_path ""
          ∷ []))
        (generate_volumes m)
unfolding generate_volumes added
Covered-tls m o h = elim (Bool-cases (orchard_mint_rpc_mtls m.spec o)) [
  | inr e ↦ rw e Covered-nothing
  | inl e ↦
      rw (e, h e)
        (Covered-right (base_volumes m) (
          Covered-right (lnd_volumes m.spec.payment_backend) (
            Covered-right (grpc_volumes m.spec.payment_backend)
              (Covered-left (sidecar_volumes m.spec.payment_backend) (Covered-management m _)))))
]

Covered-own :
    (m : CashuMint)
    → IsCovered
        (mount "orchard-data" "/app/data" ∷ (mount "orchard-tmp" "/app/data/tmp" ∷ []))
        (own_volumes m)
unfolding mount_names volume_names
Covered-own m = record { all_in = also here (also (there here) none_left) }

pub Covered-orchard :
    (m : CashuMint) (o : OrchardConfig)
    → enabled_orchard m.spec.orchard ≡ some o
    → (orchard_mint_rpc_mtls m.spec o ≡ true → management_rpc_tls_enabled m.spec ≡ true)
    → IsCovered (orchard_volume_mounts m.spec o) (pod_volumes m)
unfolding orchard_volume_mounts pod_volumes generate_orchard_volumes orchard_volumes
Covered-orchard m o e h =
    let v = generate_volumes m in
    let w = for_each (enabled_orchard m.spec.orchard) (orchard_volumes m) in
    let within_orchard : (a : List VolumeMount)
        → IsCovered a (orchard_volumes m o)
        → IsCovered a (v ++ w) =
      λ a p.
        Covered-right v (Covered-of (enabled_orchard m.spec.orchard) (orchard_volumes m) e p) in
    Covered-both {a = own_mounts}
      (Covered-both
        {a = mount "orchard-data" "/app/data" ∷ (mount "orchard-tmp" "/app/data/tmp" ∷ [])}
        (within_orchard _ (Covered-left (file_volumes o) (Covered-own m)))
        (Covered-left w (Covered-base_volumes m _ (Covered-data m _ refl))))
      (Covered-both (Covered-left w (Covered-tls m o h))
        (within_orchard _ (Covered-right (own_volumes m) (Covered-orchard_files o))))
