-- ===== src/Generators/Pod/AllMounts.antt =====
-- The mounts of all containers of the mint's pod (internal/controller/generators/deployment.go).
use cashu_operator.Validation.OrchardLaws.{validate_orchard_iff}
use cashu_operator.Generators.Orchard.{orchard_container}
use cashu_operator.Generators.Pod.OrchardCovering.{
  Covered-base_volumes, Covered-orchard, orchard_mint_rpc_mtls-enabled,
}
use cashu_operator.Generators.Pod.Covering.{Covered-sidecar, Covered-data, Covered-mint}
use cashu_operator.Generators.Deployment.Containers.{
  sidecar_container, ldk_container, mint_container,
}
use cashu_operator.Generators.Orchard.Volumes.{generate_orchard_volumes}
use cashu_operator.Generators.Deployment.Volumes.{generate_volumes, sidecar_of}
use cashu_operator.Generators.Orchard.Env.{orchard_mint_rpc_mtls}
use cashu_operator.Validation.Orchard.{validate_orchard}
use cashu_operator.Generators.Manifest.{Volume, Container, VolumeMount}
use cashu_operator.Generators.Deployment.{pod_containers, pod_volumes}
use cashu_operator.Api.{
  CashuMintSpec, OrchardConfig, CashuMint, management_rpc_tls_enabled, orchard_enabled,
}
use cashu_operator.Generators.Names.{for_each, enabled_orchard, enabled_ldk}
use cashu_operator.Common.{subst, List, Option, [], ◌++◌, ◌≡◌, some, none, true, ◌∷◌, refl, arith}
-- Each mount of each container has a volume of its name.
use cashu_operator.Generators.Pod.Mounts.{IsCovered, Covered-left}

-- Each mount of each container has a volume of its name.
pub data AllCovered (volumes : List Volume) : List Container → Type 0 where
  all_done : AllCovered volumes []
  and_covered :
      {c : Container} {l : List Container}
      → IsCovered c.volume_mounts volumes
      → AllCovered volumes l
      → AllCovered volumes (c ∷ l)

AllCovered-append :
    {v : List Volume} {a b : List Container}
    → AllCovered v a
    → AllCovered v b
    → AllCovered v (a ++ b)
AllCovered-append all_done q = q
AllCovered-append (and_covered p r) q = and_covered p (AllCovered-append r q)

-- A container for each pointer that is not nil.
AllCovered-for_each {ℓ} :
    {A : Type ℓ} {v : List Volume} (o : Option A) (f : A → Container)
    → ((a : A) → o ≡ some a → IsCovered (f a).volume_mounts v)
    → AllCovered v (for_each o (λ a. f a ∷ []))
unfolding for_each
AllCovered-for_each none f h = all_done
AllCovered-for_each (some a) f h = and_covered (h a refl) all_done

enabled_orchard-some :
    (c : Option OrchardConfig) (o : OrchardConfig)
    → enabled_orchard c ≡ some o
    → (c ≡ some o) × (o.enabled ≡ true)
enabled_orchard-some none o e = cc
enabled_orchard-some (some c) o e = ground arith

tls_of-valid :
    (s : CashuMintSpec) (o : OrchardConfig)
    → validate_orchard s.database s.management_rpc s.orchard ≡ none
    → enabled_orchard s.orchard ≡ some o
    → orchard_mint_rpc_mtls s o ≡ true
    → management_rpc_tls_enabled s ≡ true
tls_of-valid s o h e =
    let (p, q) = enabled_orchard-some s.orchard o e in
    let v =
      (validate_orchard_iff s.database s.management_rpc (some o)).0
        (subst (λ c. validate_orchard s.database s.management_rpc c ≡ none) p h) q in
    let r : orchard_enabled s.orchard ≡ true = rw p q in
    orchard_mint_rpc_mtls-enabled s o r v.1.1.1.0

-- Where validation finds no problem of the Orchard companion, every volume that a container of the
-- mint's pod mounts, those of the sidecars and of the companion included, is a volume of the pod.
pub pod_containers-AllCovered :
    (m : CashuMint)
    → validate_orchard m.spec.database m.spec.management_rpc m.spec.orchard ≡ none
    → AllCovered (pod_volumes m) (pod_containers m)
unfolding pod_containers pod_volumes sidecar_container mint_container ldk_container
    orchard_container
pod_containers-AllCovered m h =
    let own : (a : List VolumeMount)
        → IsCovered a (generate_volumes m)
        → IsCovered a (pod_volumes m) =
      λ a p. Covered-left (generate_orchard_volumes m) p in
    AllCovered-append
      (AllCovered-for_each (sidecar_of m.spec.payment_backend) (λ s. sidecar_container s.0 s.1)
        (λ s e. own _ (Covered-sidecar m s e)))
      (AllCovered-append
        (AllCovered-for_each (enabled_ldk m.spec.ldk_node) ldk_container
          (λ l e. own _ (Covered-base_volumes m _ (Covered-data m _ refl))))
        (and_covered {c = mint_container m} (own _ (Covered-mint m)) (
          AllCovered-for_each (enabled_orchard m.spec.orchard) (orchard_container m)
            (λ o e. Covered-orchard m o e (tls_of-valid m.spec o h e)))))
