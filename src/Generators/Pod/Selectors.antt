-- ===== src/Generators/Pod/Selectors.antt =====
-- Which pods the selectors that the generators write match (internal/controller/generators).
use cashu_operator.Generators.Pod.Ports.{owned-ok, made-owned}
use cashu_operator.Generators.Postgres.{postgres_labels, generate_postgres_service, provisioned}
use cashu_operator.Generators.Names.{
  mint_selector_labels, component_labels, enabled_orchard, enabled_prometheus,
}
use cashu_operator.Generators.Backup.{
  generate_postgres_backup_cron_job, cron_job_manifest, job_template, backup_parts, backup_labels,
}
use cashu_operator.Generators.Postgres.StatefulSet.{
  generate_postgres_stateful_set, stateful_set_manifest,
}
use cashu_operator.Generators.Deployment.{generate_deployment, deployment_manifest}
use cashu_operator.Generators.Service.{
  generate_service, generate_orchard_service, generate_pod_monitor,
}
use cashu_operator.Controller.Env.{
  Result, Kind, ok, err, service, deployment, stateful_set, cron_job, pod_monitor,
}
use cashu_operator.Common.{
  [], ◌∷◌, ◌==◌, ◌&&◌, Bool, true, Option, lookup, ◌≡◌, some, Option-cases, eq_refl, String, inl,
  inr, subst, refl, false, none,
}
use cashu_operator.Api.{CashuMint}
use cashu_operator.Generators.Manifest.{
  Labels, OwnerError, owned, owned_some, StatefulSetManifest, DeploymentManifest, CronJobManifest,
}

-- A selector matches where each of its labels is one of the pod.
unfoldable pub matches : Labels → Labels → Bool
matches [] labels = true
matches ((k, v) ∷ selector) labels = elim (lookup k labels) [
  | none ↦ false
  | some w ↦ (w == v) && matches selector labels
]

-- What holds of a manifest, where the generator returns one.
abbrev pub OfOk {ℓ} : {A : Type ℓ} → Result A → (A → Type 0) → Type 0
OfOk (ok a) P = P a
OfOk (err e) P = Unit

abbrev pub OfMade {ℓ} : {A : Type ℓ} → Result (Option A) → (A → Type 0) → Type 0
OfMade (ok (some a)) P = P a
OfMade (ok none) P = Unit
OfMade (err e) P = Unit

OfOk-owned {ℓ} :
    {A : Type ℓ} (P : A → Type 0) (owner_error : OwnerError) (k : Kind) (m : CashuMint) (a : A)
    → P a
    → OfOk (owned owner_error k m a) P
OfOk-owned P owner_error k m a p = elim (Option-cases (owner_error m k)) [
  | inl e ↦ rw (e, OfOk) p
  | inr (x, e) ↦ rw (e, OfOk) tt
]

OfMade-owned_some {ℓ κ} :
    {A : Type ℓ} {B : Type κ} (P : B → Type 0) (owner_error : OwnerError) (k : Kind) (m : CashuMint)
    (o : Option A) (f : A → B)
    → ((a : A) → P (f a))
    → OfMade (elim o [ none ↦ ok none | some a ↦ owned_some owner_error k m (f a) ]) P
OfMade-owned_some P owner_error k m none f p = tt
OfMade-owned_some P owner_error k m (some a) f p = elim (Option-cases (owner_error m k)) [
  | inl e ↦ rw (e, OfMade) (p a)
  | inr (x, e) ↦ rw (e, OfMade) tt
]

module _ (owner_error : OwnerError) (m : CashuMint) where
  -- The selector that each service and the monitor of a mint are generated with, for the pods with
  -- some labels: the mint's and Orchard's services and the monitor match as the first test says, and
  -- the service of the database as the second.
  pub record Selected (labels : Labels) (by_mint by_database : Bool) : Type 0 where
    pub mint_service :
        OfOk (generate_service owner_error m) (λ s. matches s.selector labels ≡ by_mint)
    pub orchard_service :
        OfMade (generate_orchard_service owner_error m) (λ s. matches s.selector labels ≡ by_mint)
    pub monitor :
        OfMade (generate_pod_monitor owner_error m) (λ p. matches p.selector labels ≡ by_mint)
    pub database_service :
        OfMade
          (generate_postgres_service owner_error m)
          (λ s. matches s.selector labels ≡ by_database)

  Selected-labels :
      (labels : Labels) (by_mint by_database : Bool)
      → matches (mint_selector_labels m) labels ≡ by_mint
      → matches (postgres_labels m) labels ≡ by_database
      → Selected labels by_mint by_database
  unfolding generate_service generate_orchard_service generate_pod_monitor generate_postgres_service
  Selected-labels labels a b h k = record {
    mint_service = OfOk-owned _ owner_error service m _ h;
    orchard_service =
        OfMade-owned_some _ owner_error service m (enabled_orchard m.spec.orchard) _ (λ o. h);
    monitor =
        OfMade-owned_some _ owner_error pod_monitor m (enabled_prometheus m.spec.prometheus) _
          (λ p. h);
    database_service =
        OfMade-owned_some _ owner_error service m (provisioned m.spec.database.postgres) _ (λ p. k);
  }

  matches_mint : matches (mint_selector_labels m) (mint_selector_labels m) ≡ true
  unfolding matches lookup mint_selector_labels
  matches_mint = let e = eq_refl m.metadata.name in simp (e)

  matches_database : matches (postgres_labels m) (postgres_labels m) ≡ true
  unfolding matches lookup component_labels
  matches_database = let e = eq_refl m.metadata.name in simp (e)

  -- The services of a mint and of its Orchard companion and the monitor, where they are generated,
  -- select the pods of the generated deployment, and the service of the database does not; the
  -- deployment selects its own pods.
  pub generate_deployment-Selected :
      (hash : String) (d : DeploymentManifest)
      → generate_deployment owner_error m hash ≡ ok d
      → Selected d.template.labels true false × (matches d.selector d.template.labels ≡ true)
  unfolding generate_deployment deployment_manifest matches lookup mint_selector_labels
      component_labels
  generate_deployment-Selected hash d h =
      let e : deployment_manifest m hash ≡ d = owned-ok owner_error deployment m _ d h in
      subst
        (λ d. Selected d.template.labels true false × (matches d.selector d.template.labels ≡ true))
        e (Selected-labels (mint_selector_labels m) true false matches_mint refl, matches_mint)

  -- The service of the database, where it is generated, selects the pods of the generated database,
  -- and the services of the mint and of its Orchard companion and the monitor do not; the stateful
  -- set selects its own pods.
  pub generate_postgres_stateful_set-Selected :
      (s : StatefulSetManifest)
      → generate_postgres_stateful_set owner_error m ≡ ok (some s)
      → Selected s.template.labels false true × (matches s.selector s.template.labels ≡ true)
  unfolding generate_postgres_stateful_set stateful_set_manifest matches lookup mint_selector_labels
      component_labels
  generate_postgres_stateful_set-Selected s h =
      let (p, e, q) =
        made-owned owner_error stateful_set m (provisioned m.spec.database.postgres) _ s h in
      subst
        (λ s. Selected s.template.labels false true × (matches s.selector s.template.labels ≡ true))
        q (Selected-labels (postgres_labels m) false true refl matches_database, matches_database)

  -- The services of the mint and of its Orchard companion and the monitor, where they are generated,
  -- select the pods of the generated backups as well, and the service of the database does not.
  pub generate_postgres_backup_cron_job-Selected :
      (c : CronJobManifest)
      → generate_postgres_backup_cron_job owner_error m ≡ ok (some c)
      → Selected c.template.labels true false
  unfolding generate_postgres_backup_cron_job cron_job_manifest job_template matches lookup
      mint_selector_labels component_labels
  generate_postgres_backup_cron_job-Selected c h =
      let (p, e, q) =
        made-owned owner_error cron_job m (backup_parts m.spec.database m.spec.backup) _ c h in
      let n = eq_refl m.metadata.name in
      subst (λ c. Selected c.template.labels true false) q
        (Selected-labels (backup_labels m) true false (simp (n)) refl)
