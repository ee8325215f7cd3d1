-- ===== src/Generators/Success.antt =====
-- The generators of internal/controller/generators give no error where no owner is refused, as the
-- reconciler wants them in a healthy cluster (Controller/Healthy.antt).
use cashu_operator.Controller.Healthy.{MakesAll}
use cashu_operator.Controller.Works.{OfOk, Any}
use cashu_operator.Generators.Machinery.{Machinery}
use cashu_operator.Generators.Interface.{map_result, make_generators, Encoding}
use cashu_operator.Generators.ConfigMap.{generate_config_map}
use cashu_operator.Generators.Certificate.{generate_certificate, generate_orchard_certificate}
use cashu_operator.Generators.Ingress.{generate_ingress, generate_orchard_ingress}
use cashu_operator.Generators.Service.{
  generate_service, generate_orchard_service, generate_pod_monitor,
}
use cashu_operator.Generators.Deployment.{generate_deployment}
use cashu_operator.Generators.Storage.{generate_pvc, generate_orchard_pvc}
use cashu_operator.Generators.Backup.{
  generate_postgres_backup_cron_job, generate_postgres_restore_job,
}
use cashu_operator.Generators.Postgres.StatefulSet.{generate_postgres_stateful_set}
use cashu_operator.Generators.Postgres.{generate_postgres_service}
use cashu_operator.Generators.Presence.{IsOwning}
use cashu_operator.Api.{CashuMint}
use cashu_operator.Common.{Bool, true, ◌≡◌, String, false, arith}
use cashu_operator.Generators.Manifest.{OwnerError}
use cashu_operator.Controller.Env.{
  Result, ok, err, service, stateful_set, cron_job, job, pvc, deployment, pod_monitor, ingress,
  certificate, config_map,
}

-- The generator gave no error.
unfoldable pub is_ok {ℓ} : {A : Type ℓ} → Result A → Bool
is_ok (ok a) = true
is_ok (err e) = false

module _ (owner_error : OwnerError) (m : CashuMint) (h : IsOwning owner_error m) where
  postgres_service_ok : is_ok (generate_postgres_service owner_error m) ≡ true
  unfolding is_ok generate_postgres_service
  postgres_service_ok = ground (arith, h service)

  postgres_stateful_set_ok : is_ok (generate_postgres_stateful_set owner_error m) ≡ true
  unfolding is_ok generate_postgres_stateful_set
  postgres_stateful_set_ok = ground (arith, h stateful_set)

  cron_job_ok : is_ok (generate_postgres_backup_cron_job owner_error m) ≡ true
  unfolding is_ok generate_postgres_backup_cron_job
  cron_job_ok = ground (arith, h cron_job)

  restore_job_ok :
      (trim sha : String → String)
      → is_ok (generate_postgres_restore_job trim sha owner_error m) ≡ true
  unfolding is_ok generate_postgres_restore_job
  restore_job_ok trim sha = ground (arith, h job)

  pvc_ok : is_ok (generate_pvc owner_error m) ≡ true
  unfolding is_ok generate_pvc
  pvc_ok = ground (arith, h pvc)

  orchard_pvc_ok : is_ok (generate_orchard_pvc owner_error m) ≡ true
  unfolding is_ok generate_orchard_pvc
  orchard_pvc_ok = ground (arith, h pvc)

  deployment_ok : (hash : String) → is_ok (generate_deployment owner_error m hash) ≡ true
  unfolding is_ok generate_deployment
  deployment_ok hash = ground (arith, h deployment)

  service_ok : is_ok (generate_service owner_error m) ≡ true
  unfolding is_ok generate_service
  service_ok = ground (arith, h service)

  orchard_service_ok : is_ok (generate_orchard_service owner_error m) ≡ true
  unfolding is_ok generate_orchard_service
  orchard_service_ok = ground (arith, h service)

  pod_monitor_ok : is_ok (generate_pod_monitor owner_error m) ≡ true
  unfolding is_ok generate_pod_monitor
  pod_monitor_ok = ground (arith, h pod_monitor)

  ingress_ok : is_ok (generate_ingress owner_error m) ≡ true
  unfolding is_ok generate_ingress
  ingress_ok = ground (arith, h ingress)

  orchard_ingress_ok : is_ok (generate_orchard_ingress owner_error m) ≡ true
  unfolding is_ok generate_orchard_ingress
  orchard_ingress_ok = ground (arith, h ingress)

  certificate_ok : is_ok (generate_certificate owner_error m) ≡ true
  unfolding is_ok generate_certificate
  certificate_ok = ground (arith, h certificate)

  orchard_certificate_ok : is_ok (generate_orchard_certificate owner_error m) ≡ true
  unfolding is_ok generate_orchard_certificate
  orchard_certificate_ok = ground (arith, h certificate)

config_map_ok :
    (e : Machinery) (m : CashuMint)
    → IsOwning e.owner_error m
    → (password : String) → is_ok (generate_config_map e m password) ≡ true
unfolding is_ok generate_config_map
config_map_ok e m h password = ground (arith, h config_map)

ok_of : {A B : Type 0} (f : A → B) (r : Result A) → is_ok r ≡ true → OfOk Any (map_result f r)
unfolding is_ok map_result
ok_of f (ok a) h = tt
ok_of f (err e) h = absurd (ground arith)

-- Where no owner is refused, the generators of the program give no error, whatever the mint.
pub make_generators-MakesAll :
    (e : Machinery) (c : Encoding)
    → ((m : CashuMint) → IsOwning e.owner_error m)
    → MakesAll (make_generators e c)
unfolding make_generators
make_generators-MakesAll e c h = record {
  postgres_service = λ m. ok_of _ _ (postgres_service_ok _ m (h m));
  postgres_stateful_set = λ m. ok_of _ _ (postgres_stateful_set_ok _ m (h m));
  cron_job_made = λ m. ok_of _ _ (cron_job_ok _ m (h m));
  restore_job = λ m. ok_of _ _ (restore_job_ok _ m (h m) _ _);
  config_map_object = λ m p. ok_of _ _ (config_map_ok e m (h m) p);
  pvc_object = λ m. ok_of _ _ (pvc_ok _ m (h m));
  orchard_pvc = λ m. ok_of _ _ (orchard_pvc_ok _ m (h m));
  deployment_object = λ m t. ok_of _ _ (deployment_ok _ m (h m) t);
  service_object = λ m. ok_of _ _ (service_ok _ m (h m));
  orchard_service = λ m. ok_of _ _ (orchard_service_ok _ m (h m));
  pod_monitor_object = λ m. ok_of _ _ (pod_monitor_ok _ m (h m));
  ingress_object = λ m. ok_of _ _ (ingress_ok _ m (h m));
  orchard_ingress = λ m. ok_of _ _ (orchard_ingress_ok _ m (h m));
  certificate_object = λ m. ok_of _ _ (certificate_ok _ m (h m));
  orchard_certificate = λ m. ok_of _ _ (orchard_certificate_ok _ m (h m));
}
