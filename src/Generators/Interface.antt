-- ===== src/Generators/Interface.antt =====
-- The generators that the reconciler works with, made of those of internal/controller/generators.
use cashu_operator.Generators.Certificate.{generate_certificate, generate_orchard_certificate}
use cashu_operator.Generators.Ingress.{generate_ingress, generate_orchard_ingress}
use cashu_operator.Generators.Service.{
  generate_service, generate_orchard_service, generate_pod_monitor,
}
use cashu_operator.Generators.Deployment.{generate_deployment}
use cashu_operator.Generators.Storage.{generate_pvc, generate_orchard_pvc}
use cashu_operator.Generators.ConfigMap.{generate_config_map}
use cashu_operator.Generators.ManagementRpc.{generate_management_rpc_tls_secret}
use cashu_operator.Generators.Backup.{
  generate_postgres_restore_job, generate_postgres_backup_cron_job,
}
use cashu_operator.Generators.Postgres.StatefulSet.{generate_postgres_stateful_set}
use cashu_operator.Generators.Postgres.{generate_postgres_secret, generate_postgres_service}
use cashu_operator.Generators.Mnemonic.{generate_mnemonic_secret}
use cashu_operator.Common.{String, Option, through}
use cashu_operator.Generators.Machinery.{Machinery}
use cashu_operator.Controller.Env.{
  Kind, Result, Object, Generators, ok, secret, err, service, pvc, ingress, certificate,
  stateful_set, cron_job, job, config_map, deployment, pod_monitor,
}
use cashu_operator.Generators.Manifest.{
  SecretManifest, Meta, ConfigMapManifest, ServiceManifest, StatefulSetManifest, CronJobManifest,
  PvcManifest, JobManifest, DeploymentManifest, IngressManifest, PodMonitorManifest,
  CertificateManifest,
}

-- How the client of the API server writes a manifest down.
pub record Encoding : Type 0 where
  pub secret_body : SecretManifest → String
  pub config_map_body : ConfigMapManifest → String
  pub service_body : ServiceManifest → String
  pub stateful_set_body : StatefulSetManifest → String
  pub cron_job_body : CronJobManifest → String
  pub job_body : JobManifest → String
  pub pvc_body : PvcManifest → String
  pub deployment_body : DeploymentManifest → String
  pub pod_monitor_body : PodMonitorManifest → String
  pub ingress_body : IngressManifest → String
  pub certificate_body : CertificateManifest → String

abbrev pub object_of {ℓ} : {A : Type ℓ} → Kind → (A → Meta) → (A → String) → A → Object
object_of kind meta body a = record {
  kind = kind;
  namespace = (meta a).namespace;
  name = (meta a).name;
  body = body a;
}

unfoldable pub map_result {ℓ κ} : {A : Type ℓ} {B : Type κ} → (A → B) → Result A → Result B
map_result f (ok a) = ok (f a)
map_result f (err e) = err e

abbrev map_optional {ℓ κ} :
    {A : Type ℓ} {B : Type κ} → (A → B) → Result (Option A) → Result (Option B)
map_optional f r = map_result (through f) r

abbrev pub secret_object : Encoding → SecretManifest → Object
secret_object c = object_of secret (λ s. s.meta) c.secret_body

unfoldable pub make_generators : Machinery → Encoding → Generators
make_generators e c =
    let owner = e.owner_error in
    let services : ServiceManifest → Object = object_of service (λ s. s.meta) c.service_body in
    let pvcs : PvcManifest → Object = object_of pvc (λ p. p.meta) c.pvc_body in
    let ingresses : IngressManifest → Object = object_of ingress (λ i. i.meta) c.ingress_body in
    let certificates : CertificateManifest → Object =
      object_of certificate (λ s. s.meta) c.certificate_body in
    record {
      mnemonic_secret = λ m. map_result (secret_object c) (generate_mnemonic_secret e m "");
      postgres_secret = λ m.
          map_optional (secret_object c)
            (generate_postgres_secret e.random_bytes e.base64_url m "");
      postgres_service = λ m. map_optional services (generate_postgres_service owner m);
      postgres_stateful_set = λ m.
          map_optional (object_of stateful_set (λ s. s.meta) c.stateful_set_body)
            (generate_postgres_stateful_set owner m);
      postgres_backup_cron_job = λ m.
          map_optional (object_of cron_job (λ j. j.meta) c.cron_job_body)
            (generate_postgres_backup_cron_job owner m);
      postgres_restore_job = λ m.
          map_optional (object_of job (λ j. j.meta) c.job_body)
            (generate_postgres_restore_job e.trim_space e.sha256_hex owner m);
      management_rpc_tls_secret =
          λ m. map_optional (secret_object c) (generate_management_rpc_tls_secret owner e.crypto m);
      config_map_object = λ m password.
          map_result (object_of config_map (λ s. s.meta) c.config_map_body)
            (generate_config_map e m password);
      pvc_object = λ m. map_optional pvcs (generate_pvc owner m);
      orchard_pvc = λ m. map_optional pvcs (generate_orchard_pvc owner m);
      deployment_object = λ m hash.
          map_result (object_of deployment (λ d. d.meta) c.deployment_body)
            (generate_deployment owner m hash);
      service_object = λ m. map_result services (generate_service owner m);
      orchard_service = λ m. map_optional services (generate_orchard_service owner m);
      pod_monitor_object = λ m.
          map_optional (object_of pod_monitor (λ p. p.meta) c.pod_monitor_body)
            (generate_pod_monitor owner m);
      ingress_object = λ m. map_optional ingresses (generate_ingress owner m);
      orchard_ingress = λ m. map_optional ingresses (generate_orchard_ingress owner m);
      certificate_object = λ m. map_optional certificates (generate_certificate owner m);
      orchard_certificate = λ m. map_optional certificates (generate_orchard_certificate owner m);
    }
