-- ===== src/Tests/Manifests.antt =====
-- The manifests of a mint with an Orchard companion and metrics, and one instance of each
-- result about the generators that has conditions. The code is in internal/controller/generators.
use cashu_operator.Generators.Pod.Metrics.{IsMetricsPort, generate_pod_monitor-IsMetricsPort}
use cashu_operator.Generators.ConfigMap.ReadBack.{open_port, read_int-mint_container}
use cashu_operator.Generators.Pod.Selectors.{
  Selected, matches, generate_deployment-Selected, generate_postgres_stateful_set-Selected,
  generate_postgres_backup_cron_job-Selected,
}
use cashu_operator.Generators.Deployment.Containers.{mint_container}
use cashu_operator.Common.Reading.{read_int}
use cashu_operator.Tests.WideMint.{zeros, wide_mint, machinery, Below-zeros, no_error, encoding}
use cashu_operator.Defaulting.{default_spec}
use cashu_operator.Generators.Defaults.{endpoints, endpoints-default_spec}
use cashu_operator.Validation.Sections.{validate_ingress_config}
use cashu_operator.Validation.Report.{report, validate_secret_key_selector}
use cashu_operator.Generators.Certificate.{generate_certificate, generate_orchard_certificate}
use cashu_operator.Generators.Postgres.StatefulSet.{
  stateful_set_manifest, generate_postgres_stateful_set,
}
use cashu_operator.Generators.Postgres.{postgres_secret_manifest, postgres_labels}
use cashu_operator.Generators.ConfigMap.Toml.{quoted}
use cashu_operator.Generators.Mnemonic.WordLaws.{word_index-bip39_word}
use cashu_operator.Generators.Ingress.{generate_ingress, generate_orchard_ingress}
use cashu_operator.Generators.Deployment.{
  pod_volumes, pod_containers, deployment_manifest, generate_deployment,
}
use cashu_operator.Generators.Deployment.Env.{generate_environment_variables}
use cashu_operator.Common.Int.{pos, or_port}
use cashu_operator.Generators.Backup.{
  generate_postgres_backup_cron_job, job_template, cron_job_manifest, backup_labels,
}
use cashu_operator.Generators.Pod.PortNames.{Reached, IsServed}
use cashu_operator.Generators.Pod.Ports.{
  generate_service-Reached, generate_orchard_service-Reached, generate_pod_monitor-IsServed,
}
use cashu_operator.Generators.Names.{mint_selector_labels, orchard_labels, orchard_port}
use cashu_operator.Generators.Pod.AllMounts.{AllCovered, pod_containers-AllCovered}
use cashu_operator.Generators.Pod.Environment.{
  env_names, generate_environment_variables-all_distinct,
}
use cashu_operator.Generators.ConfigMap.{config_tables}
use cashu_operator.Controller.Env.{ok}
use cashu_operator.Generators.Mnemonic.RoundTrip.{decode_words, decode_words-phrase_words}
use cashu_operator.Generators.Presence.{is_made, needs_reconciliation-is_made}
use cashu_operator.Controller.Resources.{
  needs_ingress_reconciliation, needs_certificate_reconciliation,
}
use cashu_operator.Generators.Contract.{MakesTheSecrets, make_generators-MakesTheSecrets}
use cashu_operator.Generators.Service.{
  generate_service, generate_orchard_service, generate_pod_monitor, service_ports,
}
use cashu_operator.Validation.Orchard.{
  validate_orchard, orchard_mint_problems, orchard_bitcoin_problems, orchard_lightning_problems,
  orchard_taproot_assets_problems, orchard_ai_problems,
}
use cashu_operator.Generators.ConfigMap.Distinct.{all_distinct}
use cashu_operator.Generators.ConfigMap.Entries.{
  config_value, config_tables-postgres_secret_manifest, Agree,
  generate_environment_variables-config_tables, env_value, plain_text,
}
use cashu_operator.Generators.Mnemonic.Words.{
  length, word_index, bip39_word, get_elem?, bip39_word_list, split_words,
}
use cashu_operator.Generators.Mnemonic.{
  generate_bip39_mnemonic, phrase_words, set_bytes, word_indices,
}
use cashu_operator.Generators.Interface.{make_generators}
use cashu_operator.Common.{
  true, some, none, ◌≡◌, [], through, ◌*◌, ◌||◌, arith, ◌∷◌, ◌+◌, lookup, false, refl, join,
}
use cashu_operator.Generators.Manifest.{ServiceManifest, PodMonitorManifest, by_name}
use cashu_operator.Api.{
  PostgresConfig, PostgresAutoProvisionSpec, S3BackupConfig, BackupConfig, CashuMint,
}
use cashu_operator.Tests.{small_spec}

-- The phrase of no entropy, whose last word has the checksum of 32 zero bytes.
phrase_of_zeros :
    generate_bip39_mnemonic (λ n. ok (zeros n)) (λ bytes. 102)
    ≡ ok
        "abandon abandon abandon abandon abandon abandon abandon abandon abandon abandon abandon abandon abandon abandon abandon abandon abandon abandon abandon abandon abandon abandon abandon art"
unfolding zeros join generate_bip39_mnemonic phrase_words set_bytes word_indices bip39_word
    get_elem? bip39_word_list split_words
phrase_of_zeros = refl

decode_words-phrase_words_example :
    (length (phrase_words (λ bytes. 102) (zeros 32)) ≡ 24)
    × (decode_words 0 (phrase_words (λ bytes. 102) (zeros 32))
        ≡ some (set_bytes 0 (zeros 32) * 256 + 102))
unfolding zeros length
decode_words-phrase_words_example =
    decode_words-phrase_words (λ bytes. 102) (zeros 32) refl (Below-zeros 32) (omega arith)

abbrev provisioned_settings : PostgresConfig
provisioned_settings = record {
  url = "";
  url_secret_ref = none;
  tls_mode = "";
  max_connections = none;
  connection_timeout_seconds = none;
  auto_provision = true;
  auto_provision_spec = none;
}

abbrev default_provision : PostgresAutoProvisionSpec
default_provision = record {
  storage_size = "10Gi";
  storage_class_name = none;
  resources = none;
  version = "15";
}

config_tables-postgres_secret_manifest_example :
    config_value (config_tables wide_mint "pass") "database.postgres" "url"
    ≡ through
        (λ s. quoted s)
        (lookup "database-url" (postgres_secret_manifest wide_mint "pass").string_data)
config_tables-postgres_secret_manifest_example =
    config_tables-postgres_secret_manifest wide_mint "pass" provisioned_settings refl refl

generate_environment_variables-config_tables_example :
    Agree wide_mint "pass" "CDK_MINTD_URL" "info" "url"
    × Agree wide_mint "pass" "CDK_MINTD_LISTEN_HOST" "info" "listen_host"
    × Agree wide_mint "pass" "CDK_MINTD_LISTEN_PORT" "info" "listen_port"
    × Agree wide_mint "pass" "CDK_MINTD_DATABASE" "database" "engine"
    × Agree wide_mint "pass" "CDK_MINTD_LN_BACKEND" "ln" "ln_backend"
generate_environment_variables-config_tables_example =
    generate_environment_variables-config_tables wide_mint "pass"

generate_environment_variables-all_distinct_example :
    all_distinct (env_names (generate_environment_variables wide_mint)) ≡ true
generate_environment_variables-all_distinct_example =
    generate_environment_variables-all_distinct wide_mint

pod_containers-AllCovered_example : AllCovered (pod_volumes wide_mint) (pod_containers wide_mint)
unfolding validate_orchard report validate_secret_key_selector validate_ingress_config
    orchard_mint_problems orchard_bitcoin_problems orchard_lightning_problems
    orchard_taproot_assets_problems orchard_ai_problems
pod_containers-AllCovered_example = pod_containers-AllCovered wide_mint refl

abbrev wide_service : ServiceManifest
wide_service = record {
  meta = record {
    name = "mint";
    namespace = "cashu";
    labels = mint_selector_labels wide_mint;
    annotations = some [];
    owner = some "mint";
  };
  type = "ClusterIP";
  selector = mint_selector_labels wide_mint;
  ports = service_ports wide_mint.spec;
  cluster_ip = "";
  load_balancer_ip = "";
}

generate_service-Reached_example : Reached (pod_containers wide_mint) wide_service.ports
unfolding generate_service
generate_service-Reached_example = generate_service-Reached no_error wide_mint wide_service refl

abbrev companion_service : ServiceManifest
companion_service = record {
  meta = record {
    name = "mint-orchard";
    namespace = "cashu";
    labels = orchard_labels wide_mint;
    annotations = some [];
    owner = some "mint";
  };
  type = "ClusterIP";
  selector = mint_selector_labels wide_mint;
  ports = record { name = "orchard"; port = pos 3321; target = some (by_name "orchard") } ∷ [];
  cluster_ip = "";
  load_balancer_ip = "";
}

generate_orchard_service-Reached_example :
    Reached (pod_containers wide_mint) companion_service.ports
unfolding generate_orchard_service orchard_port or_port
generate_orchard_service-Reached_example =
    generate_orchard_service-Reached no_error wide_mint companion_service refl

abbrev wide_monitor : PodMonitorManifest
wide_monitor = record {
  meta = record {
    name = "mint";
    namespace = "cashu";
    labels = mint_selector_labels wide_mint;
    annotations = none;
    owner = some "mint";
  };
  selector = mint_selector_labels wide_mint;
  port = "metrics";
  path = "/metrics";
}

generate_pod_monitor-IsServed_example : IsServed wide_monitor.port (pod_containers wide_mint)
unfolding generate_pod_monitor
generate_pod_monitor-IsServed_example =
    generate_pod_monitor-IsServed no_error wide_mint wide_monitor refl

make_generators-MakesTheSecrets_example : MakesTheSecrets (make_generators machinery encoding)
make_generators-MakesTheSecrets_example = make_generators-MakesTheSecrets machinery encoding

needs_reconciliation-is_made_example :
    (needs_ingress_reconciliation wide_mint.spec ≡ (
      is_made (generate_ingress no_error wide_mint)
      || is_made (generate_orchard_ingress no_error wide_mint)))
    × (needs_certificate_reconciliation wide_mint.spec ≡ (
        is_made (generate_certificate no_error wide_mint)
        || is_made (generate_orchard_certificate no_error wide_mint)))
needs_reconciliation-is_made_example = needs_reconciliation-is_made no_error wide_mint (λ k. refl)

generate_deployment-Selected_example :
    Selected no_error wide_mint (mint_selector_labels wide_mint) true false
    × (matches (mint_selector_labels wide_mint) (mint_selector_labels wide_mint) ≡ true)
unfolding generate_deployment deployment_manifest
generate_deployment-Selected_example =
    generate_deployment-Selected no_error wide_mint "hash" (deployment_manifest wide_mint "hash")
      refl

generate_postgres_stateful_set-Selected_example :
    Selected no_error wide_mint (postgres_labels wide_mint) false true
    × (matches (postgres_labels wide_mint) (postgres_labels wide_mint) ≡ true)
unfolding generate_postgres_stateful_set stateful_set_manifest
generate_postgres_stateful_set-Selected_example =
    generate_postgres_stateful_set-Selected no_error wide_mint
      (stateful_set_manifest wide_mint default_provision) refl

abbrev wide_s3 : S3BackupConfig
wide_s3 = record {
  bucket = "backups";
  prefix = "";
  region = "";
  endpoint = "";
  access_key_id_secret_ref = record { name = "s3"; key = "id" };
  secret_access_key_secret_ref = record { name = "s3"; key = "secret" };
}

abbrev wide_backup : BackupConfig
wide_backup = record {
  enabled = true;
  schedule = "@daily";
  retention_count = none;
  s3 = some wide_s3;
}

abbrev backed_up_mint : CashuMint
backed_up_mint = record wide_mint { spec = record wide_mint.spec { backup = some wide_backup } }

generate_postgres_backup_cron_job-Selected_example :
    Selected no_error backed_up_mint (backup_labels backed_up_mint) true false
unfolding generate_postgres_backup_cron_job cron_job_manifest job_template
generate_postgres_backup_cron_job-Selected_example =
    generate_postgres_backup_cron_job-Selected no_error backed_up_mint
      (cron_job_manifest backed_up_mint wide_backup wide_s3 provisioned_settings) refl

word_index-bip39_word_example : word_index (bip39_word 2047) ≡ some 2047
word_index-bip39_word_example = word_index-bip39_word 2047 (omega arith)

endpoints-default_spec_example : endpoints (default_spec "mint" small_spec) ≡ endpoints small_spec
endpoints-default_spec_example = endpoints-default_spec "mint" small_spec refl

read_int-mint_container_example :
    (through read_int (env_value "CDK_MINTD_LISTEN_PORT" (mint_container wide_mint).env)
      ≡ open_port "api" (mint_container wide_mint).ports)
    × (through read_int (
          through plain_text (config_value (config_tables wide_mint "secret") "info" "listen_port"))
        ≡ open_port "api" (mint_container wide_mint).ports)
read_int-mint_container_example = read_int-mint_container wide_mint "secret"

generate_pod_monitor-IsMetricsPort_example : IsMetricsPort wide_mint "pass" wide_monitor.port
unfolding generate_pod_monitor
generate_pod_monitor-IsMetricsPort_example =
    generate_pod_monitor-IsMetricsPort no_error wide_mint "pass" wide_monitor refl
