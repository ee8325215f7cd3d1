-- ===== src/Tests.antt =====
-- A mint, a cluster and the runs of the program on them, and one instance of each result that has
-- conditions. The code is in api/v1alpha1 and internal/controller.
mod WideMint
mod Manifests
mod ConfigText
mod Operator
mod Webhook
mod Status
mod Passes
use cashu_operator.Controller.Secrets.{cashu_mint_finalizer}
use cashu_operator.Common.Int.{pos}
use cashu_operator.Common.{String, ◌∷◌, none, some, true, false, [], ◌==◌}
use cashu_operator.Controller.Monad.{World, get_mint, get_secret}
use cashu_operator.Controller.Env.{
  Deployment, StatefulSet, Error, Server, Library, Kind, Generators, Env, api, ok, Object,
  not_found, err, secret, config_map, deployment, service,
}
use cashu_operator.Api.{
  FakeWalletConfig, PaymentBackendConfig, MintInfo, PostgresConfig, DatabaseConfig, IngressConfig,
  BackupConfig, CashuMintSpec, ObjectMeta, CashuMintStatus, CashuMint, pending,
}

abbrev sat_wallet : FakeWalletConfig
sat_wallet = record {
  supported_units = "sat" ∷ [];
  fee_percent = none;
  reserve_fee_min = none;
  min_delay_time = none;
  max_delay_time = none;
}

abbrev one_backend : PaymentBackendConfig
one_backend = record {
  min_mint = none;
  max_mint = none;
  min_melt = none;
  max_melt = none;
  lnd = none;
  cln = none;
  lnbits = none;
  fake_wallet = some sat_wallet;
  grpc_processor = none;
}

abbrev plain_info : MintInfo
plain_info = record {
  url = "https://mint.example";
  listen_host = "";
  listen_port = pos 0;
  mnemonic_secret_ref = none;
  auto_generate_mnemonic = true;
  name = "";
  description = "";
  description_long = "";
  motd = "";
  pubkey_hex = "";
  icon_url = "";
  contact_email = "";
  contact_nostr_pubkey = "";
  tos_url = "";
  input_fee_ppk = none;
  enable_swagger_ui = false;
  use_keyset_v2 = none;
  quote_ttl = none;
}

abbrev provisioned_postgres : PostgresConfig
provisioned_postgres = record {
  url = "";
  url_secret_ref = none;
  tls_mode = "";
  max_connections = none;
  connection_timeout_seconds = none;
  auto_provision = true;
  auto_provision_spec = none;
}

abbrev provisioned_database : DatabaseConfig
provisioned_database = record {
  engine = "postgres";
  postgres = some provisioned_postgres;
  sqlite = none;
}

abbrev public_ingress : IngressConfig
public_ingress = record {
  enabled = true;
  class_name = "nginx";
  host = "mint.example";
  tls = none;
  annotations = none;
}

abbrev disabled_backup : BackupConfig
disabled_backup = record { enabled = false; schedule = ""; retention_count = none; s3 = none }

abbrev small_spec : CashuMintSpec
small_spec = record {
  image = "";
  image_pull_policy = "";
  image_pull_secrets = [];
  replicas = none;
  mint_info = plain_info;
  database = provisioned_database;
  payment_backend = one_backend;
  ldk_node = none;
  auth = none;
  http_cache = none;
  management_rpc = none;
  orchard = none;
  prometheus = none;
  limits = none;
  ingress = some public_ingress;
  service = none;
  resources = none;
  node_selector = none;
  tolerations = [];
  affinity = none;
  pod_security_context = none;
  container_security_context = none;
  logging = none;
  storage = none;
  backup = some disabled_backup;
}

abbrev deleted_metadata : ObjectMeta
deleted_metadata = record {
  name = "mint";
  namespace = "cashu";
  generation = pos 2;
  is_deleted = true;
  finalizers = cashu_mint_finalizer ∷ [];
  annotations = none;
}

abbrev first_status : CashuMintStatus
first_status = record {
  phase = pending;
  conditions = [];
  observed_generation = pos 1;
  backend_type = "";
  deployment_name = "";
  service_name = "";
  ingress_name = "";
  config_map_name = "";
  url = "";
  ready_replicas = pos 0;
}

abbrev deleted_mint : CashuMint
deleted_mint = record { metadata = deleted_metadata; spec = small_spec; status = first_status }

abbrev ready_deployment : Deployment
ready_deployment = record {
  name = "mint";
  replicas = some (pos 1);
  ready_replicas = pos 1;
  updated_replicas = pos 1;
  available_replicas = pos 1;
}

abbrev old_stateful_set : StatefulSet
old_stateful_set = record {
  replicas = some (pos 1);
  ready_replicas = pos 1;
  current_replicas = pos 1;
  updated_replicas = pos 0;
}

abbrev absent : Error
absent = api not_found "not found"

-- A cluster that holds the deleted_mint, its secrets and its deployment.
abbrev small_server : Server
small_server = record {
  get_mint = λ t ns name. ok deleted_mint;
  get_secret = λ t ns name. ok (record { entries = ("password", "secret") ∷ [] });
  get_config_map = λ t ns name. err absent;
  get_deployment = λ t ns name. ok ready_deployment;
  get_service = λ t ns name. ok name;
  get_ingress = λ t ns name. err absent;
  write = λ t c. none;
  patched_stateful_set = λ t o. old_stateful_set;
}

abbrev small_library : Library
small_library = record {
  set_status_condition = λ l c. c ∷ l;
  contains_finalizer = λ l x. elim l [ [] ↦ false | y ∷ r ↦ y == x ];
  add_finalizer = λ l x. x ∷ l;
  remove_finalizer = λ l x. [];
  sha256_hex = λ s. s;
}

abbrev manifest : Kind → String → Object
manifest k body = record { kind = k; namespace = "cashu"; name = "mint"; body = body }

abbrev small_generators : Generators
small_generators = record {
  mnemonic_secret = λ m. ok (manifest secret "mnemonic");
  postgres_secret = λ m. ok (some (manifest secret "password"));
  postgres_service = λ m. ok none;
  postgres_stateful_set = λ m. ok none;
  postgres_backup_cron_job = λ m. ok none;
  postgres_restore_job = λ m. ok none;
  management_rpc_tls_secret = λ m. ok none;
  config_map_object = λ m password. ok (manifest config_map password);
  pvc_object = λ m. ok none;
  orchard_pvc = λ m. ok none;
  deployment_object = λ m hash. ok (manifest deployment hash);
  service_object = λ m. ok (manifest service "");
  orchard_service = λ m. ok none;
  pod_monitor_object = λ m. ok none;
  ingress_object = λ m. ok none;
  orchard_ingress = λ m. ok none;
  certificate_object = λ m. ok none;
  orchard_certificate = λ m. ok none;
}

abbrev cluster : Env
cluster = record { server = small_server; library = small_library; generators = small_generators }

abbrev start : World
start = record { trace = []; mint = deleted_mint; events = [] }
