-- ===== src/Generators/Postgres/StatefulSet.antt =====
-- The stateful set of the database (internal/controller/generators/postgres.go).
use cashu_operator.Common.Int.{pos}
use cashu_operator.Controller.Secrets.{postgres_secret_name}
use cashu_operator.Generators.Postgres.{
  secret_env, postgres_name, provisioned, plain_env, postgres_user, postgres_labels, pg_data,
  postgres_database, no_resources,
}
use cashu_operator.Controller.Env.{Result, ok, stateful_set}
use cashu_operator.Generators.Manifest.{
  VolumeMount, OwnerError, Container, Probe, PodSpec, StatefulSetManifest, exec, owned_some,
}
use cashu_operator.Api.{
  PostgresAutoProvisionSpec, CashuMint, default_storage_size, ResourceRequirements, EnvVar,
}
use cashu_operator.Common.{
  String, Option, ℕ, false, ◌<>◌, or_value, or_text, ◌∷◌, [], some, none, true,
}

-- `initPasswordScript`
abbrev init_password_script : String
init_password_script =
    "set -e\nif [ -f /var/lib/postgresql/data/pgdata/PG_VERSION ]; then\n  echo \"Database already initialized, ensuring password is correct...\"\n  chown -R 999:999 /var/lib/postgresql/data/pgdata\n  chmod 0700 /var/lib/postgresql/data/pgdata\n  su-exec 999:999 pg_ctl -D /var/lib/postgresql/data/pgdata -o \"-c listen_addresses='' -c local_preload_libraries=''\" -w start\n  su-exec 999:999 psql -U cdk -d cdk_mintd -c \"ALTER USER cdk WITH PASSWORD '${POSTGRES_PASSWORD}';\"\n  su-exec 999:999 pg_ctl -D /var/lib/postgresql/data/pgdata -w stop\n  echo \"Password updated successfully\"\nelse\n  echo \"Database not yet initialized, skipping password update\"\nfi"

-- `AutoProvisionSpec`, or what stands for nil.
abbrev provision_spec : Option PostgresAutoProvisionSpec → PostgresAutoProvisionSpec
provision_spec none = record {
  storage_size = default_storage_size;
  storage_class_name = none;
  resources = none;
  version = "15";
}
provision_spec (some s) = s

-- `getPostgresResources` on a pointer that is not nil
unfoldable pub get_postgres_resources : PostgresAutoProvisionSpec → ResourceRequirements
get_postgres_resources s = or_value s.resources (record {
  limits = some (("cpu", "1000m") ∷ (("memory", "1Gi") ∷ []));
  requests = some (("cpu", "100m") ∷ (("memory", "256Mi") ∷ []));
})

abbrev password_env : CashuMint → EnvVar
password_env m =
    secret_env "POSTGRES_PASSWORD"
      (some (record { name = postgres_secret_name m.metadata.name; key = "password" }))

abbrev data_mount : VolumeMount
data_mount = record {
  name = "data";
  mount_path = "/var/lib/postgresql/data";
  sub_path = "";
  read_only = false;
}

abbrev postgres_image : PostgresAutoProvisionSpec → String
postgres_image s = "postgres:" <> (or_text s.version "15" <> "-alpine")

abbrev init_container : CashuMint → PostgresAutoProvisionSpec → Container
init_container m s = record {
  name = "init-password";
  image = postgres_image s;
  image_pull_policy = "";
  command = "sh" ∷ ("-c" ∷ (init_password_script ∷ []));
  args = [];
  ports = [];
  env = password_env m ∷ (plain_env "PGDATA" pg_data ∷ []);
  volume_mounts = data_mount ∷ [];
  resources = no_resources;
  liveness_probe = none;
  readiness_probe = none;
  security_context = some (record {
    allow_privilege_escalation = some false;
    read_only_root_filesystem = none;
    run_as_non_root = some false;
    run_as_user = some (pos 0);
    drop = [];
  });
}

abbrev is_ready_probe : ℕ → ℕ → ℕ → Probe
is_ready_probe delay period timeout = record {
  handler = exec ("pg_isready" ∷ ("-U" ∷ (postgres_user ∷ ("-d" ∷ (postgres_database ∷ [])))));
  initial_delay = delay;
  period = period;
  timeout = timeout;
  success_threshold = 0;
  failure_threshold = 3;
}

abbrev postgres_container : CashuMint → PostgresAutoProvisionSpec → Container
postgres_container m s = record {
  name = "postgres";
  image = postgres_image s;
  image_pull_policy = "";
  command = [];
  args = [];
  ports = record { name = "postgres"; port = pos 5432 } ∷ [];
  env =
      plain_env "POSTGRES_DB" postgres_database
      ∷ (plain_env "POSTGRES_USER" postgres_user
          ∷ (password_env m ∷ (plain_env "PGDATA" pg_data ∷ [])));
  volume_mounts = data_mount ∷ [];
  resources = get_postgres_resources s;
  liveness_probe = some (is_ready_probe 30 10 5);
  readiness_probe = some (is_ready_probe 10 5 3);
  security_context = some (record {
    allow_privilege_escalation = some false;
    read_only_root_filesystem = none;
    run_as_non_root = some true;
    run_as_user = some (pos 999);
    drop = [];
  });
}

abbrev postgres_pod : CashuMint → PostgresAutoProvisionSpec → PodSpec
postgres_pod m s = record {
  init_containers = init_container m s ∷ [];
  containers = postgres_container m s ∷ [];
  volumes = [];
  image_pull_secrets = [];
  node_selector = none;
  tolerations = [];
  affinity = none;
  restart_policy = "";
  security_context =
      some (record { run_as_non_root = none; run_as_user = none; fs_group = some (pos 999) });
}

unfoldable pub stateful_set_manifest : CashuMint → PostgresAutoProvisionSpec → StatefulSetManifest
stateful_set_manifest m s = record {
  meta = record {
    name = postgres_name m;
    namespace = m.metadata.namespace;
    labels = postgres_labels m;
    annotations = none;
    owner = some m.metadata.name;
  };
  replicas = pos 1;
  service_name = postgres_name m;
  selector = postgres_labels m;
  template = record { labels = postgres_labels m; annotations = none; spec = postgres_pod m s };
  claims =
      record {
        name = "data";
        labels = postgres_labels m;
        storage = or_text s.storage_size default_storage_size;
        storage_class_name = s.storage_class_name;
      }
      ∷ [];
}

-- `GeneratePostgresStatefulSet`
unfoldable pub generate_postgres_stateful_set :
    OwnerError → CashuMint → Result (Option StatefulSetManifest)
generate_postgres_stateful_set owner_error m = elim (provisioned m.spec.database.postgres) [
  | none ↦ ok none
  | some p ↦
      owned_some owner_error stateful_set m
        (stateful_set_manifest m (provision_spec p.auto_provision_spec))
]
