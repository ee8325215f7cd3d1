-- ===== src/Generators/Postgres.antt =====
-- internal/controller/generators/postgres.go
pub mod StatefulSet
use cashu_operator.Common.Int.{pos}
use cashu_operator.Controller.Secrets.{postgres_secret_name}
use cashu_operator.Generators.Names.{component_labels}
use cashu_operator.Controller.Env.{Result, ok, err, service, wrapped}
use cashu_operator.Generators.Manifest.{
  OwnerError, Labels, SecretManifest, ServiceManifest, owned_some,
}
use cashu_operator.Api.{CashuMint, ResourceRequirements, PostgresConfig, EnvVar, SecretKeySelector}
use cashu_operator.Common.{
  String, Option, ℕ, ◌<>◌, none, List, some, ◌∷◌, [], if◌then◌else◌, slice, ◌==◌,
}

abbrev pub postgres_user : String
postgres_user = "cdk"

abbrev pub postgres_database : String
postgres_database = "cdk_mintd"

abbrev pub pg_data : String
pg_data = "/var/lib/postgresql/data/pgdata"

abbrev pub postgres_labels : CashuMint → Labels
postgres_labels = component_labels "postgresql" "database"

abbrev pub postgres_name : CashuMint → String
postgres_name m = m.metadata.name <> "-postgres"

-- The settings of a database that the operator provisions.
abbrev pub provisioned : Option PostgresConfig → Option PostgresConfig
provisioned none = none
provisioned (some p) = if p.auto_provision then some p else none

-- The URL with a password, in `GeneratePostgresSecret`
unfoldable pub database_url : CashuMint → String → String
database_url m password =
    "postgresql://"
    <> (postgres_user
        <> (":"
            <> (password
                <> ("@"
                    <> (m.metadata.name
                        <> ("-postgres:5432/" <> (postgres_database <> "?sslmode=disable")))))))

-- `generateSecurePassword`
unfoldable pub generate_secure_password :
    (ℕ → Result (List ℕ)) → (List ℕ → String) → ℕ → Result String
generate_secure_password random_bytes base64_url length = elim (random_bytes length) [
  | err e ↦ err e
  | ok bytes ↦ ok (slice (base64_url bytes) 0 length)
]

-- An existing password, or a new one of 32 characters.
unfoldable pub password_for : (ℕ → Result (List ℕ)) → (List ℕ → String) → String → Result String
password_for random_bytes base64_url existing =
    if existing == ""
    then elim (generate_secure_password random_bytes base64_url 32) [
      | err e ↦ err (wrapped "failed to generate password" e)
      | ok password ↦ ok password
    ]
    else ok existing

-- The secret has no owner, so that it outlives the resource.
unfoldable pub postgres_secret_manifest : CashuMint → String → SecretManifest
postgres_secret_manifest m password = record {
  meta = record {
    name = postgres_secret_name m.metadata.name;
    namespace = m.metadata.namespace;
    labels = postgres_labels m;
    annotations = none;
    owner = none;
  };
  string_data = ("password", password) ∷ (("database-url", database_url m password) ∷ []);
}

-- `GeneratePostgresSecret`
unfoldable pub generate_postgres_secret :
    (ℕ → Result (List ℕ)) → (List ℕ → String) → CashuMint → String → Result (Option SecretManifest)
generate_postgres_secret random_bytes base64_url m existing =
    elim (provisioned m.spec.database.postgres) [
      | none ↦ ok none
      | some p ↦ elim (password_for random_bytes base64_url existing) [
        | err e ↦ err e
        | ok password ↦ ok (some (postgres_secret_manifest m password))
      ]
    ]

-- `GeneratePostgresService`; the service is headless.
unfoldable pub generate_postgres_service : OwnerError → CashuMint → Result (Option ServiceManifest)
generate_postgres_service owner_error m = elim (provisioned m.spec.database.postgres) [
  | none ↦ ok none
  | some p ↦ owned_some owner_error service m (record {
    meta = record {
      name = postgres_name m;
      namespace = m.metadata.namespace;
      labels = postgres_labels m;
      annotations = none;
      owner = some m.metadata.name;
    };
    type = "ClusterIP";
    selector = postgres_labels m;
    ports = record { name = "postgres"; port = pos 5432; target = none } ∷ [];
    cluster_ip = "None";
    load_balancer_ip = "";
  })
]

abbrev pub plain_env : String → String → EnvVar
plain_env name value = record { name = name; value = value; value_from = none }

abbrev pub secret_env : String → Option SecretKeySelector → EnvVar
secret_env name ref = record {
  name = name;
  value = "";
  value_from = some (record { secret_key_ref = ref });
}

abbrev pub no_resources : ResourceRequirements
no_resources = record { limits = none; requests = none }
