-- ===== src/Generators/ConfigMap/Entries.antt =====
-- What config.toml says, against the other manifests of a mint
-- (internal/controller/generators/configmap.go, postgres.go and deployment.go).
use text.Mathlib.TextLemmas.{append_assoc}
use cashu_operator.Generators.ConfigMap.Payment.{payment_backend_tables, ln_table}
use cashu_operator.Generators.ConfigMap.WellFormed.{config_tables-names}
use cashu_operator.Generators.Postgres.{postgres_secret_manifest, database_url}
use cashu_operator.Common.Decimal.{int_text}
use cashu_operator.Generators.ConfigMap.Database.{
  postgres_in_use, database_tables, database_table, postgres_table, auth_postgres_table,
  postgres_url, provisioned_url, postgres_fields,
}
use cashu_operator.Generators.ConfigMap.Info.{
  info_tables, info_table, mint_info_table, quote_ttl_table, http_cache_table, logging_table,
}
use cashu_operator.Generators.ConfigMap.{config_tables}
use cashu_operator.Generators.Deployment.Env.{generate_environment_variables, mint_core_env_vars}
use cashu_operator.Generators.ConfigMap.Distinct.{
  slot_value, all_distinct, names, lookup-kept, is_member,
}
use cashu_operator.Api.{EnvVar, CashuMint, PostgresConfig}
use cashu_operator.Generators.ConfigMap.Toml.{
  Table, Value, kept, quoted, Field, raw, integer, flag, float,
}
use cashu_operator.Common.{
  List, String, Option, lookup, none, some, through, ◌∷◌, ◌≡◌, if◌then◌else◌, ◌==◌, true, [], ap,
  ◌∙◌, sym, refl, ◌<>◌,
}

-- What a document says of a key of a table.
unfoldable pub config_value : List Table → String → String → Option Value
config_value tables name key = elim (lookup name (kept tables)) [
  | none ↦ none
  | some fields ↦ lookup key (kept fields)
]

abbrev pub plain_text : Value → String
plain_text (quoted s) = s
plain_text (raw s) = s
plain_text (integer z) = int_text z
plain_text (flag b) = ""
plain_text (float x) = ""

-- The value of the first variable of a name.
unfoldable pub env_value : String → List EnvVar → Option String
env_value name [] = none
env_value name (v ∷ l) = if v.name == name then some v.value else env_value name l

pub config_value-slot :
    (m : CashuMint) (password name key : String)
    → (fields : List Field) → slot_value name (config_tables m password) ≡ some fields
    → all_distinct (names fields) ≡ true
    → config_value (config_tables m password) name key ≡ slot_value key fields
unfolding config_value
config_value-slot m password name key fields e d =
    rw
      (
        config_value,
        lookup-kept (config_tables m password) name (config_tables-names m password) ∙ e,
      )
      (lookup-kept fields key d)

-- The variable and the key of the file say the same, in the texts that the mint reads.
abbrev pub Agree : CashuMint → String → String → String → String → Type 0
Agree m password variable name key =
    env_value variable (generate_environment_variables m)
    ≡ through plain_text (config_value (config_tables m password) name key)

-- The variables that set the URL, the address, the port, the database engine and the backend of the
-- mint agree with the entries of config.toml, for every mint and password.
pub generate_environment_variables-config_tables :
    (m : CashuMint) (password : String)
    → Agree m password "CDK_MINTD_URL" "info" "url"
      × Agree m password "CDK_MINTD_LISTEN_HOST" "info" "listen_host"
      × Agree m password "CDK_MINTD_LISTEN_PORT" "info" "listen_port"
      × Agree m password "CDK_MINTD_DATABASE" "database" "engine"
      × Agree m password "CDK_MINTD_LN_BACKEND" "ln" "ln_backend"
unfolding generate_environment_variables mint_core_env_vars env_value config_tables slot_value
    info_tables info_table mint_info_table database_tables database_table payment_backend_tables
    ln_table quote_ttl_table http_cache_table logging_table postgres_table auth_postgres_table
    through all_distinct is_member names
generate_environment_variables-config_tables m password = (
  ap (through plain_text) (sym (config_value-slot m password "info" "url" _ refl refl)),
  ap (through plain_text) (sym (config_value-slot m password "info" "listen_host" _ refl refl)),
  ap (through plain_text) (sym (config_value-slot m password "info" "listen_port" _ refl refl)),
  ap (through plain_text) (sym (config_value-slot m password "database" "engine" _ refl refl)),
  ap (through plain_text) (sym (config_value-slot m password "ln" "ln_backend" _ refl refl)),
)

provisioned_url-database_url :
    (m : CashuMint) (password : String) → provisioned_url m password ≡ database_url m password
unfolding database_url
provisioned_url-database_url m password =
    let rest : String =
      password <> ("@" <> (m.metadata.name <> "-postgres:5432/cdk_mintd?sslmode=disable")) in
    append_assoc "postgresql://" "cdk:" rest
    ∙ ap (λ t. "postgresql://" <> t) (append_assoc "cdk" ":" rest)

-- A database that the operator provisions has one URL: that of its secret is the one in config.toml,
-- for the same password.
pub config_tables-postgres_secret_manifest :
    (m : CashuMint) (password : String) (p : PostgresConfig)
    → postgres_in_use m.spec ≡ some p
    → p.auto_provision ≡ true
    → config_value (config_tables m password) "database.postgres" "url"
      ≡ through
          (λ s. quoted s)
          (lookup "database-url" (postgres_secret_manifest m password).string_data)
unfolding through lookup postgres_secret_manifest database_url config_tables slot_value info_tables
    info_table mint_info_table database_tables database_table quote_ttl_table http_cache_table
    logging_table postgres_table all_distinct is_member names postgres_url
config_tables-postgres_secret_manifest m password p e a =
    config_value-slot m password "database.postgres" "url" (postgres_fields m password p)
      (ap (through (postgres_fields m password)) e) refl
    ∙ rw a (ap (λ s. some (quoted s)) (provisioned_url-database_url m password))
