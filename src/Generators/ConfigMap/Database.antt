-- ===== src/Generators/ConfigMap/Database.antt =====
-- The tables of the databases in config.toml (internal/controller/generators/configmap.go).
use cashu_operator.Generators.ConfigMap.Toml.{
  Table, Value, Field, table_of, table, quoted, set_number, text, raw,
}
use cashu_operator.Common.{
  Option, String, List, if◌then◌else◌, ◌<>◌, or_text, ◌==◌, ◌∷◌, some, none, not, [],
}
use cashu_operator.Api.{
  CashuMint, PostgresConfig, CashuMintSpec, AuthDatabaseConfig, AuthConfig,
  database_engine_postgres,
}

abbrev pub provisioned_url : CashuMint → String → String
provisioned_url m password =
    "postgresql://cdk:"
    <> (password <> ("@" <> (m.metadata.name <> "-postgres:5432/cdk_mintd?sslmode=disable")))

-- The URL that is written for a database that is provisioned, and for another one.
unfoldable pub postgres_url : CashuMint → String → PostgresConfig → Option Value
postgres_url m password p =
    if p.auto_provision
    then some (quoted (provisioned_url m password))
    else if not (p.url == "")
    then some (quoted p.url)
    else none

abbrev tls_mode_of : PostgresConfig → String
tls_mode_of p = if p.auto_provision then "disable" else or_text p.tls_mode "require"

abbrev connection_fields : PostgresConfig → List Field
connection_fields p =
    set_number "max_connections" p.max_connections
    ∷ (set_number "connection_timeout_seconds" p.connection_timeout_seconds ∷ [])

abbrev pub postgres_in_use : CashuMintSpec → Option PostgresConfig
postgres_in_use s =
    if s.database.engine == database_engine_postgres then s.database.postgres else none

abbrev pub postgres_fields : CashuMint → String → PostgresConfig → List Field
postgres_fields m password p =
    ("url", postgres_url m password p) ∷ (text "tls_mode" (tls_mode_of p) ∷ connection_fields p)

unfoldable pub postgres_table : CashuMint → String → Table
postgres_table m password =
    table_of "database.postgres" (postgres_in_use m.spec) (postgres_fields m password)

abbrev database_of : Option AuthDatabaseConfig → Option PostgresConfig
database_of none = none
database_of (some d) = d.postgres

abbrev auth_postgres : Option AuthConfig → Option PostgresConfig
auth_postgres none = none
auth_postgres (some a) = if a.enabled then database_of a.database else none

unfoldable pub auth_postgres_table : CashuMintSpec → Table
auth_postgres_table s = table_of "auth_database.postgres" (auth_postgres s.auth) (λ p.
    ("url", some (if not (p.url == "") then quoted p.url else raw "\"\""))
    ∷ (text "tls_mode" (or_text p.tls_mode "disable") ∷ connection_fields p))

unfoldable pub database_table : CashuMintSpec → Table
database_table s = table "database" (text "engine" s.database.engine ∷ [])

-- `writeDatabaseSection`
unfoldable pub database_tables : CashuMint → String → List Table
database_tables m password =
    database_table m.spec ∷ (postgres_table m password ∷ (auth_postgres_table m.spec ∷ []))
