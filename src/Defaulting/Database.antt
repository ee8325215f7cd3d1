-- ===== src/Defaulting/Database.antt =====
-- `defaultDatabase` and `defaultPostgres` (api/v1alpha1/cashumint_webhook.go).
use cashu_operator.Common.{◌==◌, if◌then◌else◌, or_some, or_text, through}
use cashu_operator.Common.Int.{pos}
use cashu_operator.Api.{
  database_engine_postgres, database_engine_sqlite, default_storage_size, PostgresAutoProvisionSpec,
  PostgresConfig, SqliteConfig, DatabaseConfig, CashuMintSpec,
}

unfoldable pub default_auto_provision_spec : PostgresAutoProvisionSpec → PostgresAutoProvisionSpec
default_auto_provision_spec a = record a {
  storage_size = or_text a.storage_size default_storage_size;
  version = or_text a.version "15";
}

-- `defaultPostgres`
unfoldable pub default_postgres : PostgresConfig → PostgresConfig
default_postgres pg = record pg {
  tls_mode = or_text pg.tls_mode (if pg.auto_provision then "disable" else "require");
  max_connections = or_some pg.max_connections (pos 20);
  connection_timeout_seconds = or_some pg.connection_timeout_seconds (pos 10);
  auto_provision_spec =
      if pg.auto_provision
      then through default_auto_provision_spec pg.auto_provision_spec
      else pg.auto_provision_spec;
}

unfoldable pub default_sqlite : SqliteConfig → SqliteConfig
default_sqlite l = record { data_dir = or_text l.data_dir "/data" }

-- The body of `defaultDatabase`, on `r.Spec.Database`.
unfoldable pub default_database_config : DatabaseConfig → DatabaseConfig
default_database_config d =
    let engine = or_text d.engine database_engine_postgres in
    record {
      engine = engine;
      postgres =
          if engine == database_engine_postgres
          then through default_postgres d.postgres
          else d.postgres;
      sqlite =
          if engine == database_engine_sqlite then through default_sqlite d.sqlite else d.sqlite;
    }

-- `defaultDatabase`
unfoldable pub default_database : CashuMintSpec → CashuMintSpec
default_database s = record s { database = default_database_config s.database }
