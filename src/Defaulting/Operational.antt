-- ===== src/Defaulting/Operational.antt =====
-- `defaultOperational` and its helpers (api/v1alpha1/cashumint_webhook.go).
use cashu_operator.Common.{String, if◌then◌else◌, or_some, or_text, through}
use cashu_operator.Common.Int.{pos, or_port}
use cashu_operator.Api.{
  default_listen_host, default_loopback_host, default_storage_size, default_prometheus_port,
  ServiceConfig, StorageConfig, LoggingConfig, HttpCacheConfig, ManagementRpcConfig,
  PrometheusConfig, S3BackupConfig, BackupConfig, AuthConfig, CashuMintSpec,
}

unfoldable pub default_logging : LoggingConfig → LoggingConfig
default_logging c = record c { level = or_text c.level "info"; format = or_text c.format "json" }

unfoldable pub default_storage : StorageConfig → StorageConfig
default_storage c = record c { size = or_text c.size default_storage_size }

unfoldable pub default_service : ServiceConfig → ServiceConfig
default_service c = record c { type = or_text c.type "ClusterIP" }

-- `defaultHTTPCache`
unfoldable pub default_http_cache : HttpCacheConfig → HttpCacheConfig
default_http_cache c = record c {
  backend = or_text c.backend "memory";
  ttl = or_some c.ttl (pos 60);
  tti = or_some c.tti (pos 60);
}

unfoldable pub default_management_rpc : ManagementRpcConfig → ManagementRpcConfig
default_management_rpc c =
    if c.enabled
    then record c {
      address = or_text c.address default_loopback_host;
      port = or_port c.port (pos 8086);
    }
    else c

-- `defaultPrometheus`, behind its caller's test.
unfoldable pub default_prometheus : PrometheusConfig → PrometheusConfig
default_prometheus c =
    if c.enabled
    then record c {
      address = or_text c.address default_listen_host;
      port = or_some c.port default_prometheus_port;
    }
    else c

unfoldable pub default_s3 : String → S3BackupConfig → S3BackupConfig
default_s3 name s3 = record s3 { prefix = or_text s3.prefix name }

-- `defaultBackup`, behind its caller's test; `name` is `r.Name`.
unfoldable pub default_backup : String → BackupConfig → BackupConfig
default_backup name c =
    if c.enabled
    then record c {
      schedule = or_text c.schedule "0 */6 * * *";
      retention_count = or_some c.retention_count (pos 14);
      s3 = through (default_s3 name) c.s3;
    }
    else c

-- `defaultAuth`, behind its caller's test.
unfoldable pub default_auth : AuthConfig → AuthConfig
default_auth c =
    if c.enabled
    then record c {
      mint_max_bat = or_some c.mint_max_bat (pos 50);
      mint = or_text c.mint "clear";
      get_mint_quote = or_text c.get_mint_quote "clear";
      check_mint_quote = or_text c.check_mint_quote "clear";
      melt = or_text c.melt "clear";
      get_melt_quote = or_text c.get_melt_quote "clear";
      check_melt_quote = or_text c.check_melt_quote "clear";
      swap = or_text c.swap "clear";
      restore = or_text c.restore "clear";
      check_proof_state = or_text c.check_proof_state "clear";
    }
    else c

-- `defaultOperational`
unfoldable pub default_operational : String → CashuMintSpec → CashuMintSpec
default_operational name s = record s {
  logging = through default_logging s.logging;
  storage = through default_storage s.storage;
  service = through default_service s.service;
  http_cache = through default_http_cache s.http_cache;
  management_rpc = through default_management_rpc s.management_rpc;
  prometheus = through default_prometheus s.prometheus;
  backup = through (default_backup name) s.backup;
  auth = through default_auth s.auth;
}
