-- ===== src/Generators/Deployment/Env.antt =====
-- The environment of the mint's container (internal/controller/generators/deployment.go), and the
-- address of a gRPC processor (configmap.go).
use cashu_operator.Common.Decimal.{int_text}
use cashu_operator.Controller.Secrets.{mnemonic_secret_name}
use cashu_operator.Generators.Names.{
  for_each, added, enabled_management, enabled_prometheus, enabled_ldk, true_str, listen_port,
  management_port, grpc_processor_tls_mount_path, orchard_management_rpc_tls_mount_path,
}
use cashu_operator.Generators.Postgres.{plain_env, secret_env}
use cashu_operator.Defaulting.Payment.{or_sat}
use cashu_operator.Common.Int.{ℤ, or_port, pos}
use cashu_operator.Common.{
  Option, String, List, or_text, some, if◌then◌else◌, ◌++◌, not, ◌∷◌, join, starts_with, ◌==◌, [],
  ◌&&◌, present, none, ◌<>◌,
}
use cashu_operator.Api.{
  GrpcProcessorConfig, CashuMintSpec, CashuMint, PaymentBackendConfig, SecretKeySelector,
  HttpCacheConfig, EnvVar, RedisCacheConfig, active_backend, default_listen_host,
  default_loopback_host, payment_backend_lnbits, payment_backend_grpc_processor,
  management_rpc_tls_enabled,
}

-- `grpcProcessorAddress` on a pointer that is not nil
unfoldable pub grpc_processor_address : GrpcProcessorConfig → String
grpc_processor_address gp =
    let addr = or_text gp.address "http://127.0.0.1" in
    if not (starts_with addr "http://") && not (starts_with addr "https://")
    then "http://" <> addr
    else addr

-- `grpcProcessorPort`
unfoldable pub grpc_processor_port : GrpcProcessorConfig → ℤ
grpc_processor_port gp = or_port gp.port (pos 50051)

-- `grpcProcessorSupportedUnits`
abbrev pub grpc_processor_supported_units : GrpcProcessorConfig → List String
grpc_processor_supported_units gp = or_sat gp.supported_units

-- `mintCoreEnvVars`
unfoldable pub mint_core_env_vars : CashuMintSpec → List EnvVar
mint_core_env_vars s =
    plain_env "CDK_MINTD_WORK_DIR" "/data"
    ∷ (plain_env "HOME" "/data"
        ∷ (plain_env "CDK_MINTD_LN_BACKEND" (active_backend s.payment_backend)
            ∷ (plain_env "CDK_MINTD_URL" s.mint_info.url
                ∷ (plain_env "CDK_MINTD_LISTEN_HOST"
                      (or_text s.mint_info.listen_host default_listen_host)
                    ∷ (plain_env "CDK_MINTD_LISTEN_PORT" (int_text (listen_port s))
                        ∷ (plain_env "CDK_MINTD_DATABASE" s.database.engine
                            ∷ (plain_env "CDK_MINTD_LOGGING_OUTPUT" "stderr" ∷ [])))))))

-- `mintLoggingEnvVars`
unfoldable pub mint_logging_env_vars : CashuMintSpec → List EnvVar
mint_logging_env_vars s = for_each s.logging (λ l.
    added (not (l.level == ""))
      (plain_env "RUST_LOG" l.level ∷ (plain_env "CDK_MINTD_LOGGING_CONSOLE_LEVEL" l.level ∷ []))
    ++ added (not (l.file_level == ""))
        (plain_env "CDK_MINTD_LOGGING_FILE_LEVEL" l.file_level ∷ []))

-- The given reference, or that of the generated secret.
unfoldable pub mnemonic_ref : CashuMint → Option SecretKeySelector
mnemonic_ref m = elim m.spec.mint_info.mnemonic_secret_ref [
  | some r ↦ some r
  | none ↦
      if m.spec.mint_info.auto_generate_mnemonic
      then some (record { name = mnemonic_secret_name m.metadata.name; key = "mnemonic" })
      else none
]

-- `mintMnemonicEnvVars`
unfoldable pub mint_mnemonic_env_vars : CashuMint → List EnvVar
mint_mnemonic_env_vars m =
    for_each (mnemonic_ref m) (λ r. secret_env "CDK_MINTD_MNEMONIC" (some r) ∷ [])

-- `mintManagementRPCEnvVars`
unfoldable pub mint_management_rpc_env_vars : CashuMintSpec → List EnvVar
mint_management_rpc_env_vars s = for_each (enabled_management s.management_rpc) (λ r.
    plain_env "CDK_MINTD_MINT_MANAGEMENT_ENABLED" true_str
    ∷ (plain_env "CDK_MINTD_MANAGEMENT_ADDRESS" (or_text r.address default_loopback_host)
        ∷ (plain_env "CDK_MINTD_MANAGEMENT_PORT" (int_text (management_port r))
            ∷ added (management_rpc_tls_enabled s) (
                plain_env "CDK_MINTD_MANAGEMENT_TLS_DIR_PATH" orchard_management_rpc_tls_mount_path
                ∷ []))))

-- `mintPrometheusEnvVars`
unfoldable pub mint_prometheus_env_vars : CashuMintSpec → List EnvVar
mint_prometheus_env_vars s =
    for_each (enabled_prometheus s.prometheus)
      (λ p. plain_env "CDK_MINTD_PROMETHEUS_ENABLED" true_str ∷ [])

-- `mintLNBitsEnvVars`
unfoldable pub mint_lnbits_env_vars : PaymentBackendConfig → List EnvVar
mint_lnbits_env_vars p = for_each p.lnbits (λ l.
    secret_env "LNBITS_ADMIN_API_KEY" (some l.admin_api_key_secret_ref)
    ∷ (secret_env "LNBITS_INVOICE_API_KEY" (some l.invoice_api_key_secret_ref) ∷ []))

-- `mintGRPCProcessorEnvVars`
unfoldable pub mint_grpc_processor_env_vars : PaymentBackendConfig → List EnvVar
mint_grpc_processor_env_vars p = for_each p.grpc_processor (λ gp.
    plain_env "CDK_MINTD_GRPC_PAYMENT_PROCESSOR_SUPPORTED_UNITS"
      (join "," (grpc_processor_supported_units gp))
    ∷ (plain_env "CDK_MINTD_GRPC_PAYMENT_PROCESSOR_ADDRESS" (grpc_processor_address gp)
        ∷ (plain_env "CDK_MINTD_GRPC_PAYMENT_PROCESSOR_PORT" (int_text (grpc_processor_port gp))
            ∷ added (present gp.tls_secret_ref) (
                plain_env "CDK_MINTD_GRPC_PAYMENT_PROCESSOR_TLS_DIR" grpc_processor_tls_mount_path
                ∷ []))))

-- `mintPaymentBackendEnvVars`
unfoldable pub mint_payment_backend_env_vars : PaymentBackendConfig → List EnvVar
mint_payment_backend_env_vars p =
    if active_backend p == payment_backend_lnbits
    then mint_lnbits_env_vars p
    else if active_backend p == payment_backend_grpc_processor
    then mint_grpc_processor_env_vars p
    else []

-- `mintLDKEnvVars`
unfoldable pub mint_ldk_env_vars : CashuMintSpec → List EnvVar
mint_ldk_env_vars s = for_each (enabled_ldk s.ldk_node) (λ l.
    for_each l.bitcoin_rpc (λ b.
      secret_env "BITCOIN_RPC_USER" (some b.user_secret_ref)
      ∷ (secret_env "BITCOIN_RPC_PASSWORD" (some b.password_secret_ref) ∷ []))
    ++ for_each l.mnemonic_secret_ref (λ r. secret_env "CDK_LDK_NODE_MNEMONIC" (some r) ∷ []))

-- The Redis of a cache whose backend is Redis.
abbrev pub redis_of : Option HttpCacheConfig → Option RedisCacheConfig
redis_of none = none
redis_of (some c) = if not (c.backend == "redis") then none else c.redis

-- `mintHTTPCacheEnvVars`
unfoldable pub mint_http_cache_env_vars : CashuMintSpec → List EnvVar
mint_http_cache_env_vars s = for_each (redis_of s.http_cache) (λ r.
    elim r.connection_string_secret_ref [
      | some ref ↦ secret_env "REDIS_CONNECTION_STRING" (some ref) ∷ []
      | none ↦
          added (not (r.connection_string == ""))
            (plain_env "REDIS_CONNECTION_STRING" r.connection_string ∷ [])
    ])

-- `generateEnvironmentVariables`
unfoldable pub generate_environment_variables : CashuMint → List EnvVar
generate_environment_variables m =
    mint_core_env_vars m.spec
    ++ (mint_logging_env_vars m.spec
        ++ (mint_mnemonic_env_vars m
            ++ (mint_management_rpc_env_vars m.spec
                ++ (mint_prometheus_env_vars m.spec
                    ++ (mint_payment_backend_env_vars m.spec.payment_backend
                        ++ (mint_ldk_env_vars m.spec ++ mint_http_cache_env_vars m.spec))))))
