-- ===== src/Generators/Orchard/Env.antt =====
-- The environment of the Orchard container (internal/controller/generators/orchard.go).
use cashu_operator.Controller.Secrets.{postgres_secret_name}
use cashu_operator.Common.Decimal.{int_text}
use cashu_operator.Generators.Postgres.{plain_env, secret_env}
use cashu_operator.Generators.Names.{
  for_each, added, orchard_management_rpc_tls_mount_path, listen_port, orchard_port,
}
use cashu_operator.Common.Int.{ℤ, pos, or_port}
use cashu_operator.Api.{
  OrchardConfig, CashuMintSpec, CashuMint, OrchardBitcoinConfig, OrchardLightningConfig,
  OrchardTaprootAssetsConfig, OrchardMintConfig, OrchardMintRpcConfig, ManagementRpcConfig,
  PostgresConfig, EnvVar, SecretKeySelector, default_loopback_host, management_rpc_tls_enabled,
  database_engine_sqlite, database_engine_postgres,
}
use cashu_operator.Common.{
  Bool, Option, String, List, if◌then◌else◌, or_text, or_value, ◌<>◌, [], not, ◌++◌, some, ◌==◌,
  ◌∷◌, present, none,
}

-- `strconv.FormatBool`
abbrev bool_text : Bool → String
bool_text b = if b then "true" else "false"

abbrev set_mint_type : Option OrchardMintConfig → String
set_mint_type none = ""
set_mint_type (some m) = m.type

-- `orchardMintType`
unfoldable pub orchard_mint_type : OrchardConfig → String
orchard_mint_type o = or_text (set_mint_type o.mint) "cdk"

abbrev set_mint_api : Option OrchardMintConfig → String
set_mint_api none = ""
set_mint_api (some m) = m.api

-- `orchardMintAPI`
unfoldable pub orchard_mint_api : CashuMintSpec → OrchardConfig → String
orchard_mint_api s o =
    or_text (set_mint_api o.mint)
      ("http://" <> (default_loopback_host <> (":" <> int_text (listen_port s))))

abbrev pub mint_rpc_of : Option OrchardMintConfig → Option OrchardMintRpcConfig
mint_rpc_of none = none
mint_rpc_of (some m) = m.rpc

abbrev set_rpc_host : Option OrchardMintRpcConfig → String
set_rpc_host none = ""
set_rpc_host (some r) = r.host

abbrev set_rpc_port : Option OrchardMintRpcConfig → ℤ
set_rpc_port none = pos 0
set_rpc_port (some r) = r.port

abbrev set_rpc_mtls : Option OrchardMintRpcConfig → Option Bool
set_rpc_mtls none = none
set_rpc_mtls (some r) = r.mtls

-- `orchardMintRPCHost`
unfoldable pub orchard_mint_rpc_host : OrchardConfig → String
orchard_mint_rpc_host o = or_text (set_rpc_host (mint_rpc_of o.mint)) default_loopback_host

abbrev set_management_port : Option ManagementRpcConfig → ℤ
set_management_port none = pos 0
set_management_port (some m) = m.port

-- `orchardMintRPCPort`
unfoldable pub orchard_mint_rpc_port : CashuMintSpec → OrchardConfig → ℤ
orchard_mint_rpc_port s o =
    or_port (set_rpc_port (mint_rpc_of o.mint))
      (or_port (set_management_port s.management_rpc) (pos 8086))

-- `orchardMintRPCMTLS`
unfoldable pub orchard_mint_rpc_mtls : CashuMintSpec → OrchardConfig → Bool
orchard_mint_rpc_mtls s o =
    or_value (set_rpc_mtls (mint_rpc_of o.mint)) (management_rpc_tls_enabled s)

abbrev set_mint_database : Option OrchardMintConfig → String
set_mint_database none = ""
set_mint_database (some m) = m.database

abbrev postgres_database_env : CashuMint → Option PostgresConfig → List EnvVar
postgres_database_env m none = []
postgres_database_env m (some p) =
    if p.auto_provision
    then secret_env "MINT_DATABASE"
        (some (record { name = postgres_secret_name m.metadata.name; key = "database-url" }))
      ∷ []
    else elim p.url_secret_ref [
      | some r ↦ secret_env "MINT_DATABASE" (some r) ∷ []
      | none ↦ added (not (p.url == "")) (plain_env "MINT_DATABASE" p.url ∷ [])
    ]

-- `generateOrchardMintDatabaseEnvVar`
unfoldable pub orchard_mint_database_env : CashuMint → OrchardConfig → List EnvVar
orchard_mint_database_env m o =
    let set = set_mint_database o.mint in
    if not (set == "")
    then plain_env "MINT_DATABASE" set ∷ []
    else if m.spec.database.engine == database_engine_sqlite
    then plain_env "MINT_DATABASE" "/mnt/mint/cdk-mintd.sqlite" ∷ []
    else if m.spec.database.engine == database_engine_postgres
    then postgres_database_env m m.spec.database.postgres
    else []

abbrev optional_secret_env : String → Option SecretKeySelector → List EnvVar
optional_secret_env name ref = for_each ref (λ r. secret_env name (some r) ∷ [])

-- The test of `orchardSpecifiesMintDatabaseTLS` holds where one of the three is set.
unfoldable pub orchard_database_tls_env : OrchardConfig → List EnvVar
orchard_database_tls_env o = for_each o.mint (λ m.
    optional_secret_env "MINT_DATABASE_CA" m.database_ca_secret_ref
    ++ (optional_secret_env "MINT_DATABASE_CERT" m.database_cert_secret_ref
        ++ optional_secret_env "MINT_DATABASE_KEY" m.database_key_secret_ref))

unfoldable pub orchard_core_env : CashuMint → OrchardConfig → List EnvVar
orchard_core_env m o =
    plain_env "NODE_ENV" "production"
    ∷ (plain_env "SERVER_HOST" o.host
        ∷ (plain_env "SERVER_PORT" (int_text (orchard_port m.spec))
            ∷ (plain_env "BASE_PATH" o.base_path
                ∷ (plain_env "LOG_LEVEL" o.log_level
                    ∷ (plain_env "DATABASE_DIR" "/app/data"
                        ∷ (plain_env "MINT_TYPE" (orchard_mint_type o)
                            ∷ (plain_env "MINT_API" (orchard_mint_api m.spec o)
                                ∷ (plain_env "MINT_RPC_HOST" (orchard_mint_rpc_host o)
                                    ∷ (plain_env "MINT_RPC_PORT"
                                          (int_text (orchard_mint_rpc_port m.spec o))
                                        ∷ (plain_env "MINT_RPC_MTLS"
                                              (bool_text (orchard_mint_rpc_mtls m.spec o))
                                            ∷ (secret_env "SETUP_KEY" o.setup_key_secret_ref
                                                ∷ [])))))))))))

unfoldable pub orchard_server_env : OrchardConfig → List EnvVar
orchard_server_env o =
    for_each o.throttle_ttl (λ t. plain_env "THROTTLE_TTL" (int_text t) ∷ [])
    ++ (for_each o.throttle_limit (λ l. plain_env "THROTTLE_LIMIT" (int_text l) ∷ [])
        ++ (added (not (o.proxy == "")) (plain_env "TOR_PROXY_SERVER" o.proxy ∷ [])
            ++ for_each o.compression (λ c. plain_env "SERVER_COMPRESSION" (bool_text c) ∷ [])))

abbrev rpc_tls_env : List EnvVar
rpc_tls_env =
    plain_env "MINT_RPC_KEY" (orchard_management_rpc_tls_mount_path <> "/client.key")
    ∷ (plain_env "MINT_RPC_CERT" (orchard_management_rpc_tls_mount_path <> "/client.pem")
        ∷ (plain_env "MINT_RPC_CA" (orchard_management_rpc_tls_mount_path <> "/ca.pem") ∷ []))

unfoldable pub orchard_bitcoin_env : OrchardBitcoinConfig → List EnvVar
orchard_bitcoin_env b =
    plain_env "BITCOIN_TYPE" b.type
    ∷ (plain_env "BITCOIN_RPC_HOST" b.rpc_host
        ∷ (plain_env "BITCOIN_RPC_PORT" (int_text b.rpc_port)
            ∷ (secret_env "BITCOIN_RPC_USER" b.rpc_user_secret_ref
                ∷ (secret_env "BITCOIN_RPC_PASSWORD" b.rpc_password_secret_ref ∷ []))))

-- A path that is passed on where the secret of its file is given.
abbrev path_env : String → String → Option SecretKeySelector → List EnvVar
path_env name path ref = added (present ref) (plain_env name path ∷ [])

unfoldable pub orchard_lightning_env : OrchardLightningConfig → List EnvVar
orchard_lightning_env l =
    plain_env "LIGHTNING_TYPE" l.type
    ∷ (plain_env "LIGHTNING_RPC_HOST" l.rpc_host
        ∷ (plain_env "LIGHTNING_RPC_PORT" (int_text l.rpc_port)
            ∷ (path_env "LIGHTNING_MACAROON" "/secrets/orchard/lightning/macaroon"
                  l.macaroon_secret_ref
                ++ (path_env "LIGHTNING_CERT" "/secrets/orchard/lightning/cert" l.cert_secret_ref
                    ++ (path_env "LIGHTNING_KEY" "/secrets/orchard/lightning/key" l.key_secret_ref
                        ++ path_env "LIGHTNING_CA" "/secrets/orchard/lightning/ca"
                            l.ca_secret_ref)))))

unfoldable pub orchard_taproot_assets_env : OrchardTaprootAssetsConfig → List EnvVar
orchard_taproot_assets_env t =
    plain_env "TAPROOT_ASSETS_TYPE" t.type
    ∷ (plain_env "TAPROOT_ASSETS_RPC_HOST" t.rpc_host
        ∷ (plain_env "TAPROOT_ASSETS_RPC_PORT" (int_text t.rpc_port)
            ∷ (path_env "TAPROOT_ASSETS_MACAROON" "/secrets/orchard/taproot/macaroon"
                  t.macaroon_secret_ref
                ++ path_env "TAPROOT_ASSETS_CERT" "/secrets/orchard/taproot/cert"
                    t.cert_secret_ref)))

-- What `generateOrchardEnvironmentVariables` sets itself.
unfoldable pub orchard_own_env : CashuMint → OrchardConfig → List EnvVar
orchard_own_env m o =
    orchard_core_env m o
    ++ (orchard_server_env o
        ++ (orchard_mint_database_env m o
            ++ (orchard_database_tls_env o
                ++ (added (orchard_mint_rpc_mtls m.spec o) rpc_tls_env
                    ++ (for_each o.bitcoin orchard_bitcoin_env
                        ++ (for_each o.lightning orchard_lightning_env
                            ++ (for_each o.taproot_assets orchard_taproot_assets_env
                                ++ for_each o.ai (λ a. plain_env "AI_API" a.api ∷ []))))))))

-- `generateOrchardEnvironmentVariables`
unfoldable pub orchard_env : CashuMint → OrchardConfig → List EnvVar
orchard_env m o = orchard_own_env m o ++ o.extra_env
