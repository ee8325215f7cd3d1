-- ===== src/Validation/Orchard.antt =====
-- `validateOrchard` and its helpers (api/v1alpha1/cashumint_webhook.go).
use cashu_operator.Common.Int.{is_zero}
use cashu_operator.Api.{
  OrchardMintRpcConfig, OrchardMintConfig, OrchardBitcoinConfig, OrchardLightningConfig,
  OrchardTaprootAssetsConfig, OrchardAiConfig, database_engine_redb, management_rpc_enabled,
  DatabaseConfig, ManagementRpcConfig, OrchardConfig,
}
use cashu_operator.Validation.Sections.{validate_ingress_config}
use cashu_operator.Validation.Report.{validate_secret_key_selector, report, errors, problem}
use cashu_operator.Common.{
  Option, Bool, false, List, String, [], if◌then◌else◌, some, or_value, ◌==◌, ◌++◌, true, none,
  ◌&&◌, not,
}

abbrev pub wants_mtls : Option OrchardMintRpcConfig → Bool
wants_mtls none = false
wants_mtls (some r) = or_value r.mtls false  -- not nil, and true

-- `validateOrchardMint`, given whether the management RPC is enabled.
unfoldable pub orchard_mint_problems : Bool → Option OrchardMintConfig → List String
orchard_mint_problems rpc_enabled none = []
orchard_mint_problems rpc_enabled (some m) =
    errors (
      validate_secret_key_selector "spec.orchard.mint.databaseCaSecretRef" m.database_ca_secret_ref
        false)
    ++ (errors (
          validate_secret_key_selector "spec.orchard.mint.databaseCertSecretRef"
            m.database_cert_secret_ref false)
        ++ (errors (
              validate_secret_key_selector "spec.orchard.mint.databaseKeySecretRef"
                m.database_key_secret_ref false)
            ++ problem (wants_mtls m.rpc && not rpc_enabled)
                "spec.orchard.mint.rpc.mTLS=true requires spec.managementRPC.enabled=true"))

-- `validateOrchardBitcoin`
unfoldable pub orchard_bitcoin_problems : Option OrchardBitcoinConfig → List String
orchard_bitcoin_problems none = []
orchard_bitcoin_problems (some b) =
    problem (b.rpc_host == "") "spec.orchard.bitcoin.rpcHost is required"
    ++ (problem (is_zero b.rpc_port) "spec.orchard.bitcoin.rpcPort is required"
        ++ (errors (
              validate_secret_key_selector "spec.orchard.bitcoin.rpcUserSecretRef"
                b.rpc_user_secret_ref true)
            ++ errors (
                validate_secret_key_selector "spec.orchard.bitcoin.rpcPasswordSecretRef"
                  b.rpc_password_secret_ref true)))

-- The switch of `validateOrchardLightning` on the type.
abbrev pub lightning_secrets : OrchardLightningConfig → List String
lightning_secrets l =
    if l.type == "lnd"
    then errors (
        validate_secret_key_selector "spec.orchard.lightning.macaroonSecretRef"
          l.macaroon_secret_ref true)
      ++ errors (
          validate_secret_key_selector "spec.orchard.lightning.certSecretRef" l.cert_secret_ref
            true)
    else if l.type == "cln"
    then errors
        (validate_secret_key_selector "spec.orchard.lightning.keySecretRef" l.key_secret_ref true)
      ++ errors
          (validate_secret_key_selector "spec.orchard.lightning.caSecretRef" l.ca_secret_ref true)
    else []

-- `validateOrchardLightning`
unfoldable pub orchard_lightning_problems : Option OrchardLightningConfig → List String
orchard_lightning_problems none = []
orchard_lightning_problems (some l) =
    problem (l.rpc_host == "") "spec.orchard.lightning.rpcHost is required"
    ++ (problem (is_zero l.rpc_port) "spec.orchard.lightning.rpcPort is required"
        ++ lightning_secrets l)

-- `validateOrchardTaprootAssets`
unfoldable pub orchard_taproot_assets_problems : Option OrchardTaprootAssetsConfig → List String
orchard_taproot_assets_problems none = []
orchard_taproot_assets_problems (some t) =
    problem (t.rpc_host == "") "spec.orchard.taprootAssets.rpcHost is required"
    ++ (problem (is_zero t.rpc_port) "spec.orchard.taprootAssets.rpcPort is required"
        ++ (errors (
              validate_secret_key_selector "spec.orchard.taprootAssets.macaroonSecretRef"
                t.macaroon_secret_ref true)
            ++ errors (
                validate_secret_key_selector "spec.orchard.taprootAssets.certSecretRef"
                  t.cert_secret_ref true)))

-- `validateOrchardAI`
unfoldable pub orchard_ai_problems : Option OrchardAiConfig → List String
orchard_ai_problems none = []
orchard_ai_problems (some a) = problem (a.api == "") "spec.orchard.ai.api is required"

-- `validateOrchard`, given the parts of `r.Spec` that it reads.
unfoldable pub validate_orchard :
    DatabaseConfig → Option ManagementRpcConfig → Option OrchardConfig → Option String
validate_orchard d m none = none
validate_orchard d m (some o) =
    if not o.enabled
    then none
    else report "orchard validation errors: " (
        problem (d.engine == database_engine_redb)
          "spec.orchard.enabled requires spec.database.engine to be postgres or sqlite"
        ++ (errors (
              validate_secret_key_selector "spec.orchard.setupKeySecretRef" o.setup_key_secret_ref
                true)
            ++ (errors (validate_ingress_config "spec.orchard.ingress" o.ingress)
                ++ (orchard_mint_problems (management_rpc_enabled m) o.mint
                    ++ (orchard_bitcoin_problems o.bitcoin
                        ++ (orchard_lightning_problems o.lightning
                            ++ (orchard_taproot_assets_problems o.taproot_assets
                                ++ orchard_ai_problems o.ai)))))))
