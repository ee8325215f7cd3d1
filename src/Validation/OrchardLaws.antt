-- ===== src/Validation/OrchardLaws.antt =====
-- `validateOrchard` accepts exactly what is valid.
use cashu_operator.Validation.Laws.{validate_secret_key_selector_iff, validate_ingress_config_iff}
use cashu_operator.Validation.Lists.{
  errors_iff, if_nil_iff, append_iff, problem_iff, nonempty_iff, nonzero_iff, guarded_iff,
  unless_iff, report_iff,
}
use cashu_operator.Validation.Valid.{
  SelectorIsValid, OrchardMintIsValid, OrchardBitcoinIsValid, LightningSecretsAreValid,
  OrchardLightningIsValid, OrchardTaprootAssetsIsValid, OrchardAiIsValid, OrchardIsValid,
  MtlsIsValid,
}
use cashu_operator.Validation.Report.{errors, validate_secret_key_selector}
use cashu_operator.Api.{
  OrchardLightningConfig, DatabaseConfig, OrchardMintRpcConfig, SecretKeySelector,
  OrchardMintConfig, OrchardBitcoinConfig, OrchardTaprootAssetsConfig, OrchardAiConfig,
  ManagementRpcConfig, OrchardConfig, management_rpc_enabled,
}
use cashu_operator.Validation.Orchard.{
  orchard_mint_problems, orchard_bitcoin_problems, orchard_lightning_problems,
  orchard_taproot_assets_problems, orchard_ai_problems, validate_orchard, lightning_secrets,
  wants_mtls,
}
use cashu_operator.Common.{
  Bool, String, Option, ◌≡◌, [], ◌&&◌, ◌↔◌, none, not, false, some, ◌==◌, or_value, true, ◌≢◌, refl,
  arith, eq_iff,
}

wants_mtls_iff :
    (b : Bool) (o : Option OrchardMintRpcConfig)
    → ((wants_mtls o && not b) ≡ false) ↔ MtlsIsValid b o
wants_mtls_iff b none = (λ _. tt, λ _. refl)
wants_mtls_iff b (some r) = mtls_iff r.mtls
  where
    mtls_iff :
        (o : Option Bool) → ((or_value o false && not b) ≡ false) ↔ (o ≡ some true → b ≡ true)
    mtls_iff none = (λ _ h. cc, λ _. refl)
    mtls_iff (some true) = (λ h _. ground arith, λ h. rw (h refl))
    mtls_iff (some false) = (λ _ h. cc, λ _. refl)

selector_iff :
    (path : String) (ref : Option SecretKeySelector) (required : Bool)
    → (errors (validate_secret_key_selector path ref required) ≡ []) ↔ SelectorIsValid required ref
selector_iff path ref required = errors_iff _ (validate_secret_key_selector_iff path ref required)

orchard_mint_problems_iff :
    (b : Bool) (o : Option OrchardMintConfig)
    → (orchard_mint_problems b o ≡ []) ↔ OrchardMintIsValid b o
unfolding orchard_mint_problems
orchard_mint_problems_iff b none = (λ _. tt, λ _. refl)
orchard_mint_problems_iff b (some m) =
    append_iff _ _ (selector_iff _ m.database_ca_secret_ref false) (
      append_iff _ _ (selector_iff _ m.database_cert_secret_ref false) (
        append_iff _ _ (selector_iff _ m.database_key_secret_ref false)
          (problem_iff _ _ (wants_mtls_iff b m.rpc))))

orchard_bitcoin_problems_iff :
    (o : Option OrchardBitcoinConfig) → (orchard_bitcoin_problems o ≡ []) ↔ OrchardBitcoinIsValid o
unfolding orchard_bitcoin_problems
orchard_bitcoin_problems_iff none = (λ _. tt, λ _. refl)
orchard_bitcoin_problems_iff (some b) = append_iff _ _ (problem_iff _ _ (nonempty_iff b.rpc_host)) (
    append_iff _ _ (problem_iff _ _ (nonzero_iff b.rpc_port)) (
      append_iff _ _ (selector_iff _ b.rpc_user_secret_ref true)
        (selector_iff _ b.rpc_password_secret_ref true)))

lightning_secrets_iff :
    (l : OrchardLightningConfig) → (lightning_secrets l ≡ []) ↔ LightningSecretsAreValid l
lightning_secrets_iff l =
    if_nil_iff _ _ _
      (append_iff _ _ (selector_iff _ l.macaroon_secret_ref true)
        (selector_iff _ l.cert_secret_ref true))
      (guarded_iff _ (
        append_iff _ _ (selector_iff _ l.key_secret_ref true)
          (selector_iff _ l.ca_secret_ref true)))

orchard_lightning_problems_iff :
    (o : Option OrchardLightningConfig)
    → (orchard_lightning_problems o ≡ []) ↔ OrchardLightningIsValid o
unfolding orchard_lightning_problems
orchard_lightning_problems_iff none = (λ _. tt, λ _. refl)
orchard_lightning_problems_iff (some l) =
    append_iff _ _ (problem_iff _ _ (nonempty_iff l.rpc_host))
      (append_iff _ _ (problem_iff _ _ (nonzero_iff l.rpc_port)) (lightning_secrets_iff l))

orchard_taproot_assets_problems_iff :
    (o : Option OrchardTaprootAssetsConfig)
    → (orchard_taproot_assets_problems o ≡ []) ↔ OrchardTaprootAssetsIsValid o
unfolding orchard_taproot_assets_problems
orchard_taproot_assets_problems_iff none = (λ _. tt, λ _. refl)
orchard_taproot_assets_problems_iff (some t) =
    append_iff _ _ (problem_iff _ _ (nonempty_iff t.rpc_host)) (
      append_iff _ _ (problem_iff _ _ (nonzero_iff t.rpc_port)) (
        append_iff _ _ (selector_iff _ t.macaroon_secret_ref true)
          (selector_iff _ t.cert_secret_ref true)))

orchard_ai_problems_iff :
    (o : Option OrchardAiConfig) → (orchard_ai_problems o ≡ []) ↔ OrchardAiIsValid o
unfolding orchard_ai_problems
orchard_ai_problems_iff none = (λ _. tt, λ _. refl)
orchard_ai_problems_iff (some a) = problem_iff _ _ (nonempty_iff a.api)

-- `validateOrchard` reports no problem exactly when an Orchard companion that is enabled runs on no
-- redb database, has a reference to its setup key, asks for mutual TLS with the mint only where the
-- management endpoint is enabled, and has a complete ingress where that is enabled, complete
-- references to the certificates of the database where they are given, and complete settings of
-- Bitcoin, Lightning, Taproot Assets and AI where they are given.
pub validate_orchard_iff :
    (d : DatabaseConfig) (m : Option ManagementRpcConfig) (o : Option OrchardConfig)
    → (validate_orchard d m o ≡ none) ↔ OrchardIsValid d m o
unfolding validate_orchard
validate_orchard_iff d m none = (λ _. tt, λ _. refl)
validate_orchard_iff d m (some o) = unless_iff o.enabled (
    report_iff _ _ (
      append_iff _ _ (problem_iff _ _ (redb_iff d.engine)) (
        append_iff _ _ (selector_iff _ o.setup_key_secret_ref true) (
          append_iff _ _ (errors_iff _ (validate_ingress_config_iff _ o.ingress)) (
            append_iff _ _ (orchard_mint_problems_iff (management_rpc_enabled m) o.mint) (
              append_iff _ _ (orchard_bitcoin_problems_iff o.bitcoin) (
                append_iff _ _ (orchard_lightning_problems_iff o.lightning) (
                  append_iff _ _ (orchard_taproot_assets_problems_iff o.taproot_assets)
                    (orchard_ai_problems_iff o.ai)))))))))
  where
    redb_iff : (e : String) → ((e == "redb") ≡ false) ↔ (e ≢ "redb")
    redb_iff e = ground (arith, eq_iff e "redb")
