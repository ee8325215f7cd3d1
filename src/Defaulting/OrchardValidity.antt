-- ===== src/Defaulting/OrchardValidity.antt =====
-- `Default` of api/v1alpha1/cashumint_webhook.go keeps a valid mint valid: the Orchard companion,
-- which switches the management endpoint on, and the whole spec.
use cashu_operator.Defaulting.PaymentValidity.{PaymentIsValid-default}
use cashu_operator.Validation.Admission.{validate_cashu_mint_iff}
use cashu_operator.Validation.{validate_cashu_mint}
use cashu_operator.Defaulting.Payment.{default_payment_backend}
use cashu_operator.Defaulting.Database.{default_database, default_database_config}
use cashu_operator.Defaulting.Basics.{default_ingress, default_mint_info}
use cashu_operator.Defaulting.Operational.{default_operational, default_management_rpc}
use cashu_operator.Defaulting.{default_spec}
use cashu_operator.Common.Int.{ℤ}
use cashu_operator.Defaulting.Validity.{
  MtlsIsValid-default, IngressIsValid-default, DatabaseIsValid-default, BackupIsValid-default,
  ManagementRpcIsValid-default, engine_set, management_rpc_enabled-default,
}
use cashu_operator.Validation.Valid.{
  OrchardBitcoinIsValid, OrchardTaprootAssetsIsValid, OrchardMintIsValid, MtlsIsValid,
  OrchardIsValid, ManagementRpcIsValid, IsValid,
}
use cashu_operator.Api.{
  OrchardMintConfig, OrchardMintRpcConfig, OrchardBitcoinConfig, OrchardTaprootAssetsConfig,
  DatabaseConfig, ManagementRpcConfig, OrchardConfig, management_rpc_enabled, orchard_enabled,
  management_rpc_tls_enabled, CashuMintSpec,
}
use cashu_operator.Defaulting.OrchardFields.{orchard_of, rpc_of, tls_of, default_orchard-fields}
use cashu_operator.Common.{
  Bool, through, Option, ◌≡◌, true, String, some, none, or_value, refl, sym, ◌∙◌, arith, or_some,
  if_both,
}
use cashu_operator.Defaulting.Orchard.{
  default_orchard_mint, default_bitcoin, default_taproot_assets, default_enabled_orchard,
  empty_orchard_mint, enabled_management_rpc,
}

OrchardMintIsValid-default :
    (before after tls : Bool) (o : Option OrchardMintConfig)
    → (before ≡ true → after ≡ true)
    → (tls ≡ true → after ≡ true)
    → OrchardMintIsValid before o
    → OrchardMintIsValid after (some (default_orchard_mint tls (or_value o empty_orchard_mint)))
unfolding default_orchard_mint through
OrchardMintIsValid-default before after tls none f g h = (refl, (refl, (refl, tt)))
OrchardMintIsValid-default before after tls (some m) f g (a, (b, (c, mtls))) =
    (a, (b, (c, MtlsIsValid-default before after tls m.rpc f g mtls)))

MtlsIsValid-mono :
    (before after : Bool) (o : Option OrchardMintRpcConfig)
    → (before ≡ true → after ≡ true)
    → MtlsIsValid before o
    → MtlsIsValid after o
MtlsIsValid-mono before after none f h = tt
MtlsIsValid-mono before after (some r) f h = λ e. f (h e)

OrchardMintIsValid-mono :
    (before after : Bool) (o : Option OrchardMintConfig)
    → (before ≡ true → after ≡ true)
    → OrchardMintIsValid before o
    → OrchardMintIsValid after o
OrchardMintIsValid-mono before after none f h = tt
OrchardMintIsValid-mono before after (some m) f (a, (b, (c, mtls))) =
    (a, (b, (c, MtlsIsValid-mono before after m.rpc f mtls)))

OrchardBitcoinIsValid-default :
    (o : Option OrchardBitcoinConfig)
    → OrchardBitcoinIsValid o
    → OrchardBitcoinIsValid (through default_bitcoin o)
unfolding through default_bitcoin
OrchardBitcoinIsValid-default none h = h
OrchardBitcoinIsValid-default (some b) h = h

OrchardTaprootAssetsIsValid-default :
    (o : Option OrchardTaprootAssetsConfig)
    → OrchardTaprootAssetsIsValid o
    → OrchardTaprootAssetsIsValid (through default_taproot_assets o)
unfolding through default_taproot_assets
OrchardTaprootAssetsIsValid-default none h = h
OrchardTaprootAssetsIsValid-default (some t) h = h

-- Where the engine stays, and the management endpoint is on wherever it was, or TLS wants it.
OrchardIsValid-default :
    (d d' : DatabaseConfig) (m m' : Option ManagementRpcConfig) (engine : String) (tls : Bool)
    (o : Option OrchardConfig)
    → d'.engine ≡ d.engine
    → (management_rpc_enabled m ≡ true → management_rpc_enabled m' ≡ true)
    → (orchard_enabled o ≡ true → tls ≡ true → management_rpc_enabled m' ≡ true)
    → OrchardIsValid d m o
    → OrchardIsValid d' m' (orchard_of engine tls o)
unfolding orchard_of default_enabled_orchard
OrchardIsValid-default d d' m m' engine tls none e f g h = tt
OrchardIsValid-default d d' m m' engine tls (some o) e f g h =
    if_both (λ o. OrchardIsValid d' m' (some o)) o.enabled
      (λ on.
        let (redb, (key, (ingress, (mint, (bitcoin, (lightning, (taproot, ai))))))) = h on in
        (
          λ q. redb (sym e ∙ q),
          (
            key,
            (
              IngressIsValid-default o.ingress ingress,
              (
                OrchardMintIsValid-default _ _ tls o.mint f (g on) mint,
                (
                  OrchardBitcoinIsValid-default o.bitcoin bitcoin,
                  (lightning, (OrchardTaprootAssetsIsValid-default o.taproot_assets taproot, ai)),
                ),
              ),
            ),
          ),
        ))
      (λ on.
        let (redb, (key, (ingress, (mint, rest)))) = h on in
        (
          λ q. redb (sym e ∙ q),
          (key, (ingress, (OrchardMintIsValid-mono _ _ o.mint f mint, rest))),
        ))

ManagementRpcIsValid-rpc_of :
    (o : Option OrchardConfig) (m : Option ManagementRpcConfig)
    → ManagementRpcIsValid m
    → ManagementRpcIsValid (rpc_of o m)
unfolding rpc_of
ManagementRpcIsValid-rpc_of o m h = if_both ManagementRpcIsValid (orchard_enabled o) (added m h) h
  where
    added :
        (m : Option ManagementRpcConfig)
        → ManagementRpcIsValid m
        → ManagementRpcIsValid (or_some m enabled_management_rpc)
    added none h = tt
    added (some m) h = h

management_rpc_enabled-rpc_of :
    (o : Option OrchardConfig) (m : Option ManagementRpcConfig)
    → management_rpc_enabled m ≡ true
    → management_rpc_enabled (rpc_of o m) ≡ true
unfolding rpc_of
management_rpc_enabled-rpc_of o none h = absurd (ground arith)
management_rpc_enabled-rpc_of o (some m) h =
    if_both (λ m. management_rpc_enabled m ≡ true) (orchard_enabled o) h h

management_rpc_enabled-tls_of :
    (s : CashuMintSpec)
    → orchard_enabled s.orchard ≡ true
    → tls_of s ≡ true
    → management_rpc_enabled (rpc_of s.orchard s.management_rpc) ≡ true
unfolding rpc_of management_rpc_tls_enabled
management_rpc_enabled-tls_of s on h = ground arith

module _ (cmp : String → String → ℤ) (name : String) where
  default_spec-IsValid : (s : CashuMintSpec) → IsValid cmp s → IsValid cmp (default_spec name s)
  unfolding default_spec default_operational default_ingress default_database default_mint_info
      default_payment_backend
  default_spec-IsValid s v =
      let t : CashuMintSpec = default_ingress (default_database (default_mint_info s)) in
      let m : Option ManagementRpcConfig = rpc_of s.orchard s.management_rpc in
      rw (default_orchard-fields t) (record {
        url = v.url;
        database = DatabaseIsValid-default s.database v.database;
        payment_backend = PaymentIsValid-default s v.payment_backend;
        ingress = IngressIsValid-default s.ingress v.ingress;
        resources = v.resources;
        backup = BackupIsValid-default name s.database s.backup v.database v.backup;
        management_rpc =
            ManagementRpcIsValid-default m
              (ManagementRpcIsValid-rpc_of s.orchard s.management_rpc v.management_rpc);
        orchard =
            OrchardIsValid-default s.database (default_database_config s.database) s.management_rpc
              (through default_management_rpc m) _ (tls_of t) s.orchard
              (engine_set s.database v.database)
              (λ h.
                management_rpc_enabled-default m
                ∙ management_rpc_enabled-rpc_of s.orchard s.management_rpc h)
              (λ on h. management_rpc_enabled-default m ∙ management_rpc_enabled-tls_of t on h)
              v.orchard;
      })

  -- Where validation reports no problem of a spec, it reports none of what `Default` makes of it.
  pub validate_cashu_mint-default_spec :
      (s : CashuMintSpec)
      → validate_cashu_mint cmp s ≡ none
      → validate_cashu_mint cmp (default_spec name s) ≡ none
  validate_cashu_mint-default_spec s h =
      (validate_cashu_mint_iff cmp (default_spec name s)).1
        (default_spec-IsValid s ((validate_cashu_mint_iff cmp s).0 h))
