-- ===== src/Defaulting/OrchardFields.antt =====
-- `defaultOrchard` of api/v1alpha1/cashumint_webhook.go, field by field.
use cashu_operator.Defaulting.Orchard.{
  default_orchard, default_enabled_orchard, enabled_management_rpc,
}
use cashu_operator.Api.{
  CashuMintSpec, OrchardConfig, ManagementRpcConfig, management_rpc_tls_enabled, orchard_enabled,
}
use cashu_operator.Common.{
  String, Option, Bool, ◌≡◌, Option-cases, some, if◌then◌else◌, or_some, inl, inr, Bool-cases, none,
}

-- The two fields that `default_orchard` writes.
unfoldable pub orchard_of : String → Bool → Option OrchardConfig → Option OrchardConfig
orchard_of engine b none = none
orchard_of engine b (some o) = some (if o.enabled then default_enabled_orchard engine b o else o)

unfoldable pub rpc_of :
    Option OrchardConfig → Option ManagementRpcConfig → Option ManagementRpcConfig
rpc_of o m = if orchard_enabled o then or_some m enabled_management_rpc else m

abbrev pub tls_of : CashuMintSpec → Bool
tls_of s =
    management_rpc_tls_enabled
      (record s { management_rpc = or_some s.management_rpc enabled_management_rpc })

pub default_orchard-fields :
    (s : CashuMintSpec)
    → default_orchard s ≡ record s {
      orchard = orchard_of s.database.engine (tls_of s) s.orchard;
      management_rpc = rpc_of s.orchard s.management_rpc;
    }
unfolding default_orchard orchard_of rpc_of
default_orchard-fields s = elim (Option-cases s.orchard) [
  | inl e ↦ simp (e, default_orchard) (λ i. record s { orchard = e i })
  | inr (o, e) ↦ elim (Bool-cases o.enabled) [
    | inl on ↦ simp (e, on, default_orchard)
    | inr off ↦ simp (e, off, default_orchard) (λ i. record s { orchard = e i })
  ]
]
