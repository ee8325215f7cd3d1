-- ===== src/Defaulting/Idempotence.antt =====
-- `Default` applied to its own result: each configuration, then the whole resource.
use cashu_operator.Defaulting.IdempotentParts.{
  default_enabled_orchard_idem, default_management_rpc_idem, default_database_config_idem, idem,
  default_quote_ttl_idem, default_ingress_config_idem, default_logging_idem, default_storage_idem,
  default_service_idem, default_http_cache_idem, default_prometheus_idem, default_backup_idem,
  default_auth_idem, default_lnd_idem, default_cln_idem, default_lnbits_idem,
  default_fake_wallet_idem, default_grpc_processor_idem, default_ldk_node_idem,
}
use cashu_operator.Defaulting.OrchardFields.{orchard_of, rpc_of, default_orchard-fields}
use cashu_operator.Defaulting.{default}
use cashu_operator.Defaulting.Operational.{default_management_rpc, default_operational}
use cashu_operator.Defaulting.Orchard.{default_enabled_orchard, enabled_management_rpc}
use cashu_operator.Defaulting.Payment.{default_payment_backend}
use cashu_operator.Common.{
  String, ◌≡◌, refl, Bool-cases, inl, inr, through_idem, Bool, through, Option, or_some, ap, some,
  none,
}
use cashu_operator.Api.{ManagementRpcConfig, OrchardConfig, CashuMint, orchard_enabled}
use cashu_operator.Defaulting.Basics.{default_ingress, default_mint_info}
use cashu_operator.Defaulting.Database.{default_database}

default_enabled_orchard-enabled :
    (engine : String) (b : Bool) (o : OrchardConfig)
    → (default_enabled_orchard engine b o).enabled ≡ o.enabled
unfolding default_enabled_orchard
default_enabled_orchard-enabled engine b o = refl

orchard_of_idem :
    (engine : String) (b b' : Bool) (o : Option OrchardConfig)
    → orchard_of engine b' (orchard_of engine b o) ≡ orchard_of engine b o
unfolding orchard_of
orchard_of_idem engine b b' none = refl
orchard_of_idem engine b b' (some o) = elim (Bool-cases o.enabled) [
  | inl on ↦ simp (on, default_enabled_orchard-enabled, default_enabled_orchard_idem)
  | inr off ↦ simp off
]

orchard_enabled-orchard_of :
    (engine : String) (b : Bool) (o : Option OrchardConfig)
    → orchard_enabled (orchard_of engine b o) ≡ orchard_enabled o
unfolding orchard_of
orchard_enabled-orchard_of engine b none = refl
orchard_enabled-orchard_of engine b (some o) = elim (Bool-cases o.enabled) [
  | inl on ↦ simp (on, default_enabled_orchard-enabled)
  | inr off ↦ simp off
]

rpc_of_idem :
    (engine : String) (b : Bool) (o : Option OrchardConfig) (m : Option ManagementRpcConfig)
    → through default_management_rpc
        (rpc_of (orchard_of engine b o) (through default_management_rpc (rpc_of o m)))
      ≡ through default_management_rpc (rpc_of o m)
unfolding rpc_of through
rpc_of_idem engine b o m =
    rw (orchard_enabled-orchard_of engine b o) (elim (Bool-cases (orchard_enabled o)) [
      | inl on ↦ simp on (some_case m)
      | inr off ↦ simp off (through_idem default_management_rpc_idem m)
    ])
  where
    some_case :
        (m : Option ManagementRpcConfig)
        → through default_management_rpc (
            or_some
              (through default_management_rpc (or_some m enabled_management_rpc))
              enabled_management_rpc)
          ≡ through default_management_rpc (or_some m enabled_management_rpc)
    some_case none = ap some (default_management_rpc_idem _)
    some_case (some c) = ap some (default_management_rpc_idem c)

-- `Default` leaves its own result as it is.
pub default_idem : (r : CashuMint) → default (default r) ≡ default r
unfolding default default_payment_backend default_operational default_ingress default_database
    default_mint_info
default_idem r = simp (
  default_orchard-fields,
  default_database_config_idem,
  orchard_of_idem,
  rpc_of_idem,
  idem,
  through_idem default_quote_ttl_idem,
  through_idem default_ingress_config_idem,
  through_idem default_logging_idem,
  through_idem default_storage_idem,
  through_idem default_service_idem,
  through_idem default_http_cache_idem,
  through_idem default_prometheus_idem,
  through_idem (default_backup_idem r.metadata.name),
  through_idem default_auth_idem,
  through_idem default_lnd_idem,
  through_idem default_cln_idem,
  through_idem default_lnbits_idem,
  through_idem default_fake_wallet_idem,
  through_idem default_grpc_processor_idem,
  through_idem default_ldk_node_idem,
)
