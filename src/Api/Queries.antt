-- ===== src/Api/Queries.antt =====
-- The functions of api/v1alpha1/cashumint_types.go.
use cashu_operator.Common.{
  ℕ, ◌+◌, String, ◌<>◌, ◌==◌, Bool, false, not, ◌||◌, Option, none, some, ◌=?◌, if◌then◌else◌,
  present,
}
use cashu_operator.Api.Kube.{
  LocalObjectReference, database_engine_postgres, default_orchard_postgres_image,
  default_orchard_sqlite_image,
}
use cashu_operator.Api.Backend.{PaymentBackendConfig}
use cashu_operator.Api.Companion.{OrchardConfig}
use cashu_operator.Api.Spec.{CashuMintSpec, ManagementRpcConfig}

-- `DefaultOrchardImage`
unfoldable pub default_orchard_image : String → String
default_orchard_image engine =
    if engine == database_engine_postgres
    then default_orchard_postgres_image
    else default_orchard_sqlite_image

abbrev pub orchard_enabled : Option OrchardConfig → Bool
orchard_enabled none = false
orchard_enabled (some o) = o.enabled

abbrev pub management_rpc_enabled : Option ManagementRpcConfig → Bool
management_rpc_enabled none = false
management_rpc_enabled (some m) = m.enabled

abbrev has_tls_secret_ref : Option ManagementRpcConfig → Bool
has_tls_secret_ref none = false
has_tls_secret_ref (some m) = present m.tls_secret_ref

-- `ManagementRPCTLSEnabled`; the spec is never nil at its callers.
unfoldable pub management_rpc_tls_enabled : CashuMintSpec → Bool
management_rpc_tls_enabled s =
    if not (management_rpc_enabled s.management_rpc)
    then false
    else orchard_enabled s.orchard || has_tls_secret_ref s.management_rpc

abbrev secret_name_of : Option LocalObjectReference → String → String
secret_name_of none generated = generated
secret_name_of (some r) generated = if r.name == "" then generated else r.name

-- `ManagementRPCTLSSecretName`
unfoldable pub management_rpc_tls_secret_name : CashuMintSpec → String → String
management_rpc_tls_secret_name s mint_name = elim s.management_rpc [
  | none ↦ mint_name <> "-management-rpc-tls"
  | some m ↦ secret_name_of m.tls_secret_ref (mint_name <> "-management-rpc-tls")
]

abbrev pub payment_backend_lnd : String
payment_backend_lnd = "lnd"

abbrev pub payment_backend_cln : String
payment_backend_cln = "cln"

abbrev pub payment_backend_lnbits : String
payment_backend_lnbits = "lnbits"

abbrev pub payment_backend_fake_wallet : String
payment_backend_fake_wallet = "fakewallet"

abbrev pub payment_backend_grpc_processor : String
payment_backend_grpc_processor = "grpcprocessor"

-- `if p != nil { count++ }`
abbrev pub bump {ℓ} : {A : Type ℓ} → Option A → ℕ → ℕ
bump none n = n
bump (some _) n = n + 1

-- `if p != nil { result = name }`
abbrev pub chosen {ℓ} : {A : Type ℓ} → Option A → String → String → String
chosen none name result = result
chosen (some _) name result = name

-- `PaymentBackendConfig.ActiveBackend`, with the five tests in their order for each variable.
unfoldable pub active_backend : PaymentBackendConfig → String
active_backend p =
    let count =
      bump p.grpc_processor (bump p.fake_wallet (bump p.lnbits (bump p.cln (bump p.lnd 0)))) in
    let result = chosen p.grpc_processor payment_backend_grpc_processor (
      chosen p.fake_wallet payment_backend_fake_wallet (
        chosen p.lnbits payment_backend_lnbits
          (chosen p.cln payment_backend_cln (chosen p.lnd payment_backend_lnd "")))) in
    if not (count =? 1) then "" else result
