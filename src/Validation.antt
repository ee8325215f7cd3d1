-- ===== src/Validation.antt =====
-- The validating webhook: `validateCashuMint` and its helpers in
-- api/v1alpha1/cashumint_webhook.go. An `error` is its text, and nil is `none`.
pub mod Report
pub mod Sections
pub mod Payment
pub mod Orchard
pub mod Lists
pub mod Valid
pub mod Laws
pub mod OrchardLaws
pub mod Admission
pub mod SoleBackend
pub mod LimitOrder
use cashu_operator.Api.{CashuMintSpec, CashuMint}
use cashu_operator.Validation.Report.{report, problem, errors}
use cashu_operator.Validation.Orchard.{validate_orchard}
use cashu_operator.Validation.Payment.{validate_payment_backend}
use cashu_operator.Validation.Sections.{
  validate_database, validate_ingress, validate_resources, validate_backup, validate_management_rpc,
}
use cashu_operator.Common.Int.{ℤ}
use cashu_operator.Common.{String, Option, none, ◌==◌, ◌++◌}

-- `resource.Quantity.Cmp`, which the API machinery implements.
module _ (cmp : String → String → ℤ) where
  -- `validateCashuMint`
  unfoldable pub validate_cashu_mint : CashuMintSpec → Option String
  validate_cashu_mint s = report "validation failed: " (
      problem (s.mint_info.url == "") "spec.mintInfo.url is required"
      ++ (errors (validate_database s.database)
          ++ (errors (validate_payment_backend s.payment_backend)
              ++ (errors (validate_ingress s)
                  ++ (errors (validate_resources cmp s.resources)
                      ++ (errors (validate_backup s.database s.backup)
                          ++ (errors (validate_management_rpc s.management_rpc)
                              ++ errors
                                  (validate_orchard s.database s.management_rpc s.orchard))))))))

  -- `ValidateCreate` and `ValidateUpdate`: no warnings, and the error.
  unfoldable pub validate_create : CashuMint → Option String
  validate_create r = validate_cashu_mint r.spec

  unfoldable pub validate_update : CashuMint → CashuMint → Option String
  validate_update r old = validate_cashu_mint r.spec

-- `ValidateDelete`
unfoldable pub validate_delete : CashuMint → Option String
validate_delete r = none
