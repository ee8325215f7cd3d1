-- ===== src/Validation/SoleBackend.antt =====
-- What a mint that the webhook admits says of its payment backends
-- (api/v1alpha1/cashumint_webhook.go and api/v1alpha1/cashumint_types.go).
use cashu_operator.Validation.Admission.{validate_cashu_mint_iff}
use cashu_operator.Api.ActiveBackend.{IsSole, active_backend_of_one}
use cashu_operator.Validation.{validate_cashu_mint}
use cashu_operator.Api.{CashuMintSpec, active_backend}
use cashu_operator.Common.Int.{ℤ}
use cashu_operator.Common.{String, ◌≡◌, none}

-- A spec that validation reports no problem of has exactly one payment backend set, and
-- `ActiveBackend` returns its name.
pub validate_cashu_mint-IsSole :
    (cmp : String → String → ℤ) (s : CashuMintSpec)
    → validate_cashu_mint cmp s ≡ none
    → IsSole s.payment_backend (active_backend s.payment_backend)
validate_cashu_mint-IsSole cmp s h =
    active_backend_of_one s.payment_backend
      (((validate_cashu_mint_iff cmp s).0 h).payment_backend.0)
