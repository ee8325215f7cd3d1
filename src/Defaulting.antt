-- ===== src/Defaulting.antt =====
-- The mutating webhook: `Default` and its helpers in api/v1alpha1/cashumint_webhook.go. A method
-- that writes through the receiver is a function to the new spec; a helper that writes through a
-- pointer to one configuration is a function to the new configuration.
pub mod Basics
pub mod Database
pub mod Orchard
pub mod Operational
pub mod Payment
pub mod OrchardFields
pub mod IdempotentParts
pub mod Idempotence
pub mod PaymentValidity
pub mod Validity
pub mod OrchardValidity
use cashu_operator.Common.{String}
use cashu_operator.Api.{CashuMintSpec, CashuMint}
use Basics.{default_mint_info, default_ingress}
use Database.{default_database}
use Orchard.{default_orchard}
use Operational.{default_operational}
use Payment.{default_payment_backend}

-- The six steps of `Default` on the spec, in their order.
unfoldable pub default_spec : String → CashuMintSpec → CashuMintSpec
default_spec name s = default_payment_backend (
    default_operational name
      (default_orchard (default_ingress (default_database (default_mint_info s)))))

-- `Default`
unfoldable pub default : CashuMint → CashuMint
unfolding default_spec
default r = record r { spec = default_spec r.metadata.name r.spec }
