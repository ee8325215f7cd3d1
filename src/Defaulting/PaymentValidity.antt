-- ===== src/Defaulting/PaymentValidity.antt =====
-- `Default` of api/v1alpha1/cashumint_webhook.go keeps a valid payment backend valid.
use cashu_operator.Validation.Payment.{sidecar_enabled}
use cashu_operator.Validation.Valid.{
  SidecarIsValid, GrpcProcessorIsValid, LndIsValid, ClnIsValid, LnbitsIsValid, PaymentIsValid,
}
use cashu_operator.Defaulting.Payment.{
  default_sidecar, default_grpc_processor, default_lnd, default_cln, default_lnbits,
  default_payment_backend,
}
use cashu_operator.Api.{
  SidecarProcessorConfig, GrpcProcessorConfig, LndConfig, ClnConfig, LnbitsConfig, bump,
  CashuMintSpec,
}
use cashu_operator.Common.{through, Option, ℕ, ◌≡◌, inl, ◌∙◌, some, inr, none, refl, if_both}

SidecarIsValid-default :
    (o : Option SidecarProcessorConfig)
    → SidecarIsValid o
    → SidecarIsValid (through default_sidecar o)
unfolding through default_sidecar
SidecarIsValid-default none h = h
SidecarIsValid-default (some c) h = if_both (λ c. SidecarIsValid (some c)) c.enabled h h

sidecar_enabled-default :
    (o : Option SidecarProcessorConfig)
    → sidecar_enabled (through default_sidecar o) ≡ sidecar_enabled o
unfolding through default_sidecar
sidecar_enabled-default none = refl
sidecar_enabled-default (some c) =
    if_both (λ (d : SidecarProcessorConfig). d.enabled ≡ c.enabled) c.enabled refl refl

GrpcProcessorIsValid-default :
    (o : Option GrpcProcessorConfig)
    → GrpcProcessorIsValid o
    → GrpcProcessorIsValid (through default_grpc_processor o)
unfolding through default_grpc_processor
GrpcProcessorIsValid-default none h = h
GrpcProcessorIsValid-default (some c) (inl e, h) = (
  inl (sidecar_enabled-default c.sidecar_processor ∙ e),
  SidecarIsValid-default c.sidecar_processor h,
)
GrpcProcessorIsValid-default (some c) (inr e, h) =
    (inr e, SidecarIsValid-default c.sidecar_processor h)

LndIsValid-default : (o : Option LndConfig) → LndIsValid o → LndIsValid (through default_lnd o)
unfolding through default_lnd
LndIsValid-default none h = h
LndIsValid-default (some c) h = h

ClnIsValid-default : (o : Option ClnConfig) → ClnIsValid o → ClnIsValid (through default_cln o)
unfolding through default_cln
ClnIsValid-default none h = h
ClnIsValid-default (some c) h = h

LnbitsIsValid-default :
    (o : Option LnbitsConfig) → LnbitsIsValid o → LnbitsIsValid (through default_lnbits o)
unfolding through default_lnbits
LnbitsIsValid-default none h = h
LnbitsIsValid-default (some c) h = h

bump-through {ℓ κ} :
    {A : Type ℓ} {B : Type κ} (f : A → B) (o : Option A) (n : ℕ) → bump (through f o) n ≡ bump o n
unfolding through
bump-through f none n = refl
bump-through f (some a) n = refl

pub PaymentIsValid-default :
    (s : CashuMintSpec)
    → PaymentIsValid s.payment_backend
    → PaymentIsValid (default_payment_backend s).payment_backend
unfolding default_payment_backend
PaymentIsValid-default s (n, (lnd, (cln, (lnbits, grpc)))) = (
  simp (bump-through, n),
  (
    LndIsValid-default _ lnd,
    (
      ClnIsValid-default _ cln,
      (LnbitsIsValid-default _ lnbits, GrpcProcessorIsValid-default _ grpc),
    ),
  ),
)
