-- ===== src/Tests/Webhook.antt =====
-- One instance of each result about the webhooks of api/v1alpha1/cashumint_webhook.go and about
-- api/v1alpha1/cashumint_types.go that has conditions.
use cashu_operator.Defaulting.OrchardValidity.{validate_cashu_mint-default_spec}
use cashu_operator.Validation.LimitOrder.{check_limits-Permᴰ}
use cashu_operator.Validation.Laws.{
  validate_backup_iff, validate_database_iff, validate_payment_backend_iff,
}
use cashu_operator.Validation.OrchardLaws.{validate_orchard_iff}
use cashu_operator.Validation.Admission.{validate_cashu_mint_iff}
use cashu_operator.Defaulting.Idempotence.{default_idem}
use cashu_operator.Validation.SoleBackend.{validate_cashu_mint-IsSole}
use cashu_operator.Common.Int.{pos, ℤ}
use cashu_operator.Validation.Payment.{validate_payment_backend}
use cashu_operator.Validation.Sections.{validate_backup, validate_database, check_limits}
use cashu_operator.Validation.Orchard.{validate_orchard}
use cashu_operator.Api.ActiveBackend.{IsSole, is_named, active_backend-IsSole}
use cashu_operator.Defaulting.{default, default_spec}
use cashu_operator.Validation.{validate_cashu_mint}
use cashu_operator.Validation.Valid.{
  IsValid, OrchardIsValid, BackupIsValid, DatabaseIsValid, PaymentIsValid,
}
use cashu_operator.Common.{String, ◌∷◌, none, some, [], ◌≡◌, sym, ◌↔◌, ◌⊎◌, inl, refl, Permᴰ}
use cashu_operator.Api.{active_backend, ResourceList}
use cashu_operator.Tests.{
  deleted_mint, small_spec, one_backend, provisioned_database, disabled_backup,
}

abbrev same_quantity : String → String → ℤ
same_quantity a b = pos 0

spec-IsValid : IsValid same_quantity small_spec
spec-IsValid = record {
  url = λ e. is_named "https://mint.example" refl (sym e);
  database = inl (refl, (inl refl, inl refl));
  payment_backend = (refl, (tt, (tt, (tt, tt))));
  ingress = λ _. (λ e. is_named "mint.example" refl (sym e), tt);
  resources = tt;
  backup = λ e. cc;
  management_rpc = tt;
  orchard = tt;
}

validate_cashu_mint_iff_example :
    (validate_cashu_mint same_quantity small_spec ≡ none) ↔ IsValid same_quantity small_spec
validate_cashu_mint_iff_example = validate_cashu_mint_iff same_quantity small_spec

validate_cashu_mint-default_spec_example :
    validate_cashu_mint same_quantity (default_spec "mint" small_spec) ≡ none
validate_cashu_mint-default_spec_example =
    validate_cashu_mint-default_spec same_quantity "mint" small_spec
      ((validate_cashu_mint_iff same_quantity small_spec).1 spec-IsValid)

default_idem_example : default (default deleted_mint) ≡ default deleted_mint
default_idem_example = default_idem deleted_mint

validate_cashu_mint-IsSole_example : IsSole one_backend (active_backend one_backend)
validate_cashu_mint-IsSole_example =
    validate_cashu_mint-IsSole same_quantity small_spec
      ((validate_cashu_mint_iff same_quantity small_spec).1 spec-IsValid)

validate_orchard_iff_example :
    (validate_orchard provisioned_database none none ≡ none)
    ↔ OrchardIsValid provisioned_database none none
validate_orchard_iff_example = validate_orchard_iff provisioned_database none none

validate_backup_iff_example :
    (validate_backup provisioned_database (some disabled_backup) ≡ none)
    ↔ BackupIsValid provisioned_database (some disabled_backup)
validate_backup_iff_example = validate_backup_iff provisioned_database (some disabled_backup)

validate_database_iff_example :
    (validate_database provisioned_database ≡ none) ↔ DatabaseIsValid provisioned_database
validate_database_iff_example = validate_database_iff provisioned_database

validate_payment_backend_iff_example :
    (validate_payment_backend one_backend ≡ none) ↔ PaymentIsValid one_backend
validate_payment_backend_iff_example = validate_payment_backend_iff one_backend

active_backend-IsSole_example :
    IsSole one_backend (active_backend one_backend)
    ⊎ ((active_backend one_backend ≡ "") × ((name : String) → ¬ IsSole one_backend name))
active_backend-IsSole_example = active_backend-IsSole one_backend

abbrev memory_first : ResourceList
memory_first = ("memory", "1Gi") ∷ (("cpu", "1") ∷ [])

abbrev cpu_first : ResourceList
cpu_first = ("cpu", "1") ∷ (("memory", "1Gi") ∷ [])

check_limits-Permᴰ_example :
    (check_limits same_quantity cpu_first memory_first ≡ none)
    ↔ (check_limits same_quantity cpu_first cpu_first ≡ none)
check_limits-Permᴰ_example =
    check_limits-Permᴰ same_quantity cpu_first {l = memory_first} {m = cpu_first}
      (Permᴰ.swap refl refl)
