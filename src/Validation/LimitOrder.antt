-- ===== src/Validation/LimitOrder.antt =====
-- The loop of `validateResources` (api/v1alpha1/cashumint_webhook.go) walks a map, whose order is
-- not determined.
use cashu_operator.Validation.Admission.{check_limits_iff}
use cashu_operator.Validation.Sections.{check_limits}
use cashu_operator.Validation.Valid.{AllFit, Fits}
use cashu_operator.Api.{ResourceList}
use cashu_operator.Common.Int.{ℤ}
use cashu_operator.Common.{String, Permᴰ, subst, ◌≡◌, none, lookup, ◌↔◌, sym}

Permᴰ-symm : {l m : ResourceList} → Permᴰ l m → Permᴰ m l
Permᴰ-symm Permᴰ.nil = Permᴰ.nil
Permᴰ-symm (Permᴰ.cons e p) = Permᴰ.cons (sym e) (Permᴰ-symm p)
Permᴰ-symm (Permᴰ.swap e f) = Permᴰ.swap (sym f) (sym e)
Permᴰ-symm (Permᴰ.trans p q) = Permᴰ.trans (Permᴰ-symm q) (Permᴰ-symm p)

module _ (cmp : String → String → ℤ) (requests : ResourceList) where
  AllFit-Permᴰ : {l m : ResourceList} → Permᴰ l m → AllFit cmp requests l → AllFit cmp requests m
  AllFit-Permᴰ Permᴰ.nil h = h
  AllFit-Permᴰ (Permᴰ.cons e p) (h, r) =
      (subst (λ x. Fits cmp x.1 (lookup x.0 requests)) e h, AllFit-Permᴰ p r)
  AllFit-Permᴰ (Permᴰ.swap e f) (h, (g, r)) = (
    subst (λ x. Fits cmp x.1 (lookup x.0 requests)) f g,
    (subst (λ x. Fits cmp x.1 (lookup x.0 requests)) e h, r),
  )
  AllFit-Permᴰ (Permᴰ.trans p q) h = AllFit-Permᴰ q (AllFit-Permᴰ p h)

-- Whether the requests stay within the limits does not depend on the order in which the limits are
-- walked.
pub check_limits-Permᴰ :
    (cmp : String → String → ℤ) (requests : ResourceList) {l m : ResourceList}
    → Permᴰ l m
    → (check_limits cmp requests l ≡ none) ↔ (check_limits cmp requests m ≡ none)
check_limits-Permᴰ cmp requests {l = l} {m = m} p = (
  λ h.
      (check_limits_iff cmp requests m).1
        (AllFit-Permᴰ cmp requests p ((check_limits_iff cmp requests l).0 h)),
  λ h.
      (check_limits_iff cmp requests l).1
        (AllFit-Permᴰ cmp requests (Permᴰ-symm p) ((check_limits_iff cmp requests m).0 h)),
)
