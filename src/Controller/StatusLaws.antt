-- ===== src/Controller/StatusLaws.antt =====
-- When a deployment is rolled out, as internal/controller/helpers.go tests it.
use cashu_operator.Common.{
  ◌≡◌, some, ◌&&◌, true, ◌↔◌, arith, Option-cases, inl, refl, inr, some-injective,
}
use cashu_operator.Controller.Readiness.{is_deployment_ready}
use cashu_operator.Common.Int.{ℤ, int_eq, int_eq_sound, int_eq_refl}
use cashu_operator.Controller.Env.{Deployment}

-- The deployment has a wanted number of replicas, and so many are ready, updated and available.
abbrev pub IsRolledOut : Deployment → Type 0
IsRolledOut d =
    (n : ℤ) × ((d.replicas ≡ some n)
      × ((d.ready_replicas ≡ n) × ((d.updated_replicas ≡ n) × (d.available_replicas ≡ n))))

all_equal :
    (a b c n : ℤ)
    → ((int_eq a n && (int_eq b n && int_eq c n)) ≡ true) ↔ ((a ≡ n) × ((b ≡ n) × (c ≡ n)))
all_equal a b c n = (to, from)
  where
    to : (int_eq a n && (int_eq b n && int_eq c n)) ≡ true → (a ≡ n) × ((b ≡ n) × (c ≡ n))
    to h = (
      int_eq_sound a n (ground arith),
      (int_eq_sound b n (ground arith), int_eq_sound c n (ground arith)),
    )

    from : (a ≡ n) × ((b ≡ n) × (c ≡ n)) → (int_eq a n && (int_eq b n && int_eq c n)) ≡ true
    from (p, (q, r)) = rw (p, q, r, int_eq_refl n) refl

-- A deployment is ready just where its wanted number of replicas is set and equals each of the
-- counts of ready, updated and available replicas.
pub is_deployment_ready_iff : (d : Deployment) → (is_deployment_ready d ≡ true) ↔ IsRolledOut d
unfolding is_deployment_ready
is_deployment_ready_iff d = elim (Option-cases d.replicas) [
  | inl e ↦ rw (e) (λ h. cc, λ (n, (h, r)). cc)
  | inr (n, e) ↦ rw (e) (
    λ h. (n, (refl, (all_equal _ _ _ n).0 h)),
    λ (k, (h, r)). (all_equal _ _ _ n).1 (rw (some-injective _ _ h) r),
  )
]
