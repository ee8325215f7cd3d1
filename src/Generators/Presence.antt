-- ===== src/Generators/Presence.antt =====
-- Where the generators make an object, against the tests of the reconciler
-- (internal/controller/generators and internal/controller/cashumint_controller.go).
use cashu_operator.Generators.Certificate.{
  for_ingress, generate_certificate, for_cert_manager, for_tls, generate_orchard_certificate,
}
use cashu_operator.Common.Int.{ℤ}
use cashu_operator.Generators.Names.{
  orchard_ingress_of, enabled_ingress, enabled_cert_manager, enabled_tls,
}
use cashu_operator.Generators.Ingress.{generate_ingress, generate_orchard_ingress, ingress_manifest}
use cashu_operator.Api.{
  CashuMint, IngressConfig, OrchardConfig, CertManagerConfig, IngressTlsConfig,
}
use cashu_operator.Common.{
  Option, Bool, ◌≡◌, none, true, ◌||◌, present, false, refl, String, sym, some, Bool-cases, inl,
  inr, ◌∙◌,
}
use cashu_operator.Controller.Resources.{
  needs_ingress_reconciliation, ingress_enabled, orchard_ingress_test, needs_certificate,
  needs_certificate_reconciliation, cert_manager_enabled, tls_needs_certificate,
}
use cashu_operator.Generators.Manifest.{OwnerError, owned_some, Labels}
use cashu_operator.Controller.Env.{Result, Kind, ok, err, ingress, certificate}

-- A generator made something.
unfoldable pub is_made {ℓ} : {A : Type ℓ} → Result (Option A) → Bool
is_made (ok o) = present o
is_made (err e) = false

-- No object is refused its owner.
abbrev pub IsOwning : OwnerError → CashuMint → Type 0
IsOwning owner_error m = (k : Kind) → owner_error m k ≡ none

is_made-owned {ℓ} :
    {A : Type ℓ} (owner_error : OwnerError) (k : Kind) (m : CashuMint) (a : A)
    → IsOwning owner_error m
    → is_made (owned_some owner_error k m a) ≡ true
unfolding is_made
is_made-owned owner_error k m a h = rw (is_made, h k) refl

module _ (owner_error : OwnerError) (m : CashuMint) (h : IsOwning owner_error m) where
  ingress_made :
      (o : Option IngressConfig) (name : String) (labels : Labels) (port : ℤ)
      → ingress_enabled o
        ≡ is_made (elim (enabled_ingress o) [
          | none ↦ ok none
          | some i ↦ owned_some owner_error ingress m (ingress_manifest m name labels port i)
        ])
  unfolding is_made
  ingress_made none name labels port = refl
  ingress_made (some i) name labels port = elim (Bool-cases i.enabled) [
    | inl e ↦ rw (e, is_made, h ingress) refl
    | inr e ↦ rw (e, is_made) refl
  ]

  orchard_test-of :
      (test : Option IngressConfig → Bool) (o : Option OrchardConfig)
      → test none ≡ false
      → orchard_ingress_test test o ≡ test (orchard_ingress_of o)
  orchard_test-of test none e = sym e
  orchard_test-of test (some o) e = elim (Bool-cases o.enabled) [
    | inl b ↦ rw b refl
    | inr b ↦ rw b (sym e)
  ]

  cert_manager_made :
      (c : Option CertManagerConfig) (name : String) (labels : Labels) (i : IngressConfig)
      → (t : IngressTlsConfig)
      → cert_manager_enabled c
        ≡ is_made (for_cert_manager owner_error m name labels i t (enabled_cert_manager c))
  unfolding is_made
  cert_manager_made none name labels i t = refl
  cert_manager_made (some c) name labels i t = elim (Bool-cases c.enabled) [
    | inl e ↦ rw (e, is_made, h certificate) refl
    | inr e ↦ rw (e, is_made) refl
  ]

  tls_made :
      (t : Option IngressTlsConfig) (name : String) (labels : Labels) (i : IngressConfig)
      → tls_needs_certificate t ≡ is_made (for_tls owner_error m name labels i (enabled_tls t))
  unfolding is_made
  tls_made none name labels i = refl
  tls_made (some t) name labels i = elim (Bool-cases t.enabled) [
    | inl e ↦ simp (e) (cert_manager_made t.cert_manager name labels i t)
    | inr e ↦ rw e refl
  ]

  certificate_made :
      (o : Option IngressConfig) (name : String) (labels : Labels)
      → needs_certificate o ≡ is_made (for_ingress owner_error m name labels (enabled_ingress o))
  unfolding is_made
  certificate_made none name labels = refl
  certificate_made (some i) name labels = elim (Bool-cases i.enabled) [
    | inl e ↦ simp (e) (tls_made i.tls name labels i)
    | inr e ↦ rw e refl
  ]

or_same : {a b c d : Bool} → a ≡ c → b ≡ d → (a || b) ≡ (c || d)
or_same p q = cc

-- With no owner refused, the reconciler calls the generators of ingresses and of certificates just
-- where one of the two generators makes an object.
pub needs_reconciliation-is_made :
    (owner_error : OwnerError) (m : CashuMint)
    → IsOwning owner_error m
    → (needs_ingress_reconciliation m.spec ≡ (
        is_made (generate_ingress owner_error m)
        || is_made (generate_orchard_ingress owner_error m)))
      × (needs_certificate_reconciliation m.spec ≡ (
          is_made (generate_certificate owner_error m)
          || is_made (generate_orchard_certificate owner_error m)))
unfolding needs_ingress_reconciliation generate_ingress generate_orchard_ingress
    needs_certificate_reconciliation generate_certificate generate_orchard_certificate
needs_reconciliation-is_made owner_error m h = (
  or_same (ingress_made owner_error m h m.spec.ingress _ _ _) (
      orchard_test-of owner_error m h ingress_enabled m.spec.orchard refl
      ∙ ingress_made owner_error m h (orchard_ingress_of m.spec.orchard) _ _ _),
  or_same (certificate_made owner_error m h m.spec.ingress _ _) (
      orchard_test-of owner_error m h needs_certificate m.spec.orchard refl
      ∙ certificate_made owner_error m h (orchard_ingress_of m.spec.orchard) _ _),
)
