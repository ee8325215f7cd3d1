-- ===== src/Validation/Admission.antt =====
-- The webhook admits exactly the mints that Validation/Valid.antt describes.
use cashu_operator.Validation.OrchardLaws.{validate_orchard_iff}
use cashu_operator.Validation.Laws.{
  validate_database_iff, validate_payment_backend_iff, validate_ingress_config_iff,
  validate_backup_iff, validate_management_rpc_iff,
}
use cashu_operator.Validation.Lists.{
  compose_iff, report_iff, append_iff, problem_iff, nonempty_iff, errors_iff, first_error_iff,
}
use cashu_operator.Validation.Valid.{
  AllFit, BothFit, ResourcesAreValid, IsValid, Fits, DatabaseIsValid, PaymentIsValid,
  IngressIsValid, BackupIsValid, ManagementRpcIsValid, OrchardIsValid,
}
use cashu_operator.Api.{ResourceList, ResourceRequirements, CashuMintSpec}
use cashu_operator.Validation.{validate_cashu_mint}
use cashu_operator.Validation.Sections.{
  check_limits, validate_resources, check_resources, exceeds, validate_ingress,
}
use cashu_operator.Common.Int.{ℤ}
use cashu_operator.Common.{◌∷◌, [], String, Option, ◌≡◌, none, ◌↔◌, some, refl, false, lookup, ◌≢◌}

module _ (cmp : String → String → ℤ) where
  pub check_limits_iff :
      (requests limits : ResourceList)
      → (check_limits cmp requests limits ≡ none) ↔ AllFit cmp requests limits
  unfolding check_limits
  check_limits_iff requests [] = (λ _. tt, λ _. refl)
  check_limits_iff requests ((resource, limit) ∷ limits) =
      compose_iff
        (first_error_iff (exceeds cmp limit (lookup resource requests)) _
          (check_limits_iff requests limits))
        (
          λ r. (fits (lookup resource requests) r.0, r.1),
          λ r. (unfits (lookup resource requests) r.0, r.1),
        )
    where
      fits : (o : Option String) → exceeds cmp limit o ≡ false → Fits cmp limit o
      fits none h = tt
      fits (some request) h = h

      unfits : (o : Option String) → Fits cmp limit o → exceeds cmp limit o ≡ false
      unfits none h = refl
      unfits (some request) h = h

  check_resources_iff :
      (l r : Option ResourceList) → (check_resources cmp l r ≡ none) ↔ BothFit cmp l r
  check_resources_iff none r = (λ _. tt, λ _. refl)
  check_resources_iff (some l) none = (λ _. tt, λ _. refl)
  check_resources_iff (some l) (some r) = check_limits_iff r l

  validate_resources_iff :
      (o : Option ResourceRequirements)
      → (validate_resources cmp o ≡ none) ↔ ResourcesAreValid cmp o
  unfolding validate_resources
  validate_resources_iff none = (λ _. tt, λ _. refl)
  validate_resources_iff (some r) = check_resources_iff r.limits r.requests

  -- The parts of `IsValid` in the order in which they are checked.
  IsValid-parts :
      (s : CashuMintSpec)
      → ((s.mint_info.url ≢ "")
          × (DatabaseIsValid s.database
              × (PaymentIsValid s.payment_backend
                  × (IngressIsValid s.ingress
                      × (ResourcesAreValid cmp s.resources
                          × (BackupIsValid s.database s.backup
                              × (ManagementRpcIsValid s.management_rpc
                                  × OrchardIsValid s.database s.management_rpc s.orchard)))))))
        ↔ IsValid cmp s
  IsValid-parts s = (
    λ p. record {
      url = p.0;
      database = p.1.0;
      payment_backend = p.1.1.0;
      ingress = p.1.1.1.0;
      resources = p.1.1.1.1.0;
      backup = p.1.1.1.1.1.0;
      management_rpc = p.1.1.1.1.1.1.0;
      orchard = p.1.1.1.1.1.1.1;
    },
    λ v. (
      v.url,
      (
        v.database,
        (v.payment_backend, (v.ingress, (v.resources, (v.backup, (v.management_rpc, v.orchard))))),
      ),
    ),
  )

  -- Validation reports no problem of a spec exactly when the spec is valid as `IsValid` lists it: it
  -- has a URL, a valid database and one valid payment backend, the ingress, the backup and the
  -- Orchard companion are complete where they are enabled, no request is above its limit, and a
  -- reference to a TLS secret of the management endpoint has a name.
  pub validate_cashu_mint_iff :
      (s : CashuMintSpec) → (validate_cashu_mint cmp s ≡ none) ↔ IsValid cmp s
  unfolding validate_cashu_mint validate_ingress
  validate_cashu_mint_iff s =
      compose_iff
        (report_iff _ _ (
          append_iff _ _ (problem_iff _ _ (nonempty_iff s.mint_info.url)) (
            append_iff _ _ (errors_iff _ (validate_database_iff s.database)) (
              append_iff _ _ (errors_iff _ (validate_payment_backend_iff s.payment_backend)) (
                append_iff _ _ (errors_iff _ (validate_ingress_config_iff "spec.ingress" s.ingress))
                  (append_iff _ _ (errors_iff _ (validate_resources_iff s.resources)) (
                    append_iff _ _ (errors_iff _ (validate_backup_iff s.database s.backup)) (
                      append_iff _ _ (errors_iff _ (validate_management_rpc_iff s.management_rpc)) (
                        errors_iff _
                          (validate_orchard_iff s.database s.management_rpc s.orchard))))))))))
        (IsValid-parts s)
