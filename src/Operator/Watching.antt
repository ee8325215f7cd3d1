-- ===== src/Operator/Watching.antt =====
-- Which of the generated objects the controller of internal/controller/cashumint_controller.go
-- watches, by which cmd/main.go starts it.
use mathlib.Core.List.{Memᴰ}
use cashu_operator.Generators.Contract.{OfMade, OfOptional}
use cashu_operator.Generators.Machinery.{Machinery}
use cashu_operator.Api.{CashuMint}
use cashu_operator.Operator.Main.{watch}
use cashu_operator.Common.{through, ◌≡◌, String, ◌⊎◌, Option, some, none, inr, inl, refl}
use cashu_operator.Generators.Interface.{map_result, make_generators, Encoding}
use cashu_operator.Controller.Env.{Kind, Object, Generators, pod_monitor, Result, ok, err}

-- What holds of the object of a result.
abbrev OfKind : (Kind → Type 0) → Object → Type 0
OfKind P o = P o.kind

-- What holds of the kind of everything that the generators make.
pub record MakesKinds (P : Kind → Type 0) (g : Generators) : Type 0 where
  pub mnemonic_secret : (m : CashuMint) → OfMade (OfKind P) (g.mnemonic_secret m)
  pub config_map_object :
      (m : CashuMint) (password : String) → OfMade (OfKind P) (g.config_map_object m password)
  pub deployment_object :
      (m : CashuMint) (hash : String) → OfMade (OfKind P) (g.deployment_object m hash)
  pub service_object : (m : CashuMint) → OfMade (OfKind P) (g.service_object m)
  pub postgres_secret : (m : CashuMint) → OfOptional (OfKind P) (g.postgres_secret m)
  pub postgres_service : (m : CashuMint) → OfOptional (OfKind P) (g.postgres_service m)
  pub postgres_stateful_set : (m : CashuMint) → OfOptional (OfKind P) (g.postgres_stateful_set m)
  pub postgres_backup_cron_job :
      (m : CashuMint) → OfOptional (OfKind P) (g.postgres_backup_cron_job m)
  pub postgres_restore_job : (m : CashuMint) → OfOptional (OfKind P) (g.postgres_restore_job m)
  pub management_rpc_tls_secret :
      (m : CashuMint) → OfOptional (OfKind P) (g.management_rpc_tls_secret m)
  pub pvc_object : (m : CashuMint) → OfOptional (OfKind P) (g.pvc_object m)
  pub orchard_pvc : (m : CashuMint) → OfOptional (OfKind P) (g.orchard_pvc m)
  pub orchard_service : (m : CashuMint) → OfOptional (OfKind P) (g.orchard_service m)
  pub pod_monitor_object : (m : CashuMint) → OfOptional (OfKind P) (g.pod_monitor_object m)
  pub ingress_object : (m : CashuMint) → OfOptional (OfKind P) (g.ingress_object m)
  pub orchard_ingress : (m : CashuMint) → OfOptional (OfKind P) (g.orchard_ingress m)
  pub certificate_object : (m : CashuMint) → OfOptional (OfKind P) (g.certificate_object m)
  pub orchard_certificate : (m : CashuMint) → OfOptional (OfKind P) (g.orchard_certificate m)

made :
    {A : Type 0} (P : Object → Type 0) (f : A → Object) (r : Result A)
    → ((a : A) → P (f a))
    → OfMade P (map_result f r)
unfolding map_result
made P f (ok a) h = h a
made P f (err e) h = tt

optional :
    {A : Type 0} (P : Object → Type 0) (f : A → Object) (r : Result (Option A))
    → ((a : A) → P (f a))
    → OfOptional P (map_result (through f) r)
unfolding map_result through
optional P f (ok none) h = tt
optional P f (ok (some a)) h = h a
optional P f (err e) h = tt

-- The controller owns the kind, or it is `PodMonitor`.
abbrev pub IsFollowed : Kind → Type 0
IsFollowed k = (k ≡ pod_monitor) ⊎ Memᴰ k watch.owned

-- Whatever the machinery and the encoding, every object that the generators of the program make is
-- of a kind that `SetupWithManager` names under `Owns`, unless it is a `PodMonitor`.
pub make_generators-MakesKinds :
    (e : Machinery) (c : Encoding) → MakesKinds IsFollowed (make_generators e c)
unfolding make_generators watch
make_generators-MakesKinds e c = record {
  mnemonic_secret = λ m. made _ _ _ (λ a. inr (
      Memᴰ.tail
        (Memᴰ.tail (Memᴰ.tail (Memᴰ.tail (Memᴰ.tail (Memᴰ.tail (Memᴰ.tail (Memᴰ.head refl)))))))));
  config_map_object = λ m p.
      made _ _ _
        (λ a. inr (Memᴰ.tail (Memᴰ.tail (Memᴰ.tail (Memᴰ.tail (Memᴰ.tail (Memᴰ.head refl)))))));
  deployment_object = λ m h. made _ _ _ (λ a. inr (Memᴰ.head refl));
  service_object =
      λ m. made _ _ _ (λ a. inr (Memᴰ.tail (Memᴰ.tail (Memᴰ.tail (Memᴰ.tail (Memᴰ.head refl))))));
  postgres_secret = λ m. optional _ _ _ (λ a. inr (
      Memᴰ.tail
        (Memᴰ.tail (Memᴰ.tail (Memᴰ.tail (Memᴰ.tail (Memᴰ.tail (Memᴰ.tail (Memᴰ.head refl)))))))));
  postgres_service = λ m.
      optional _ _ _ (λ a. inr (Memᴰ.tail (Memᴰ.tail (Memᴰ.tail (Memᴰ.tail (Memᴰ.head refl))))));
  postgres_stateful_set = λ m. optional _ _ _ (λ a. inr (Memᴰ.tail (Memᴰ.head refl)));
  postgres_backup_cron_job =
      λ m. optional _ _ _ (λ a. inr (Memᴰ.tail (Memᴰ.tail (Memᴰ.head refl))));
  postgres_restore_job =
      λ m. optional _ _ _ (λ a. inr (Memᴰ.tail (Memᴰ.tail (Memᴰ.tail (Memᴰ.head refl)))));
  management_rpc_tls_secret = λ m. optional _ _ _ (λ a. inr (
      Memᴰ.tail
        (Memᴰ.tail (Memᴰ.tail (Memᴰ.tail (Memᴰ.tail (Memᴰ.tail (Memᴰ.tail (Memᴰ.head refl)))))))));
  pvc_object = λ m. optional _ _ _ (λ a.
      inr (Memᴰ.tail (Memᴰ.tail (Memᴰ.tail (Memᴰ.tail (Memᴰ.tail (Memᴰ.tail (Memᴰ.head refl))))))));
  orchard_pvc = λ m. optional _ _ _ (λ a.
      inr (Memᴰ.tail (Memᴰ.tail (Memᴰ.tail (Memᴰ.tail (Memᴰ.tail (Memᴰ.tail (Memᴰ.head refl))))))));
  orchard_service = λ m.
      optional _ _ _ (λ a. inr (Memᴰ.tail (Memᴰ.tail (Memᴰ.tail (Memᴰ.tail (Memᴰ.head refl))))));
  pod_monitor_object = λ m. optional _ _ _ (λ a. inl refl);
  ingress_object = λ m. optional _ _ _ (λ a. inr (
      Memᴰ.tail (
        Memᴰ.tail (
          Memᴰ.tail
            (Memᴰ.tail (Memᴰ.tail (Memᴰ.tail (Memᴰ.tail (Memᴰ.tail (Memᴰ.head refl))))))))));
  orchard_ingress = λ m. optional _ _ _ (λ a. inr (
      Memᴰ.tail (
        Memᴰ.tail (
          Memᴰ.tail
            (Memᴰ.tail (Memᴰ.tail (Memᴰ.tail (Memᴰ.tail (Memᴰ.tail (Memᴰ.head refl))))))))));
  certificate_object = λ m. optional _ _ _ (λ a. inr (
      Memᴰ.tail (
        Memᴰ.tail (
          Memᴰ.tail (
            Memᴰ.tail
              (Memᴰ.tail (Memᴰ.tail (Memᴰ.tail (Memᴰ.tail (Memᴰ.tail (Memᴰ.head refl)))))))))));
  orchard_certificate = λ m. optional _ _ _ (λ a. inr (
      Memᴰ.tail (
        Memᴰ.tail (
          Memᴰ.tail (
            Memᴰ.tail
              (Memᴰ.tail (Memᴰ.tail (Memᴰ.tail (Memᴰ.tail (Memᴰ.tail (Memᴰ.head refl)))))))))));
}
