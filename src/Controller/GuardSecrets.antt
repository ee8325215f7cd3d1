-- ===== src/Controller/GuardSecrets.antt =====
-- Guarded exchanges (Controller/Guard.antt) under the steps of
-- internal/controller/cashumint_controller.go that create secrets.
use cashu_operator.Api.{CashuMint}
use cashu_operator.Generators.Contract.{OfMade, MakesTheSecrets, IsSecretOf, OfOptional}
use cashu_operator.Controller.GuardSteps.{Keeps-the_mint, Keeps-done, Keeps-event, Keeps-fail}
use cashu_operator.Common.{
  String, Option, some, if◌then◌else◌, none, Bool-cases, inl, inr, refl, eq_refl,
}
use cashu_operator.Controller.Guard.{KeepsAfterMiss, Keeps, Keeps-bind, IsGuarded, Keeps-if}
use cashu_operator.Controller.Secrets.{
  create_once, ensure_secret, reconcile_optional_mnemonic, reconcile_management_rpc_tls_secret,
  reconcile_postgres_secret, create_optional,
}
use cashu_operator.Controller.Env.{
  Env, Result, Object, create, ok, err, Secret, wrapped, get, secret,
}
use cashu_operator.Controller.Monad.{
  ◌>>=◌, ◌>>◌, wrapping, M, attempt, done, lift, send, return, get_secret, fail, World, resume,
  is_already_exists, is_not_found, noting, failure_of,
}

KeepsAfterMiss-make :
    (text ns name : String) (P : Object → Type 0) (r : Result Object) {f : Object → M (Unit {0})}
    → OfMade P r
    → ((o : Object) → P o → KeepsAfterMiss ns name (f o))
    → KeepsAfterMiss ns name (wrapping text (lift r) >>= f)
unfolding ◌>>=◌ wrapping lift
KeepsAfterMiss-make text ns name P (ok o) p h = record { run = λ w s g. (h o p).run w s g }
KeepsAfterMiss-make text ns name P (err e) p h = record { run = λ w s g. g }

KeepsAfterMiss-bind :
    {A B : Type 0} (ns name : String) {m : M A} {f : A → M B}
    → KeepsAfterMiss ns name m
    → ((a : A) → Keeps (f a))
    → KeepsAfterMiss ns name (m >>= f)
unfolding ◌>>=◌
KeepsAfterMiss-bind {A = A} ns name {m = m} {f = f} h n = record {
  run = λ w s g. by_answer (m w) (h.run w s g);
}
  where
    by_answer : (r : Result A × World) → IsGuarded r.1.trace → IsGuarded (resume r f).1.trace
    by_answer (ok a, v) g = (n a).run v g
    by_answer (err e, v) g = g

KeepsAfterMiss-then :
    (ns name : String) {m k : M (Unit {0})}
    → KeepsAfterMiss ns name m
    → Keeps k
    → KeepsAfterMiss ns name (m >> k)
unfolding ◌>>◌
KeepsAfterMiss-then ns name h n = KeepsAfterMiss-bind ns name h (λ _. n)

module _ (env : Env) (makes : MakesTheSecrets env.generators) where
  open env use {server, library, generators}

  KeepsAfterMiss-attempt_create :
      (m : CashuMint) (name : String) (o : Object)
      → IsSecretOf m name o
      → KeepsAfterMiss m.metadata.namespace name (attempt (send env (create o)))
  unfolding attempt send
  KeepsAfterMiss-attempt_create m name o p = record {
    run = λ w s g. (rw (p.of_kind, p.in_namespace, p.named) s, g);
  }

  KeepsAfterMiss-create_once :
      (text : String) (m : CashuMint) (name : String) (o : Object)
      → IsSecretOf m name o
      → KeepsAfterMiss m.metadata.namespace name (create_once env text o)
  unfolding create_once
  KeepsAfterMiss-create_once text m name o p =
      KeepsAfterMiss-bind _ _ (KeepsAfterMiss-attempt_create m name o p) by_answer
    where
      by_answer :
          (r : Result (Unit {0}))
          → Keeps (elim r [
            | ok _ ↦ done
            | err e ↦ if is_already_exists e then done else fail {A = Unit {0}} (wrapped text e)
          ])
      by_answer (ok _) = Keeps-done env
      by_answer (err e) = Keeps-if _ (Keeps-done env) (Keeps-fail env _)

  -- The same for a generator that may make nothing.
  KeepsAfterMiss-make_optional :
      (text text' : String) (m : CashuMint) (name : String) (r : Result (Option Object))
      → OfOptional (IsSecretOf m name) r
      → KeepsAfterMiss m.metadata.namespace name
          (wrapping text (lift r) >>= create_optional env text')
  unfolding ◌>>=◌ wrapping lift done return
  KeepsAfterMiss-make_optional text text' m name (ok none) p = record { run = λ w s g. g }
  KeepsAfterMiss-make_optional text text' m name (ok (some o)) p = record {
    run = λ w s g. (KeepsAfterMiss-create_once text' m name o p).run w s g;
  }
  KeepsAfterMiss-make_optional text text' m name (err e) p = record { run = λ w s g. g }

  after_read : String → M (Unit {0}) → Result Secret → M (Unit {0})
  after_read text make r = elim r [
    | ok _ ↦ done
    | err e ↦ if is_not_found e then make else fail {A = Unit {0}} (wrapped text e)
  ]

  Keeps-ensure_secret :
      (text ns name : String) {make : M (Unit {0})}
      → KeepsAfterMiss ns name make
      → Keeps (ensure_secret env text ns name make)
  unfolding ensure_secret ◌>>=◌ attempt get_secret done return fail after_read
  Keeps-ensure_secret text ns name {make = make} h = record {
    run = λ w g. by_answer w g (server.get_secret w.trace ns name);
  }
    where
      by_answer :
          (w : World)
          → IsGuarded w.trace
          → (r : Result Secret)
          → IsGuarded
              (after_read text make r (noting (get secret ns name) (failure_of r) w)).1.trace
      by_answer w g (ok _) = (refl, g)
      by_answer w g (err e) = elim (Bool-cases (is_not_found e)) [
        | inl b ↦
            rw (b) (h.run (noting (get secret ns name) (some e) w) (simp (eq_refl, b)) (refl, g))
        | inr b ↦ rw (b) (refl, g)
      ]

  pub Keeps-mnemonic : Keeps (reconcile_optional_mnemonic env)
  unfolding reconcile_optional_mnemonic
  Keeps-mnemonic = Keeps-bind (Keeps-the_mint env) (λ m. Keeps-if _ (Keeps-done env) (
      Keeps-ensure_secret _ _ _ (
        KeepsAfterMiss-make _ _ _ _ _ (makes.mnemonic m) (λ o p.
          KeepsAfterMiss-then _ _ (KeepsAfterMiss-create_once _ m _ o p) (Keeps-event env _ _)))))

  pub Keeps-management_rpc_tls_secret : Keeps (reconcile_management_rpc_tls_secret env)
  unfolding reconcile_management_rpc_tls_secret
  Keeps-management_rpc_tls_secret = Keeps-bind (Keeps-the_mint env) (λ m.
      Keeps-if _ (Keeps-done env) (
        Keeps-ensure_secret _ _ _
          (KeepsAfterMiss-make_optional _ _ m _ _ (makes.management_rpc_tls m))))

  pub Keeps-postgres_secret : Keeps (reconcile_postgres_secret env)
  unfolding reconcile_postgres_secret
  Keeps-postgres_secret =
      Keeps-bind (Keeps-the_mint env)
        (λ m. Keeps-ensure_secret _ _ _ (KeepsAfterMiss-make_optional _ _ m _ _ (makes.postgres m)))
