-- ===== src/Generators/Contract.antt =====
-- What the reconciler counts on when it makes a secret that it did not find
-- (internal/controller/generators and internal/controller/cashumint_controller.go).
use cashu_operator.Controller.Secrets.{mnemonic_secret_name, postgres_secret_name}
use cashu_operator.Generators.Manifest.{SecretManifest}
use cashu_operator.Generators.Machinery.{Machinery}
use cashu_operator.Generators.ManagementRpc.{
  generate_management_rpc_tls_secret, tls_secret_manifest,
}
use cashu_operator.Generators.Postgres.{generate_postgres_secret, postgres_secret_manifest}
use cashu_operator.Generators.Mnemonic.{generate_mnemonic_secret, mnemonic_secret_manifest}
use cashu_operator.Common.{
  through, String, Option, ◌≡◌, some, some-injective, none, refl, arith, subst, ◌∙◌, ap,
}
use cashu_operator.Generators.Interface.{map_result, Encoding, make_generators, secret_object}
use cashu_operator.Controller.Env.{Generators, Object, Result, secret, ok, err}
use cashu_operator.Api.{CashuMint, management_rpc_tls_secret_name}

-- The object is the secret of a name, in the namespace of the mint.
pub record IsSecretOf (m : CashuMint) (name : String) (o : Object) : Type 0 where
  pub of_kind : o.kind ≡ secret
  pub in_namespace : o.namespace ≡ m.metadata.namespace
  pub named : o.name ≡ name

-- What holds of the object of a result that has one.
abbrev pub OfMade : (Object → Type 0) → Result Object → Type 0
OfMade P (ok o) = P o
OfMade P (err e) = Unit

abbrev pub OfOptional : (Object → Type 0) → Result (Option Object) → Type 0
OfOptional P (ok none) = Unit
OfOptional P (ok (some o)) = P o
OfOptional P (err e) = Unit

-- Each generator of a secret makes the one whose absence the reconciler has just read.
pub record MakesTheSecrets (g : Generators) : Type 0 where
  pub mnemonic :
      (m : CashuMint)
      → OfMade (IsSecretOf m (mnemonic_secret_name m.metadata.name)) (g.mnemonic_secret m)
  pub postgres :
      (m : CashuMint)
      → OfOptional (IsSecretOf m (postgres_secret_name m.metadata.name)) (g.postgres_secret m)
  pub management_rpc_tls :
      (m : CashuMint)
      → OfOptional
          (IsSecretOf m (management_rpc_tls_secret_name m.spec m.metadata.name))
          (g.management_rpc_tls_secret m)

made_of : (P : Object → Type 0) (r : Result Object) → ((o : Object) → r ≡ ok o → P o) → OfMade P r
made_of P (ok o) h = h o refl
made_of P (err e) h = tt

optional_of :
    (P : Object → Type 0) (r : Result (Option Object))
    → ((o : Object) → r ≡ ok (some o) → P o)
    → OfOptional P r
optional_of P (ok none) h = tt
optional_of P (ok (some o)) h = h o refl
optional_of P (err e) h = tt

map_result-ok {ℓ κ} :
    {A : Type ℓ} {B : Type κ} (f : A → B) (r : Result A) (b : B)
    → map_result f r ≡ ok b
    → (a : A) × (r ≡ ok a) × (f a ≡ b)
unfolding map_result
map_result-ok f (ok a) b h = (a, refl, ground arith)
map_result-ok f (err e) b h = ground arith

through-some {ℓ κ} :
    {A : Type ℓ} {B : Type κ} (f : A → B) (o : Option A) (b : B)
    → through f o ≡ some b
    → (a : A) × (o ≡ some a) × (f a ≡ b)
unfolding through
through-some f none b h = ground arith
through-some f (some a) b h = (a, refl, some-injective _ _ h)

mnemonic_named :
    (e : Machinery) (m : CashuMint) (s : SecretManifest)
    → generate_mnemonic_secret e m "" ≡ ok s
    → (s.meta.name ≡ mnemonic_secret_name m.metadata.name)
      × (s.meta.namespace ≡ m.metadata.namespace)
unfolding generate_mnemonic_secret mnemonic_secret_manifest
mnemonic_named e m s h = ground arith

postgres_named :
    (e : Machinery) (m : CashuMint) (s : SecretManifest)
    → generate_postgres_secret e.random_bytes e.base64_url m "" ≡ ok (some s)
    → (s.meta.name ≡ postgres_secret_name m.metadata.name)
      × (s.meta.namespace ≡ m.metadata.namespace)
unfolding generate_postgres_secret postgres_secret_manifest
postgres_named e m s h = ground arith

tls_named :
    (e : Machinery) (m : CashuMint) (s : SecretManifest)
    → generate_management_rpc_tls_secret e.owner_error e.crypto m ≡ ok (some s)
    → (s.meta.name ≡ management_rpc_tls_secret_name m.spec m.metadata.name)
      × (s.meta.namespace ≡ m.metadata.namespace)
unfolding generate_management_rpc_tls_secret tls_secret_manifest
tls_named e m s h = ground arith

object_named :
    (c : Encoding) (m : CashuMint) (s : SecretManifest) (name : String) (o : Object)
    → (s.meta.name ≡ name) × (s.meta.namespace ≡ m.metadata.namespace)
    → secret_object c s ≡ o
    → IsSecretOf m name o
object_named c m s name o (p, q) e =
    subst (IsSecretOf m name) e (record { of_kind = refl; in_namespace = q; named = p })

optional_named :
    (c : Encoding) (m : CashuMint) (name : String) (r : Result (Option SecretManifest)) (o : Object)
    → ((s : SecretManifest)
        → r ≡ ok (some s)
        → (s.meta.name ≡ name) × (s.meta.namespace ≡ m.metadata.namespace))
    → map_result (through (secret_object c)) r ≡ ok (some o)
    → IsSecretOf m name o
optional_named c m name r o f h =
    let (a, e, p) = map_result-ok (through (secret_object c)) r (some o) h in
    let (s, i, q) = through-some (secret_object c) a o p in
    object_named c m s name o (f s (e ∙ ap (λ x. ok x) i)) q

-- Whatever the machinery and the encoding, the generators of the program make the mnemonic, the
-- password and the TLS secret under the name and in the namespace under which the reconciler looked
-- for them.
pub make_generators-MakesTheSecrets :
    (e : Machinery) (c : Encoding) → MakesTheSecrets (make_generators e c)
unfolding make_generators
make_generators-MakesTheSecrets e c = record {
  mnemonic = λ m. made_of _ _ (λ o h.
      let (s, i, q) = map_result-ok (secret_object c) (generate_mnemonic_secret e m "") o h in
      object_named c m s _ o (mnemonic_named e m s i) q);
  postgres = λ m. optional_of _ _ (λ o h. optional_named c m _ _ o (postgres_named e m) h);
  management_rpc_tls = λ m. optional_of _ _ (λ o h. optional_named c m _ _ o (tls_named e m) h);
}
