-- ===== src/Generators/ManagementRpc/Signed.antt =====
-- What the bundle of internal/controller/generators/management_rpc.go holds, and what it means
-- where there is none.
use cashu_operator.Generators.Manifest.{Labels}
use cashu_operator.Common.{String, ℕ, ◌≡◌, lookup, ◌^◌, refl, map, ◌∷◌, [], some}
use cashu_operator.Generators.X509.{Crypto, Certificate}
use cashu_operator.Controller.Env.{Error, Result, ok, wrapped, err}
use cashu_operator.Generators.ManagementRpc.Bundle.{
  ◌>>=◌, Issued, issue_ca, issue_leaf, generate_management_rpc_tls_bundle, new_tls_serial_number,
  in_text, ca_template, server_template, client_template, certificate_file, key_file,
}

abbrev OfResult : {A : Type 0} → (A → Type 0) → (Error → Type 0) → Result A → Type 0
OfResult P E (ok a) = P a
OfResult P E (err e) = E e

-- What holds of the value and of the error of a computation.
record Yields {A : Type 0} (P : A → Type 0) (E : Error → Type 0) (r : Result A) : Type 0 where
  of_result : OfResult P E r

Yields-ok : {A : Type 0} {P : A → Type 0} {E : Error → Type 0} {a : A} → P a → Yields P E (ok a)
Yields-ok p = record { of_result = p }

Yields-bind :
    {A B : Type 0} {P : A → Type 0} {Q : B → Type 0} {E : Error → Type 0} {r : Result A}
    {f : A → Result B}
    → Yields P E r
    → ((a : A) → P a → Yields Q E (f a))
    → Yields Q E (r >>= f)
unfolding ◌>>=◌
Yields-bind {r = ok a} h k = k a h.of_result
Yields-bind {r = err e} h k = record { of_result = h.of_result }

Yields-call :
    {A : Type 0} {E : Error → Type 0} (text : String) (r : Result A)
    → ((e : Error) → r ≡ err e → E (wrapped text e))
    → Yields (λ a. r ≡ ok a) E (in_text text r)
Yields-call text (ok a) h = record { of_result = refl }
Yields-call text (err e) h = record { of_result = h e refl }

-- A call of the libraries that gave the error.
pub data FailedCall (c : Crypto) (e : Error) : Type 0 where
  key_failed : (k : ℕ) → c.generate_key k 2048 ≡ err e → FailedCall c e
  serial_failed : (k : ℕ) → c.random_int k (2 ^ 128) ≡ err e → FailedCall c e
  signature_failed :
      (template parent : Certificate) (key signer : String)
      → c.create_certificate template parent key signer ≡ err e
      → FailedCall c e
  reading_failed : (der : String) → c.parse_certificate der ≡ err e → FailedCall c e

-- The error tells of a call that failed.
pub record HasFailedCall (c : Crypto) (e : Error) : Type 0 where
  pub text : String
  pub cause : Error
  pub is_wrapped : e ≡ wrapped text cause
  pub failed_call : FailedCall c cause

-- The certificate is for the k-th key, under a fresh serial number, by a parent and its key.
pub record IsIssued (c : Crypto) (k : ℕ) (template : ℕ → Certificate) (parent : ℕ → Certificate)
    (signer : String) (i : Issued) : Type 0 where
  pub serial : ℕ
  pub drawn : c.random_int k (2 ^ 128) ≡ ok serial
  pub generated : c.generate_key k 2048 ≡ ok i.key
  pub signed :
      c.create_certificate (template serial) (parent serial) (c.public_key i.key) signer ≡ ok i.der

-- Of the authority: it signs itself, and its certificate was read back.
pub record IsAuthority (c : Crypto) (a : Issued × Certificate) : Type 0 where
  pub issued : IsIssued c 0 (ca_template c) (ca_template c) a.0.key a.0
  pub read : c.parse_certificate a.0.der ≡ ok a.1

abbrev pub IsLeaf : Crypto → ℕ → (ℕ → Certificate) → Issued × Certificate → Issued → Type 0
IsLeaf c k template (ca, ca_cert) i = IsIssued c k template (λ serial. ca_cert) ca.key i

-- The five files of a bundle: the certificate of an authority, and a certificate with its own
-- private key for the server and for the client, both signed by that authority.
pub record IsSignedBundle (c : Crypto) (b : Labels) : Type 0 where
  pub authority : Issued × Certificate
  pub server : Issued
  pub client : Issued
  pub is_authority : IsAuthority c authority
  pub is_server : IsLeaf c 1 (server_template c) authority server
  pub is_client : IsLeaf c 2 (client_template c) authority client
  pub names :
      map (λ f. f.0) b ≡ "ca.pem" ∷ "server.pem" ∷ "server.key" ∷ "client.pem" ∷ "client.key" ∷ []
  pub ca_pem : lookup "ca.pem" b ≡ some (certificate_file c authority.0)
  pub server_pem : lookup "server.pem" b ≡ some (certificate_file c server)
  pub server_key : lookup "server.key" b ≡ some (key_file c server)
  pub client_pem : lookup "client.pem" b ≡ some (certificate_file c client)
  pub client_key : lookup "client.key" b ≡ some (key_file c client)

abbrev pub OfBundle : Crypto → Result Labels → Type 0
OfBundle c (ok b) = IsSignedBundle c b
OfBundle c (err e) = HasFailedCall c e

module _ (c : Crypto) where
  failed_by : {text : String} {e : Error} → FailedCall c e → HasFailedCall c (wrapped text e)
  failed_by h = record { text = _; cause = _; is_wrapped = refl; failed_call = h }

  Yields-issue_ca : Yields (IsAuthority c) (HasFailedCall c) (issue_ca c)
  unfolding issue_ca new_tls_serial_number
  Yields-issue_ca =
      Yields-bind (Yields-call _ _ (λ e h. failed_by (key_failed 0 h))) (λ key generated.
        Yields-bind (Yields-call _ _ (λ e h. failed_by (serial_failed 0 h))) (λ serial drawn.
          Yields-bind (Yields-call _ _ (λ e h. failed_by (signature_failed _ _ _ _ h)))
            (λ der signed.
              Yields-bind (Yields-call _ _ (λ e h. failed_by (reading_failed _ h))) (λ cert read.
                Yields-ok (record {
                  issued = record {
                    serial = serial;
                    drawn = drawn;
                    generated = generated;
                    signed = signed;
                  };
                  read = read;
                })))))

  Yields-issue_leaf :
      (k : ℕ) (who : String) (template : ℕ → Certificate) (a : Issued × Certificate)
      → Yields (IsLeaf c k template a) (HasFailedCall c) (issue_leaf c k who template a)
  unfolding issue_leaf new_tls_serial_number
  Yields-issue_leaf k who template a =
      Yields-bind (Yields-call _ _ (λ e h. failed_by (key_failed k h))) (λ key generated.
        Yields-bind (Yields-call _ _ (λ e h. failed_by (serial_failed k h))) (λ serial drawn.
          Yields-bind (Yields-call _ _ (λ e h. failed_by (signature_failed _ _ _ _ h)))
            (λ der signed.
              Yields-ok (record {
                serial = serial;
                drawn = drawn;
                generated = generated;
                signed = signed;
              }))))

  Yields-bundle : Yields (IsSignedBundle c) (HasFailedCall c) (generate_management_rpc_tls_bundle c)
  unfolding generate_management_rpc_tls_bundle lookup
  Yields-bundle = Yields-bind Yields-issue_ca (λ a authority.
      Yields-bind (Yields-issue_leaf 1 "server" (server_template c) a) (λ server is_server.
        Yields-bind (Yields-issue_leaf 2 "client" (client_template c) a) (λ client is_client.
          Yields-ok (record {
            authority = a;
            server = server;
            client = client;
            is_authority = authority;
            is_server = is_server;
            is_client = is_client;
            names = refl;
            ca_pem = refl;
            server_pem = refl;
            server_key = refl;
            client_pem = refl;
            client_key = refl;
          }))))

  -- Whatever the libraries answer, the code either returns the five files, in which the server's
  -- and the client's certificates are for the keys beside them, signed with the key of the
  -- authority whose certificate is in `ca.pem`, or it returns the wrapped error of a call of the
  -- libraries that failed.
  pub generate_management_rpc_tls_bundle-IsSignedBundle :
      OfBundle c (generate_management_rpc_tls_bundle c)
  generate_management_rpc_tls_bundle-IsSignedBundle =
      by_answer (generate_management_rpc_tls_bundle c) Yields-bundle
    where
      by_answer : (r : Result Labels) → Yields (IsSignedBundle c) (HasFailedCall c) r → OfBundle c r
      by_answer (ok b) h = h.of_result
      by_answer (err e) h = h.of_result
