-- ===== src/Generators/ManagementRpc/Bundle.antt =====
-- internal/controller/generators/management_rpc.go: the keys and certificates of the management
-- endpoint.
use cashu_operator.Api.{default_loopback_host}
use cashu_operator.Common.Int.{negsuc, pos}
use cashu_operator.Generators.Manifest.{Labels}
use cashu_operator.Generators.X509.{
  Crypto, Moment, Certificate, cert_sign, digital_signature, crl_sign, key_encipherment,
  server_auth, client_auth,
}
use cashu_operator.Controller.Env.{Result, ok, err, wrapped}
use cashu_operator.Common.{String, ℕ, ◌*◌, ◌^◌, ◌∷◌, ◌<>◌, [], true, false}

abbrev pub in_text : {A : Type 0} → String → Result A → Result A
in_text text (ok a) = ok a
in_text text (err e) = err (wrapped text e)

-- `x, err := …; if err != nil { return nil, err }`
infixl 5 ◌>>=◌
unfoldable pub ◌>>=◌ : {A B : Type 0} → Result A → (A → Result B) → Result B
ok a >>= f = f a
err e >>= f = err e

-- `24 * time.Hour`, in seconds
abbrev pub day : ℕ
day = 24 * 3600

-- A private key with a certificate for it.
pub record Issued : Type 0 where
  pub key : String
  pub der : String

module _ (c : Crypto) where
  -- `newTLSSerialNumber`, called for the k-th time
  unfoldable pub new_tls_serial_number : ℕ → Result ℕ
  new_tls_serial_number k = c.random_int k (2 ^ 128)

  -- `now.Add(-5 * time.Minute)`
  abbrev pub shortly_before : Moment
  shortly_before = record { from = c.now; moved_by = negsuc 299 }

  abbrev pub after_days : ℕ → Moment
  after_days n = record { from = c.now; moved_by = pos (n * day) }

  -- `caTemplate`
  abbrev pub ca_template : ℕ → Certificate
  ca_template serial = record {
    serial_number = serial;
    common_name = "cashu-management-rpc-ca";
    organization = "cashu-operator" ∷ [];
    not_before = shortly_before;
    not_after = after_days 3650;
    key_usage = cert_sign ∷ crl_sign ∷ digital_signature ∷ [];
    ext_key_usage = [];
    basic_constraints_valid = true;
    is_ca = true;
    dns_names = [];
    ip_addresses = [];
  }

  -- `serverTemplate`
  abbrev pub server_template : ℕ → Certificate
  server_template serial = record {
    serial_number = serial;
    common_name = "cashu-management-rpc-server";
    organization = "cashu-operator" ∷ [];
    not_before = shortly_before;
    not_after = after_days 825;
    key_usage = digital_signature ∷ key_encipherment ∷ [];
    ext_key_usage = server_auth ∷ [];
    basic_constraints_valid = false;
    is_ca = false;
    dns_names = "localhost" ∷ [];
    ip_addresses = c.parse_ip default_loopback_host ∷ [];
  }

  -- `clientTemplate`
  abbrev pub client_template : ℕ → Certificate
  client_template serial = record {
    serial_number = serial;
    common_name = "cashu-management-rpc-client";
    organization = "cashu-operator" ∷ [];
    not_before = shortly_before;
    not_after = after_days 825;
    key_usage = digital_signature ∷ key_encipherment ∷ [];
    ext_key_usage = client_auth ∷ [];
    basic_constraints_valid = false;
    is_ca = false;
    dns_names = [];
    ip_addresses = [];
  }

  -- The authority: its key, its certificate, which it signs itself, and that certificate as read
  -- back.
  unfoldable pub issue_ca : Result (Issued × Certificate)
  issue_ca = do
    key ← in_text "failed to generate management RPC CA key" (c.generate_key 0 2048)
    serial ← in_text "failed to generate management RPC CA serial number" (new_tls_serial_number 0)
    der ←
        in_text "failed to create management RPC CA certificate"
          (c.create_certificate (ca_template serial) (ca_template serial) (c.public_key key) key)
    cert ← in_text "failed to parse management RPC CA certificate" (c.parse_certificate der)
    ok (record { key = key; der = der }, cert)

  -- The part that the code has once for the server and once for the client: the k-th key, and a
  -- certificate for it that the authority signs.
  unfoldable pub issue_leaf : ℕ → String → (ℕ → Certificate) → Issued × Certificate → Result Issued
  issue_leaf k who template (ca, ca_cert) = do
    key ← in_text ("failed to generate management RPC " <> (who <> " key")) (c.generate_key k 2048)
    serial ←
        in_text ("failed to generate management RPC " <> (who <> " serial number"))
          (new_tls_serial_number k)
    der ←
        in_text ("failed to create management RPC " <> (who <> " certificate"))
          (c.create_certificate (template serial) ca_cert (c.public_key key) ca.key)
    ok (record { key = key; der = der })

  abbrev pub certificate_file : Issued → String
  certificate_file i = c.pem "CERTIFICATE" i.der

  abbrev pub key_file : Issued → String
  key_file i = c.pem "RSA PRIVATE KEY" (c.marshal_key i.key)

  -- The map that is returned.
  abbrev pub bundle_files : Issued → Issued → Issued → Labels
  bundle_files ca server client =
      ("ca.pem", certificate_file ca)
      ∷ ("server.pem", certificate_file server)
      ∷ ("server.key", key_file server)
      ∷ ("client.pem", certificate_file client)
      ∷ ("client.key", key_file client)
      ∷ []

  -- `generateManagementRPCTLSBundle`
  unfoldable pub generate_management_rpc_tls_bundle : Result Labels
  generate_management_rpc_tls_bundle = do
    ca ← issue_ca
    server ← issue_leaf 1 "server" server_template ca
    client ← issue_leaf 2 "client" client_template ca
    ok (bundle_files ca.0 server client)
