-- ===== src/Tests/WideMint.antt =====
-- A mint with an Orchard companion, metrics and a management RPC, and the machinery of its
-- generators. The code is in internal/controller/generators.
use cashu_operator.Generators.X509.{Certificate, Crypto}
use cashu_operator.Common.Int.{pos}
use cashu_operator.Controller.Env.{ok}
use cashu_operator.Generators.Mnemonic.RoundTrip.{Below, ended, next}
use cashu_operator.Generators.Interface.{Encoding}
use cashu_operator.Generators.Machinery.{Machinery}
use cashu_operator.Common.{ℕ, true, some, none, List, [], ◌<>◌, suc, ◌∷◌, arith, zero}
use cashu_operator.Generators.Manifest.{OwnerError}
use cashu_operator.Api.{
  SecretKeySelector, OrchardConfig, PrometheusConfig, ManagementRpcConfig, CashuMint,
}
use cashu_operator.Tests.{small_spec, deleted_metadata, first_status}

abbrev pub setup_key : SecretKeySelector
setup_key = record { name = "orchard-setup"; key = "key" }

abbrev pub companion : OrchardConfig
companion = record {
  enabled = true;
  image = "";
  image_pull_policy = "";
  host = "";
  port = pos 0;
  base_path = "";
  log_level = "";
  setup_key_secret_ref = some setup_key;
  throttle_ttl = none;
  throttle_limit = none;
  proxy = "";
  compression = none;
  mint = none;
  bitcoin = none;
  lightning = none;
  taproot_assets = none;
  ai = none;
  service = none;
  ingress = none;
  storage = none;
  resources = none;
  container_security_context = none;
  extra_env = [];
}

abbrev pub monitored : PrometheusConfig
monitored = record { enabled = true; address = ""; port = none }

abbrev pub managed : ManagementRpcConfig
managed = record { enabled = true; address = ""; port = pos 0; tls_secret_ref = none }

abbrev pub wide_mint : CashuMint
wide_mint = record {
  metadata = deleted_metadata;
  spec = record small_spec {
    orchard = some companion;
    prometheus = some monitored;
    management_rpc = some managed;
  };
  status = first_status;
}

abbrev pub no_error : OwnerError
no_error m k = none

unfoldable pub zeros : ℕ → List ℕ
zeros zero = []
zeros (suc k) = 0 ∷ zeros k

pub Below-zeros : (k : ℕ) → Below 256 (zeros k)
unfolding zeros
Below-zeros zero = ended
Below-zeros (suc k) = next (omega arith) (Below-zeros k)

abbrev pub test_certificate : Certificate
test_certificate = record {
  serial_number = 0;
  common_name = "cashu-management-rpc-ca";
  organization = [];
  not_before = record { from = 0; moved_by = pos 0 };
  not_after = record { from = 0; moved_by = pos 0 };
  key_usage = [];
  ext_key_usage = [];
  basic_constraints_valid = true;
  is_ca = true;
  dns_names = [];
  ip_addresses = [];
}

-- Every call succeeds; the text of a certificate is its common name.
abbrev pub test_crypto : Crypto
test_crypto = record {
  now = 1700000000;
  generate_key = λ k bits. ok "key";
  random_int = λ k limit. ok k;
  public_key = λ key. key;
  parse_ip = λ text. text;
  create_certificate = λ template parent key signer. ok template.common_name;
  parse_certificate = λ der. ok test_certificate;
  marshal_key = λ key. key;
  pem = λ type body. type <> body;
}

abbrev pub machinery : Machinery
machinery = record {
  owner_error = no_error;
  random_bytes = λ n. ok (zeros n);
  sha256_first = λ bytes. 102;
  sha256_hex = λ text. text;
  base64_url = λ bytes. "AAAAAAAAAAAAAAAAAAAAAAAAAAAAAAAAAAAAAAAAAAA=";
  trim_space = λ text. text;
  quote = λ text. "\"" <> (text <> "\"");
  format_float = λ bits. "0.020000";
  crypto = test_crypto;
}

abbrev pub encoding : Encoding
encoding = record {
  secret_body = λ s. s.meta.name;
  config_map_body = λ s. s.meta.name;
  service_body = λ s. s.meta.name;
  stateful_set_body = λ s. s.meta.name;
  cron_job_body = λ s. s.meta.name;
  job_body = λ s. s.meta.name;
  pvc_body = λ s. s.meta.name;
  deployment_body = λ s. s.meta.name;
  pod_monitor_body = λ s. s.meta.name;
  ingress_body = λ s. s.meta.name;
  certificate_body = λ s. s.meta.name;
}
