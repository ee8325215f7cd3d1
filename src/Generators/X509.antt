-- ===== src/Generators/X509.antt =====
-- What internal/controller/generators/management_rpc.go uses of crypto/rand, crypto/rsa,
-- crypto/x509 and encoding/pem.
use cashu_operator.Controller.Env.{Result}
use cashu_operator.Common.Int.{ℤ}
use cashu_operator.Common.{ℕ, String, List, Bool}

pub data KeyUsage : Type 0 where
  cert_sign crl_sign digital_signature key_encipherment : KeyUsage

pub data ExtKeyUsage : Type 0 where
  server_auth client_auth : ExtKeyUsage

-- A point of time, moved by `time.Time.Add`; in seconds.
pub record Moment : Type 0 where
  pub from : ℕ
  pub moved_by : ℤ

-- `x509.Certificate`, with the fields that the code sets.
pub record Certificate : Type 0 where
  pub serial_number : ℕ
  pub common_name : String
  pub organization : List String
  pub not_before : Moment
  pub not_after : Moment
  pub key_usage : List KeyUsage
  pub ext_key_usage : List ExtKeyUsage
  pub basic_constraints_valid : Bool
  pub is_ca : Bool
  pub dns_names : List String
  pub ip_addresses : List String

-- The answers of the libraries. Keys, signed certificates and files are texts, on which the code
-- does not look. `generate_key k bits` and `random_int k limit` are the k-th call of
-- `rsa.GenerateKey` and of `rand.Int`, `public_key` is the field of a private key,
-- `create_certificate` takes the template, the parent, the public key and the key that signs, and
-- `pem` takes the type of the block.
pub record Crypto : Type 0 where
  pub now : ℕ
  pub generate_key : ℕ → ℕ → Result String
  pub random_int : ℕ → ℕ → Result ℕ
  pub public_key : String → String
  pub parse_ip : String → String
  pub create_certificate : Certificate → Certificate → String → String → Result String
  pub parse_certificate : String → Result Certificate
  pub marshal_key : String → String
  pub pem : String → String → String
