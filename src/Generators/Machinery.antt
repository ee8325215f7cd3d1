-- ===== src/Generators/Machinery.antt =====
-- What internal/controller/generators calls of the standard library and of controller-runtime.
use cashu_operator.Generators.X509.{Crypto}
use cashu_operator.Controller.Env.{Result}
use cashu_operator.Common.{ℕ, List, String}
use cashu_operator.Generators.Manifest.{OwnerError}

-- `random_bytes n` is `rand.Read` on `n` bytes; `sha256_hex` and `sha256_first` are the hash of a
-- text in hexadecimal and the first byte of the hash of bytes; `base64_url` is
-- `base64.URLEncoding.EncodeToString`, `trim_space` is `strings.TrimSpace`, and `quote` and
-- `format_float` print for `%q` and, from a 64-bit pattern, for `%f`.
pub record Machinery : Type 0 where
  pub owner_error : OwnerError
  pub random_bytes : ℕ → Result (List ℕ)
  pub sha256_first : List ℕ → ℕ
  pub sha256_hex : String → String
  pub base64_url : List ℕ → String
  pub trim_space : String → String
  pub quote : String → String
  pub format_float : ℕ → String
  pub crypto : Crypto
