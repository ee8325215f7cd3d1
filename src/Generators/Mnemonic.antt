-- ===== src/Generators/Mnemonic.antt =====
-- internal/controller/generators/mnemonic.go. Bytes are numbers below 256, and the big integer is
-- a number: its low 11 bits are the remainder by 2 ^ 11.
pub mod WordList
pub mod WordKey
pub mod Words
pub mod WordLaws
pub mod RoundTrip
use cashu_operator.Generators.Names.{component_labels}
use cashu_operator.Controller.Secrets.{mnemonic_secret_name}
use cashu_operator.Generators.Mnemonic.Words.{bip39_word}
use cashu_operator.Generators.Manifest.{SecretManifest}
use cashu_operator.Controller.Env.{Result, err, wrapped, ok, secret}
use cashu_operator.Generators.Machinery.{Machinery}
use cashu_operator.Api.{CashuMint}
use cashu_operator.Common.{
  ℕ, List, ◌∷◌, String, suc, ◌*◌, ◌/◌, map, if◌then◌else◌, ◌+◌, ◌^◌, ◌==◌, ◌%◌, ◌++◌, join, [],
  none, zero, some,
}

-- `new(big.Int).SetBytes`, with the number that stands before the bytes
unfoldable pub set_bytes : ℕ → List ℕ → ℕ
set_bytes v [] = v
set_bytes v (b ∷ l) = set_bytes (v * 256 + b) l

-- The loop that takes the low bits off and shifts, from the last word to the first.
unfoldable pub word_indices : ℕ → ℕ → List ℕ → List ℕ
word_indices zero combined acc = acc
word_indices (suc k) combined acc = word_indices k (combined / 2 ^ 11) ((combined % 2 ^ 11) ∷ acc)

unfoldable pub phrase_words : (List ℕ → ℕ) → List ℕ → List String
phrase_words sha256_first entropy =
    map bip39_word (word_indices 24 (set_bytes 0 (entropy ++ (sha256_first entropy ∷ []))) [])

-- `generateBIP39Mnemonic`
unfoldable pub generate_bip39_mnemonic : (ℕ → Result (List ℕ)) → (List ℕ → ℕ) → Result String
generate_bip39_mnemonic random_bytes sha256_first = elim (random_bytes 32) [
  | err e ↦ err (wrapped "failed to read random entropy" e)
  | ok entropy ↦ ok (join " " (phrase_words sha256_first entropy))
]

-- An existing phrase, or a new one.
unfoldable pub mnemonic_for : (ℕ → Result (List ℕ)) → (List ℕ → ℕ) → String → Result String
mnemonic_for random_bytes sha256_first existing =
    if existing == ""
    then elim (generate_bip39_mnemonic random_bytes sha256_first) [
      | err e ↦ err (wrapped "failed to generate BIP39 mnemonic" e)
      | ok phrase ↦ ok phrase
    ]
    else ok existing

unfoldable pub mnemonic_secret_manifest : CashuMint → String → SecretManifest
mnemonic_secret_manifest m phrase = record {
  meta = record {
    name = mnemonic_secret_name m.metadata.name;
    namespace = m.metadata.namespace;
    labels = component_labels "cashu-mint" "mnemonic" m;
    annotations = none;
    owner = some m.metadata.name;
  };
  string_data = ("mnemonic", phrase) ∷ [];
}

-- `GenerateMnemonicSecret`
unfoldable pub generate_mnemonic_secret : Machinery → CashuMint → String → Result SecretManifest
generate_mnemonic_secret e m existing = elim (mnemonic_for e.random_bytes e.sha256_first existing) [
  | err x ↦ err x
  | ok phrase ↦ elim (e.owner_error m secret) [
    | none ↦ ok (mnemonic_secret_manifest m phrase)
    | some x ↦ err (wrapped "failed to set controller reference on mnemonic secret" x)
  ]
]
