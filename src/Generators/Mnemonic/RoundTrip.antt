-- ===== src/Generators/Mnemonic/RoundTrip.antt =====
-- A phrase holds the entropy that it was made of (internal/controller/generators/mnemonic.go).
use cashu_operator.Generators.Mnemonic.WordLaws.{word_index-bip39_word}
use cashu_operator.Generators.Mnemonic.Words.{length, bip39_word, word_index}
use cashu_operator.Generators.Mnemonic.{word_indices, set_bytes, phrase_words}
use cashu_operator.Common.{
  subst, ℕ, List, [], ◌∷◌, String, map, ◌<◌, suc, ◌*◌, Option, ◌/◌, ◌^◌, ◌≡◌, ◌+◌, some, ◌%◌, zero,
  arith, refl, none, ap, sym, ◌∙◌, ◌++◌,
}
use native.Mathlib.Nat.{mul_assoc}

-- Numbers that are all below a bound.
pub data Below (b : ℕ) : List ℕ → Type 0 where
  ended : Below b []
  next : {i : ℕ} {l : List ℕ} → i < b → Below b l → Below b (i ∷ l)

-- The number that a list of 11-bit numbers writes, after a first number.
unfoldable pub joined : ℕ → List ℕ → ℕ
joined v [] = v
joined v (i ∷ l) = joined (v * 2048 + i) l

-- What a wallet reads back: the number that the indices of the words write.
unfoldable pub decode_words : ℕ → List String → Option ℕ
decode_words v [] = some v
decode_words v (w ∷ ws) = elim (word_index w) [
  | none ↦ none
  | some i ↦ decode_words (v * 2048 + i) ws
]

decode_words-bip39_word :
    (l : List ℕ) (v : ℕ) → Below 2048 l → decode_words v (map bip39_word l) ≡ some (joined v l)
unfolding decode_words joined
decode_words-bip39_word [] v ended = refl
decode_words-bip39_word (i ∷ l) v (next h r) =
    rw (decode_words, word_index-bip39_word i h) (decode_words-bip39_word l (v * 2048 + i) r)

word_indices-Below : (k n : ℕ) (acc : List ℕ) → Below 2048 acc → Below 2048 (word_indices k n acc)
unfolding word_indices
word_indices-Below zero n acc h = h
word_indices-Below (suc k) n acc h =
    word_indices-Below k (n / 2048) ((n % 2048) ∷ acc) (next (omega arith) h)

joined-word_indices :
    (k n : ℕ) (acc : List ℕ) → n < 2048 ^ k → joined 0 (word_indices k n acc) ≡ joined n acc
unfolding word_indices joined
joined-word_indices zero n acc h = let e : n ≡ 0 = omega arith in ap (λ k. joined k acc) (sym e)
joined-word_indices (suc k) n acc h =
    let p = joined-word_indices k (n / 2048) ((n % 2048) ∷ acc) (omega arith) in
    let e : (n / 2048) * 2048 + n % 2048 ≡ n = omega arith in p ∙ ap (λ k. joined k acc) e

set_bytes-bound : (l : List ℕ) (v c : ℕ) → Below 256 l → v < c → set_bytes v l < c * 256 ^ length l
unfolding set_bytes length
set_bytes-bound [] v c ended h = omega arith
set_bytes-bound (b ∷ l) v c (next g r) h =
    let p = set_bytes-bound l (v * 256 + b) (c * 256) r (omega arith) in
    let e : 256 ^ suc (length l) ≡ 256 * 256 ^ length l = omega arith in
    let f : c * 256 * 256 ^ length l ≡ c * (256 * 256 ^ length l) =
      mul_assoc c 256 (256 ^ length l) in
    rw (e, ← f) p

set_bytes-append : (l : List ℕ) (v x : ℕ) → set_bytes v (l ++ (x ∷ [])) ≡ set_bytes v l * 256 + x
unfolding set_bytes
set_bytes-append [] v x = refl
set_bytes-append (b ∷ l) v x = set_bytes-append l (v * 256 + b) x

length-word_indices : (n : ℕ) → length (map bip39_word (word_indices 24 n [])) ≡ 24
unfolding length word_indices
length-word_indices n = refl

phrase_number :
    (entropy : List ℕ) (x : ℕ)
    → length entropy ≡ 32
    → Below 256 entropy
    → x < 256
    → set_bytes 0 entropy * 256 + x < 2048 ^ 24
phrase_number entropy x n h g =
    let p : set_bytes 0 entropy < 1 * 256 ^ 32 =
      subst (λ k. set_bytes 0 entropy < 1 * 256 ^ k) n
        (set_bytes-bound entropy 0 1 h (omega arith)) in
    omega arith

-- For 32 bytes of entropy, the 24 words of a phrase read back as the entropy followed by the byte
-- of its checksum.
pub decode_words-phrase_words :
    (sha256_first : List ℕ → ℕ) (entropy : List ℕ)
    → length entropy ≡ 32
    → Below 256 entropy
    → sha256_first entropy < 256
    → (length (phrase_words sha256_first entropy) ≡ 24)
      × (decode_words 0 (phrase_words sha256_first entropy)
          ≡ some (set_bytes 0 entropy * 256 + sha256_first entropy))
unfolding phrase_words set_bytes joined
decode_words-phrase_words sha256_first entropy n h g =
    let x = sha256_first entropy in
    let v = set_bytes 0 entropy * 256 + x in
    let d = decode_words-bip39_word (word_indices 24 v []) 0 (word_indices-Below 24 v [] ended) in
    let j = joined-word_indices 24 v [] (phrase_number entropy x n h g) in
    rw (set_bytes-append entropy 0 x) (length-word_indices v, d ∙ ap some j)
