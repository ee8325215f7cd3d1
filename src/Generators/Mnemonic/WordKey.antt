-- ===== src/Generators/Mnemonic/WordKey.antt =====
-- The key of a word of a BIP39 phrase.
use Prim.Native.Nat.{ℕ, zero, suc, ◌+◌, ◌*◌}
use Prim.Native.Char.{code}
use Prim.Native.String.{String, [], ◌∷◌}

-- The number that the next letters of a word write in base 128; a short word is filled up.
unfoldable pub letters : ℕ → ℕ → String → ℕ
letters zero v s = v
letters (suc k) v [] = letters k (v * 128) []
letters (suc k) v (c ∷ s) = letters k (v * 128 + code c) s

-- What the first four letters of a word write, by which BIP39 tells the words apart.
unfoldable pub word_key : String → ℕ
word_key = letters 4 0
