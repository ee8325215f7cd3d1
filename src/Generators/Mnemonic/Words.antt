-- ===== src/Generators/Mnemonic/Words.antt =====
-- The words of a BIP39 phrase (internal/controller/generators/mnemonic.go).
use cashu_operator.Generators.Mnemonic.WordKey.{word_key}
use cashu_operator.Generators.Mnemonic.WordList.{
  words_15, words_0, words_1, words_2, words_3, words_4, words_5, words_6, words_7, words_8,
  words_9, words_10, words_11, words_12, words_13, words_14,
}
use cashu_operator.Common.{
  ℕ, List, String, ◌∷◌, [], suc, Option, slice, ◌++◌, none, find, if◌then◌else◌, len, some, ◌=?◌,
  zero, or_value, map,
}

-- The first words of a text that has one blank between two words.
unfoldable pub split_words : ℕ → String → List String
split_words zero s = []
split_words (suc k) s = slice s 0 (find s " ") ∷ split_words k (slice s (suc (find s " ")) (len s))

-- `bip39WordList`
unfoldable pub bip39_word_list : List String
unfolding split_words
bip39_word_list =
    (split_words 128 words_0
      ++ (split_words 128 words_1 ++ (split_words 128 words_2 ++ split_words 128 words_3)))
    ++ ((split_words 128 words_4
          ++ (split_words 128 words_5 ++ (split_words 128 words_6 ++ split_words 128 words_7)))
        ++ ((split_words 128 words_8
              ++ (split_words 128 words_9
                  ++ (split_words 128 words_10 ++ split_words 128 words_11)))
            ++ (split_words 128 words_12
                ++ (split_words 128 words_13
                    ++ (split_words 128 words_14 ++ split_words 128 words_15)))))

unfoldable pub length {ℓ} : {A : Type ℓ} → List A → ℕ
length [] = 0
length (a ∷ l) = suc (length l)

unfoldable pub get_elem? {ℓ} : {A : Type ℓ} → List A → ℕ → Option A
get_elem? [] i = none
get_elem? (a ∷ l) zero = some a
get_elem? (a ∷ l) (suc i) = get_elem? l i

-- `bip39WordList[i]`
unfoldable pub bip39_word : ℕ → String
bip39_word i = or_value (get_elem? bip39_word_list i) ""

unfoldable pub position : ℕ → ℕ → List ℕ → Option ℕ
position i x [] = none
position i x (y ∷ l) = if x =? y then some i else position (suc i) x l

-- The index of the word that has the same first four letters.
unfoldable pub word_index : String → Option ℕ
word_index w = position 0 (word_key w) (map word_key bip39_word_list)
