-- ===== src/Generators/Mnemonic/WordLaws.antt =====
-- Facts of bip39WordList (internal/controller/generators/mnemonic.go).
use cashu_operator.Generators.Mnemonic.WordKey.{word_key, letters}
use cashu_operator.Generators.Mnemonic.Words.{
  get_elem?, position, word_index, bip39_word, length, bip39_word_list, split_words,
}
use cashu_operator.Common.{
  ℕ, List, Bool, true, ◌≡◌, ◌∷◌, refl, ltb, ◌&&◌, map, [], zero, suc, some, through, ap, ◌∙◌, ◌+◌,
  ◌<◌, arith,
}

abbrev follows : ℕ → List ℕ → Bool
follows x [] = true
follows x (y ∷ l) = ltb x y

unfoldable pub increasing : List ℕ → Bool
increasing [] = true
increasing (x ∷ l) = follows x l && increasing l

pub length-bip39_word_list : length bip39_word_list ≡ 2048
unfolding length bip39_word_list split_words
length-bip39_word_list = refl

keys_increase : increasing (map word_key bip39_word_list) ≡ true
unfolding increasing bip39_word_list split_words word_key letters
keys_increase = refl

increasing-cons :
    (x : ℕ) (l : List ℕ) → increasing (x ∷ l) ≡ true → (follows x l ≡ true) × (increasing l ≡ true)
unfolding increasing
increasing-cons x l h = ground arith

above_head :
    (l : List ℕ) (x y : ℕ) (i : ℕ) → increasing (x ∷ l) ≡ true → get_elem? l i ≡ some y → x < y
unfolding increasing get_elem?
above_head [] x y i h e = cc
above_head (z ∷ l) x y zero h e = ground arith
above_head (z ∷ l) x y (suc i) h e =
    let (p, q) = increasing-cons x (z ∷ l) h in
    let r : z < y = above_head l z y i q e in ground arith

position-get_elem? :
    (l : List ℕ) (y i k : ℕ)
    → increasing l ≡ true
    → get_elem? l i ≡ some y
    → position k y l ≡ some (k + i)
unfolding increasing get_elem? position
position-get_elem? [] y i k h e = cc
position-get_elem? (z ∷ l) y zero k h e = ground arith
position-get_elem? (z ∷ l) y (suc i) k h e =
    let r : z < y = above_head l z y i h e in
    let s : position (suc k) y l ≡ some (suc k + i) =
      position-get_elem? l y i (suc k) ((increasing-cons z l h).1) e in
    ground arith

get_elem?-map {ℓ κ} :
    {A : Type ℓ} {B : Type κ} (f : A → B) (l : List A) (a : A) (i : ℕ)
    → get_elem? l i ≡ some a
    → get_elem? (map f l) i ≡ some (f a)
unfolding get_elem? through
get_elem?-map f [] a i e = cc
get_elem?-map f (x ∷ l) a zero e = ap (through f) e
get_elem?-map f (x ∷ l) a (suc i) e = get_elem?-map f l a i e

within {ℓ} : {A : Type ℓ} (l : List A) (i : ℕ) → i < length l → (a : A) × (get_elem? l i ≡ some a)
unfolding get_elem? length
within [] i h = ground arith
within (x ∷ l) zero h = (x, refl)
within (x ∷ l) (suc i) h = within l i (omega arith)

-- Every number below 2048 is the index of a word of the list, and the first four letters of the word
-- give the index back.
pub word_index-bip39_word : (i : ℕ) → i < 2048 → word_index (bip39_word i) ≡ some i
unfolding word_index bip39_word
word_index-bip39_word i h =
    let (w, e) = within bip39_word_list i (rw length-bip39_word_list h) in
    let p =
      position-get_elem? (map word_key bip39_word_list) (word_key w) i 0 keys_increase
        (get_elem?-map word_key bip39_word_list w i e) in
    let q : 0 + i ≡ i = omega arith in rw e (p ∙ ap some q)
