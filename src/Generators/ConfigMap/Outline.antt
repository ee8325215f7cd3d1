-- ===== src/Generators/ConfigMap/Outline.antt =====
-- The names of the tables and keys in the text of a config.toml, read line by line, apart from the
-- code of internal/controller/generators/configmap.go that prints it.
use Prim.Native.Char.{Char, code}
use Prim.Native.String.{[], ◌∷◌}
use cashu_operator.Common.{◌=?◌}
use cashu_operator.Generators.ConfigMap.Toml.{kept, Slot}
use cashu_operator.Generators.ConfigMap.Distinct.{names, all_distinct, all_distinct-kept}
use cashu_operator.Common.{
  ℕ, String, List, Bool, true, ◌∷◌, false, ◌&&◌, not, if◌then◌else◌, ◌≡◌, [], arith, some, refl,
  none,
}

-- The text has no character of the code.
unfoldable pub lacks : ℕ → String → Bool
lacks n [] = true
lacks n (c ∷ s) = not (code c =? n) && lacks n s

abbrev pub line_break : ℕ
line_break = 10

abbrev pub space : ℕ
space = 32

abbrev pub left_bracket : ℕ
left_bracket = 91

abbrev pub right_bracket : ℕ
right_bracket = 93

abbrev pub extend : Char → List String → List String
extend c [] = (c ∷ []) ∷ []
extend c (l ∷ ls) = (c ∷ l) ∷ ls

unfoldable pub split_lines : String → List String
split_lines [] = "" ∷ []
split_lines (c ∷ s) =
    let ls = split_lines s in if code c =? line_break then "" ∷ ls else extend c ls

-- The characters before the first of a code.
unfoldable pub before : ℕ → String → String
before n [] = []
before n (c ∷ s) = let r = before n s in if code c =? n then [] else c ∷ r

-- The keys that stand in front of any table, and the tables with their keys, both in order.
abbrev pub Outline : Type 0
Outline = List String × List (String × List String)

-- A line that is not empty is the header of a table where it starts with a bracket, and sets a key
-- otherwise.
abbrev pub read_line : String → Outline → Outline
read_line [] o = o
read_line (c ∷ s) (keys, tables) =
    if code c =? left_bracket
    then ([], (before right_bracket s, keys) ∷ tables)
    else (before space (c ∷ s) ∷ keys, tables)

unfoldable pub read_lines : List String → Outline
read_lines [] = ([], [])
read_lines (l ∷ ls) = read_line l (read_lines ls)

unfoldable pub outline_of : String → Outline
outline_of s = read_lines (split_lines s)

unfoldable pub every {ℓ} : {A : Type ℓ} → (A → Bool) → List A → Bool
every p [] = true
every p (a ∷ l) = p a && every p l

-- A name that reads as a key.
unfoldable pub is_key : String → Bool
unfolding lacks
is_key [] = false
is_key (c ∷ s) = not (code c =? left_bracket) && (lacks space (c ∷ s) && lacks line_break (c ∷ s))

-- A name that reads as one of a table.
unfoldable pub is_table_name : String → Bool
unfolding lacks
is_table_name s = lacks right_bracket s && lacks line_break s

unfoldable pub are_sound_keys : List String → Bool
are_sound_keys l = all_distinct l && every is_key l

pub both : (a b : Bool) → (a && b) ≡ true → (a ≡ true) × (b ≡ true)
both a b h = ground arith

pub every-kept {ℓ} :
    {A : Type ℓ} (p : String → Bool) (s : List (Slot A))
    → every p (names s) ≡ true
    → every p (names (kept s)) ≡ true
unfolding every names kept
every-kept p [] h = refl
every-kept p ((k, none) ∷ s) h = every-kept p s (both (p k) (every p (names s)) h).1
every-kept p ((k, some v) ∷ s) h =
    let (a, b) = both (p k) (every p (names s)) h in rw a (every-kept p s b)

pub are_sound_keys-kept {ℓ} :
    {A : Type ℓ} (s : List (Slot A))
    → are_sound_keys (names s) ≡ true
    → are_sound_keys (names (kept s)) ≡ true
unfolding are_sound_keys
are_sound_keys-kept s h =
    let (a, b) = both (all_distinct (names s)) (every is_key (names s)) h in
    rw (all_distinct-kept s a) (every-kept is_key s b)
