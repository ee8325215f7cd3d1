-- ===== src/Generators/ConfigMap/TextOutline.antt =====
-- What the text of config.toml reads as, line by line
-- (internal/controller/generators/configmap.go).
use cashu_operator.Generators.ConfigMap.Toml.{Value, lines_of, table_text, Field, kept}
use cashu_operator.Generators.ConfigMap.Distinct.{new_name, names}
use cashu_operator.Generators.ConfigMap.Outline.{
  lacks, before, split_lines, outline_of, is_key, read_lines, line_break, Outline, read_line,
  left_bracket, extend, space, both, every, is_table_name, right_bracket,
}
use Prim.Native.Char.{Char, code}
use text.Mathlib.TextLemmas.{append_assoc, nil-append, cons-append}
use Prim.Native.String.{[], ◌∷◌}
use cashu_operator.Common.{
  ◌=?◌, ◌∷◌, [], ℕ, String, ◌≡◌, true, false, ◌<>◌, ap, ◌&&◌, refl, ◌∙◌, sym, Bool, List, ◌++◌,
}

lacks-cons :
    (n : ℕ) (c : Char) (s : String)
    → lacks n (c ∷ s) ≡ true
    → ((code c =? n) ≡ false) × (lacks n s ≡ true)
unfolding lacks
lacks-cons n c s h = new_name (code c =? n) (lacks n s) h

pub lacks-append :
    (n : ℕ) (a b : String) → lacks n a ≡ true → lacks n b ≡ true → lacks n (a <> b) ≡ true
unfolding lacks
lacks-append n [] b h k = rw (nil-append b) k
lacks-append n (c ∷ a) b h k =
    let (p, q) = lacks-cons n c a h in rw (cons-append c a b, p) (lacks-append n a b q k)

before_lem :
    (n : ℕ) (k x : String) (c : Char)
    → lacks n k ≡ true
    → (code c =? n) ≡ true
    → before n (k <> (c ∷ x)) ≡ k
unfolding before
before_lem n [] x c h e = rw (nil-append (c ∷ x), e) refl
before_lem n (d ∷ k) x c h e =
    let (p, q) = lacks-cons n d k h in
    rw (cons-append d k (c ∷ x), p) (ap (λ s. d ∷ s) (before_lem n k x c q e))

break_append : (s : String) → "\n" <> s ≡ "\n" ∷ s
break_append s = cons-append "\n" "" s ∙ ap (λ t. "\n" ∷ t) (nil-append s)

equals_append : (v : String) → " = " <> v ≡ " " ∷ ("= " <> v)
equals_append v = cons-append " " "= " v

split_lines-line :
    (l s : String) → lacks line_break l ≡ true → split_lines (l <> ("\n" <> s)) ≡ l ∷ split_lines s
unfolding split_lines
split_lines-line [] s h = rw (nil-append ("\n" <> s), break_append s) refl
split_lines-line (c ∷ l) s h =
    let (p, q) = lacks-cons line_break c l h in
    rw (cons-append c l ("\n" <> s), p) (ap (extend c) (split_lines-line l s q))

pub outline_of-line :
    (l s : String)
    → lacks line_break l ≡ true
    → outline_of (l <> ("\n" <> s)) ≡ read_line l (outline_of s)
unfolding outline_of read_lines
outline_of-line l s h = ap read_lines (split_lines-line l s h)

read_line-key :
    (k v : String) (o : Outline)
    → is_key k ≡ true
    → read_line (k <> (" = " <> v)) o ≡ (k ∷ o.0, o.1)
unfolding is_key
read_line-key [] v o h = cc
read_line-key (c ∷ k) v o h =
    let (p, q) =
      new_name (code c =? left_bracket) (lacks space (c ∷ k) && lacks line_break (c ∷ k)) h in
    rw (equals_append v, cons-append c k (" " ∷ ("= " <> v)), p)
      (ap (λ z. (z ∷ o.0, o.1))
        (sym (ap (before space) (cons-append c k (" " ∷ ("= " <> v))))
          ∙ before_lem space (c ∷ k) ("= " <> v) " " (both _ _ q).0 refl))

key_line :
    (k v : String)
    → is_key k ≡ true
    → lacks line_break v ≡ true
    → lacks line_break (k <> (" = " <> v)) ≡ true
unfolding is_key lacks
key_line [] v h g = cc
key_line (c ∷ k) v h g =
    let (p, q) =
      new_name (code c =? left_bracket) (lacks space (c ∷ k) && lacks line_break (c ∷ k)) h in
    lacks-append line_break (c ∷ k) (" = " <> v) (both _ _ q).1
      (lacks-append line_break " = " v refl g)

regroup :
    (a b c d l r : String) → (a <> (b <> (c <> (d <> l)))) <> r ≡ (a <> (b <> c)) <> (d <> (l <> r))
regroup a b c d l r = simp (append_assoc)

every_cons {ℓ} :
    {A : Type ℓ} (p : A → Bool) (a : A) (l : List A)
    → every p (a ∷ l) ≡ true
    → (p a ≡ true) × (every p l ≡ true)
unfolding every
every_cons p a l h = both (p a) (every p l) h

table_line :
    (n l r : String) → ("[" <> (n <> ("]\n" <> l))) <> r ≡ ("[" <> (n <> "]")) <> ("\n" <> (l <> r))
table_line n l r =
    let e : "]\n" <> l ≡ "]" <> ("\n" <> l) = append_assoc "]" "\n" l in rw e (simp (append_assoc))

read_line-header :
    (n : String) (o : Outline)
    → is_table_name n ≡ true
    → read_line ("[" <> (n <> "]")) o ≡ ([], (n, o.0) ∷ o.1)
unfolding is_table_name
read_line-header n o h =
    rw (cons-append "[" "" (n <> "]"), nil-append (n <> "]"))
      (ap (λ z. ([], (z, o.0) ∷ o.1)) (before_lem right_bracket n "" "]" (both _ _ h).0 refl))

header_line : (n : String) → is_table_name n ≡ true → lacks line_break ("[" <> (n <> "]")) ≡ true
unfolding is_table_name lacks
header_line n h =
    lacks-append line_break "[" (n <> "]") refl (lacks-append line_break n "]" (both _ _ h).1 refl)

module _ (print : Value → String) where
  -- Each value of a table is printed without a line break.
  abbrev pub are_lines : List (String × Value) → Bool
  are_lines = every (λ f. lacks line_break (print f.1))

  outline_of-lines_of :
      (fs : List (String × Value)) (rest : String)
      → every is_key (names fs) ≡ true
      → are_lines fs ≡ true
      → outline_of (lines_of print fs <> rest)
        ≡ (names fs ++ (outline_of rest).0, (outline_of rest).1)
  unfolding lines_of names
  outline_of-lines_of [] rest h g = ap outline_of (nil-append rest)
  outline_of-lines_of ((k, v) ∷ fs) rest h g =
      let (hk, hs) = every_cons is_key k (names fs) h in
      let (gv, gs) = every_cons (λ f. lacks line_break (print f.1)) (k, v) fs g in
      ap outline_of (regroup k " = " (print v) "\n" (lines_of print fs) rest)
      ∙ outline_of-line (k <> (" = " <> print v)) (lines_of print fs <> rest)
          (key_line k (print v) hk gv)
      ∙ read_line-key k (print v) (outline_of (lines_of print fs <> rest)) hk
      ∙ ap (λ o. (k ∷ o.0, o.1)) (outline_of-lines_of fs rest hs gs)

  pub outline_of-table_text :
      (name : String) (fields : List Field) (rest : String)
      → is_table_name name ≡ true
      → every is_key (names (kept fields)) ≡ true
      → are_lines (kept fields) ≡ true
      → outline_of (table_text print (name, fields) <> rest)
        ≡ ([], (name, names (kept fields) ++ (outline_of rest).0) ∷ (outline_of rest).1)
  unfolding table_text
  outline_of-table_text name fields rest h g p =
      ap outline_of (table_line name (lines_of print (kept fields)) rest)
      ∙ outline_of-line ("[" <> (name <> "]")) (lines_of print (kept fields) <> rest)
          (header_line name h)
      ∙ read_line-header name (outline_of (lines_of print (kept fields) <> rest)) h
      ∙ ap (λ o. ([], (name, o.0) ∷ o.1)) (outline_of-lines_of (kept fields) rest g p)
