-- ===== src/Generators/ConfigMap/TextWellFormed.antt =====
-- The text of config.toml, read line by line, against the tables that are printed and against what
-- TOML asks of names (internal/controller/generators/configmap.go).
use cashu_operator.Api.{CashuMint}
use cashu_operator.Generators.ConfigMap.{generate_config_toml, config_tables}
use cashu_operator.Generators.ConfigMap.TextOutline.{
  lacks-append, are_lines, outline_of-table_text, outline_of-line,
}
use cashu_operator.Common.Int.{ℤ, pos, negsuc}
use cashu_operator.Generators.ConfigMap.WellFormed.{
  keys_differ, config_tables-are_table_names, config_tables-names, config_tables-keys_differ,
}
use cashu_operator.Generators.ConfigMap.Distinct.{names, all_distinct, all_distinct-kept}
use cashu_operator.Generators.ConfigMap.Outline.{
  every, lacks, line_break, are_sound_keys, both, is_key, outline_of, split_lines, read_lines,
  is_table_name, every-kept,
}
use cashu_operator.Generators.ConfigMap.Toml.{
  Value, Table, kept, Field, raw, quoted, integer, flag, float, table_text, value_text,
  document_text,
}
use cashu_operator.Common.Decimal.{digit, decimal_loop, int_text, decimal}
use Prim.Native.Nat.{ℕ, zero, suc, ◌/◌, ◌%◌}
use mathlib.Core.List.{append-nil}
use text.Mathlib.TextLemmas.{append-nil as text_append-nil, nil-append}
use cashu_operator.Common.{
  sym, false, [], ◌∷◌, ◌++◌, map, true, List, String, Bool, ◌≡◌, ap, join, refl, Bool-cases, ◌=?◌,
  inl, inr, ◌<>◌, ◌∙◌,
}

digit_line : (d : ℕ) → lacks line_break (digit d) ≡ true
unfolding digit lacks
digit_line zero = refl
digit_line (suc zero) = refl
digit_line (suc (suc zero)) = refl
digit_line (suc (suc (suc zero))) = refl
digit_line (suc (suc (suc (suc zero)))) = refl
digit_line (suc (suc (suc (suc (suc zero))))) = refl
digit_line (suc (suc (suc (suc (suc (suc zero)))))) = refl
digit_line (suc (suc (suc (suc (suc (suc (suc zero))))))) = refl
digit_line (suc (suc (suc (suc (suc (suc (suc (suc zero)))))))) = refl
digit_line (suc (suc (suc (suc (suc (suc (suc (suc (suc d))))))))) = refl

decimal_loop_line :
    (fuel n : ℕ) (acc : String)
    → lacks line_break acc ≡ true
    → lacks line_break (decimal_loop fuel n acc) ≡ true
unfolding decimal_loop
decimal_loop_line zero n acc h = h
decimal_loop_line (suc fuel) n acc h =
    let k = lacks-append line_break (digit (n % 10)) acc (digit_line (n % 10)) h in
    elim (Bool-cases (n / 10 =? 0)) [
      | inl e ↦ rw e k
      | inr e ↦ rw e (decimal_loop_line fuel (n / 10) (digit (n % 10) <> acc) k)
    ]

int_text_line : (z : ℤ) → lacks line_break (int_text z) ≡ true
unfolding int_text decimal lacks
int_text_line (pos n) = decimal_loop_line (suc n) n "" refl
int_text_line (negsuc n) =
    lacks-append line_break "-" (decimal (suc n)) refl
      (decimal_loop_line (suc (suc n)) (suc n) "" refl)

-- A value that is printed as it stands has no line break.
abbrev pub raw_is_line : Value → Bool
raw_is_line (raw s) = lacks line_break s
raw_is_line (quoted s) = true
raw_is_line (integer z) = true
raw_is_line (flag b) = true
raw_is_line (float x) = true

abbrev pub raws_are_lines : List Table → Bool
raws_are_lines tables = every (λ t. every (λ f. raw_is_line f.1) (kept t.1)) (kept tables)

every_mono {ℓ} :
    {A : Type ℓ} (p q : A → Bool) (l : List A)
    → ((a : A) → p a ≡ true → q a ≡ true)
    → every p l ≡ true
    → every q l ≡ true
unfolding every
every_mono p q [] f h = refl
every_mono p q (a ∷ l) f h =
    let (x, y) = both (p a) (every p l) h in rw (f a x) (every_mono p q l f y)

-- The tables of a document with their keys
abbrev pub headings : List (String × List Field) → List (String × List String)
headings [] = []
headings ((name, fields) ∷ l) = (name, names (kept fields)) ∷ headings l

headings-names : (l : List (String × List Field)) → names (headings l) ≡ names l
unfolding names
headings-names [] = refl
headings-names ((name, fields) ∷ l) = ap (λ r. name ∷ r) (headings-names l)

headings-keys :
    (l : List (String × List Field))
    → every keys_differ l ≡ true
    → every (λ t. all_distinct t.1) (headings l) ≡ true
unfolding every keys_differ are_sound_keys
headings-keys [] h = refl
headings-keys ((name, fields) ∷ l) h =
    let (x, y) = both (are_sound_keys (names (kept fields))) (every keys_differ l) h in
    let (d, k) = both (all_distinct (names (kept fields))) (every is_key (names (kept fields))) x in
    rw d (headings-keys l y)

module _ (print : Value → String) where
  outline_of-join :
      (l : List (String × List Field))
      → every is_table_name (names l) ≡ true
      → every keys_differ l ≡ true
      → every (λ t. are_lines print (kept t.1)) l ≡ true
      → outline_of (join "\n" (map (table_text print) l)) ≡ ([], headings l)
  unfolding every names keys_differ are_sound_keys join outline_of split_lines read_lines lacks
  outline_of-join [] h k g = refl
  outline_of-join ((name, fields) ∷ []) h k g =
      let (x, y) = both (are_sound_keys (names (kept fields))) true k in
      ap outline_of (sym (text_append-nil (table_text print (name, fields))))
      ∙ outline_of-table_text print name fields "" (both _ _ h).0 (both _ _ x).1 (both _ _ g).0
      ∙ ap (λ r. ([], (name, r) ∷ [])) (append-nil (names (kept fields)))
  outline_of-join ((name, fields) ∷ t ∷ l) h k g =
      let (x, y) = both (are_sound_keys (names (kept fields))) (every keys_differ (t ∷ l)) k in
      let rest = join "\n" (map (table_text print) (t ∷ l)) in
      let e : outline_of ("\n" <> rest) ≡ ([], headings (t ∷ l)) =
        ap outline_of (sym (nil-append ("\n" <> rest)))
        ∙ outline_of-line "" rest refl
        ∙ outline_of-join (t ∷ l) (both _ _ h).1 y (both _ _ g).1 in
      outline_of-table_text print name fields ("\n" <> rest) (both _ _ h).0 (both _ _ x).1
        (both _ _ g).0
      ∙ ap (λ o. ([], (name, names (kept fields) ++ o.0) ∷ o.1)) e
      ∙ ap (λ r. ([], (name, r) ∷ headings (t ∷ l))) (append-nil (names (kept fields)))

-- What the lines of a text read as: every key stands in a table, no two tables have one name, and
-- no table has two keys of one name.
pub record IsWellFormedText (text : String) : Type 0 where
  pub keys_in_tables : (outline_of text).0 ≡ []
  pub tables_differ : all_distinct (names (outline_of text).1) ≡ true
  pub keys_differ_in : every (λ t. all_distinct t.1) (outline_of text).1 ≡ true

module _ (quote : String → String) (format_float : ℕ → String)
    (quote_line : (s : String) → lacks line_break (quote s) ≡ true)
    (float_line : (x : ℕ) → lacks line_break (format_float x) ≡ true) where
  value_line :
      (v : Value) → raw_is_line v ≡ true → lacks line_break (value_text quote format_float v) ≡ true
  unfolding value_text lacks
  value_line (quoted s) h = quote_line s
  value_line (raw s) h = h
  value_line (integer z) h = int_text_line z
  value_line (flag true) h = refl
  value_line (flag false) h = refl
  value_line (float x) h = float_line x

  pub outline_of-generate_config_toml :
      (m : CashuMint) (password : String)
      → raws_are_lines (config_tables m password) ≡ true
      → outline_of (generate_config_toml quote format_float m password)
        ≡ ([], headings (kept (config_tables m password)))
  unfolding generate_config_toml document_text
  outline_of-generate_config_toml m password h =
      outline_of-join (value_text quote format_float) (kept (config_tables m password))
        (every-kept is_table_name (config_tables m password)
          (config_tables-are_table_names m password))
        (config_tables-keys_differ m password)
        (every_mono _ _ (kept (config_tables m password))
          (λ t. every_mono _ _ (kept t.1) (λ f. value_line f.1)) h)

  -- Under the same conditions, every key in the lines of config.toml stands in a table, no two
  -- tables have one name, and no table has two keys of one name.
  pub generate_config_toml-IsWellFormedText :
      (m : CashuMint) (password : String)
      → raws_are_lines (config_tables m password) ≡ true
      → IsWellFormedText (generate_config_toml quote format_float m password)
  generate_config_toml-IsWellFormedText m password h =
      let l = kept (config_tables m password) in
      let e = outline_of-generate_config_toml m password h in
      record {
        keys_in_tables = ap (λ o. o.0) e;
        tables_differ =
            ap (λ o. all_distinct (names o.1)) e
            ∙ ap all_distinct (headings-names l)
            ∙ all_distinct-kept (config_tables m password) (config_tables-names m password);
        keys_differ_in =
            ap (λ o. every (λ t. all_distinct t.1) o.1) e
            ∙ headings-keys l (config_tables-keys_differ m password);
      }
