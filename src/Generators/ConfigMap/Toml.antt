-- ===== src/Generators/ConfigMap/Toml.antt =====
-- The tables of config.toml and how internal/controller/generators/configmap.go prints them.
use cashu_operator.Common.Decimal.{int_text}
use cashu_operator.Common.Int.{ℤ}
use cashu_operator.Common.{
  false, true, ◌∷◌, [], none, some, String, List, Bool, Option, if◌then◌else◌, ℕ, ◌<>◌, join, ◌==◌,
  through, map,
}

-- `quoted` is printed by `%q`, `raw` as it stands, `integer` by `%d`, `flag` by `%t` and `float` by
-- `%f`. A `raw` text need not be one value of TOML, nor stand on one line.
pub data Value : Type 0 where
  quoted : String → Value
  raw : String → Value
  integer : ℤ → Value
  flag : Bool → Value
  float : ℕ → Value

-- A name in a document with what it stands for, where the document has it.
abbrev pub Slot {ℓ} : Type ℓ → Type ℓ
Slot A = String × Option A

abbrev pub Field : Type 0
Field = Slot Value

abbrev pub Table : Type 0
Table = Slot (List Field)

-- The slots that a document has.
unfoldable pub kept {ℓ} : {A : Type ℓ} → List (Slot A) → List (String × A)
kept [] = []
kept ((k, none) ∷ s) = kept s
kept ((k, some v) ∷ s) = (k, v) ∷ kept s

abbrev pub text : String → String → Field
text k v = (k, some (quoted v))

abbrev pub set_text : String → String → Field
set_text k v = (k, if v == "" then none else some (quoted v))

abbrev pub number : String → ℤ → Field
number k v = (k, some (integer v))

abbrev pub set_number : String → Option ℤ → Field
set_number k v = (k, through (λ z. integer z) v)

abbrev pub set_flag : String → Option Bool → Field
set_flag k v = (k, through (λ b. flag b) v)

abbrev pub set_float : String → Option ℕ → Field
set_float k v = (k, through (λ x. float x) v)

-- A field that stands there under a test.
abbrev pub field_if : Bool → String → Value → Field
field_if b k v = (k, if b then some v else none)

abbrev pub table : String → List Field → Table
table name fields = (name, some fields)

abbrev pub table_if : Bool → String → List Field → Table
table_if b name fields = (name, if b then some fields else none)

-- A table for a pointer that is not nil.
abbrev pub table_of {ℓ} : {A : Type ℓ} → String → Option A → (A → List Field) → Table
table_of name o fields = (name, through fields o)

abbrev flag_text : Bool → String
flag_text true = "true"
flag_text false = "false"

-- A list is printed by `["%s"]`, with no escape of a quote or a line break in its elements.
unfoldable pub listed : List String → Value
listed us = raw ("[\"" <> (join "\", \"" us <> "\"]"))

unfoldable pub value_text : (String → String) → (ℕ → String) → Value → String
value_text quote format_float (quoted s) = quote s
value_text quote format_float (raw s) = s
value_text quote format_float (integer z) = int_text z
value_text quote format_float (flag b) = flag_text b
value_text quote format_float (float x) = format_float x

unfoldable pub lines_of : (Value → String) → List (String × Value) → String
lines_of print [] = ""
lines_of print ((k, v) ∷ fs) = k <> (" = " <> (print v <> ("\n" <> lines_of print fs)))

unfoldable pub table_text : (Value → String) → String × List Field → String
table_text print (name, fields) = "[" <> (name <> ("]\n" <> lines_of print (kept fields)))

-- A line stays empty between two tables.
unfoldable pub document_text : (Value → String) → List Table → String
document_text print tables = join "\n" (map (table_text print) (kept tables))
