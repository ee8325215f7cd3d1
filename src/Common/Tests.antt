-- ===== src/Common/Tests.antt =====
-- Boolean tests, the conditional, and the `if x == "" { x = d }` of the defaulting code.
use Prim.Native.Nat.{ℕ, compare, Ordering}
use Prim.Native.String.{String}
use text.Mathlib.Text.{◌==◌}
use mathlib.Core.Path.{◌≡◌, refl, ap, sym}
use mathlib.Core.Logic.{◌⊎◌, inl, inr}
use mathlib.Core.Bool.{◌||◌, not, ◌&&◌, Bool, true, false}
use mathlib.Core.Option.{Option, none, some}
use native.Mathlib.Omega.{arith}

-- Numbers; the test of texts is the library's `==`.
infix 50 ◌=?◌
abbrev pub ◌=?◌ : ℕ → ℕ → Bool
a =? b = elim (compare a b) [ Ordering.eq ↦ true | _ ↦ false ]

abbrev pub ltb : ℕ → ℕ → Bool
ltb a b = elim (compare a b) [ Ordering.lt ↦ true | _ ↦ false ]

infix 1 if◌then◌else◌
abbrev pub if◌then◌else◌ {ℓ} : {A : Type ℓ} → Bool → A → A → A
if true then x else y = x
if false then x else y = y

-- What holds of both branches.
pub if_both {ℓ κ} :
    {A : Type ℓ} (P : A → Type κ) (b : Bool) {x y : A} → P x → P y → P (if b then x else y)
if_both P true p q = p
if_both P false p q = q

pub Bool-cases : (b : Bool) → (b ≡ true) ⊎ (b ≡ false)
Bool-cases true = inl refl
Bool-cases false = inr refl

-- The pointer is not nil.
abbrev pub present {ℓ} : {A : Type ℓ} → Option A → Bool
present none = false
present (some a) = true

-- A nil pointer is made to point to the default.
abbrev pub or_some {ℓ} : {A : Type ℓ} → Option A → A → Option A
or_some none d = some d
or_some (some a) d = some a

-- The value that is used where a nil pointer stands for a default.
abbrev pub or_value {ℓ} : {A : Type ℓ} → Option A → A → A
or_value none d = d
or_value (some a) d = a

-- An empty text is replaced by the default.
unfoldable pub or_text : String → String → String
or_text s d = if s == "" then d else s

pub or_text_idem : (s d : String) → or_text (or_text s d) d ≡ or_text s d
unfolding or_text
or_text_idem s d = ground arith

-- `if p != nil { … }` on the value that a pointer leads to.
unfoldable pub through {ℓ κ} : {A : Type ℓ} {B : Type κ} → (A → B) → Option A → Option B
through f none = none
through f (some a) = some (f a)

-- Two functions where the second finds nothing left to do.
pub through_idem_of {ℓ} :
    {A : Type ℓ} (f g : A → A)
    → ((a : A) → g (f a) ≡ f a)
    → (o : Option A) → through g (through f o) ≡ through f o
unfolding through
through_idem_of f g h none = refl
through_idem_of f g h (some a) = ap some (h a)

pub through_idem {ℓ} :
    {A : Type ℓ} {f : A → A}
    → ((a : A) → f (f a) ≡ f a)
    → (o : Option A) → through f (through f o) ≡ through f o
through_idem {f} h o = through_idem_of f f h o

pub or_some_idem {ℓ} : {A : Type ℓ} (o : Option A) (d : A) → or_some (or_some o d) d ≡ or_some o d
or_some_idem none d = refl
or_some_idem (some a) d = refl

pub Option-cases {ℓ} : {A : Type ℓ} (o : Option A) → (o ≡ none) ⊎ ((a : A) × (o ≡ some a))
Option-cases none = inl refl
Option-cases (some a) = inr (a, refl)

pub or_true : (a : Bool) → (a || true) ≡ true
or_true true = refl
or_true false = refl

pub not_and_false : (a b : Bool) → b ≡ false → not (a && b) ≡ true
not_and_false true true h = sym h
not_and_false true false h = refl
not_and_false false b h = refl
