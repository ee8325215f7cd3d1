-- ===== src/Common/Reading.antt =====
-- Reading back what `%d` prints (Common/Decimal.antt).
use Prim.Native.Nat.{ℕ, zero, suc, ◌+◌, ◌-◌, ◌*◌, ◌/◌, ◌%◌, ◌<◌}
use Prim.Native.Char.{Char, code}
use Prim.Native.String.{String, [], ◌∷◌, ◌++◌ as ◌<>◌}
use mathlib.Core.Path.{◌≡◌, refl, ◌∙◌, ap}
use text.Mathlib.TextLemmas.{cons-append, nil-append}
use mathlib.Core.Logic.{inl, inr}
use mathlib.Core.Bool.{Bool, false}
use native.Mathlib.Omega.{arith}
use cashu_operator.Common.Tests.{◌=?◌, if◌then◌else◌, Bool-cases}
use cashu_operator.Common.Int.{ℤ, pos, negsuc}
use cashu_operator.Common.Decimal.{digit, decimal_loop, decimal, int_text}

-- The number that the digits write behind those of `v`.
unfoldable pub read_digits : ℕ → String → ℕ
read_digits v [] = v
read_digits v (c ∷ s) = read_digits (v * 10 + (code c - 48)) s

abbrev negative : ℕ → ℤ
negative zero = pos 0
negative (suc n) = negsuc n

abbrev is_minus : String → Bool
is_minus [] = false
is_minus (c ∷ s) = code c =? 45

abbrev rest : String → String
rest [] = []
rest (c ∷ s) = s

-- An integer in decimal, with a minus where it is below 0.
unfoldable pub read_int : String → ℤ
read_int s = if is_minus s then negative (read_digits 0 (rest s)) else pos (read_digits 0 s)

single : (c : Char) (s : String) → (c ∷ []) <> s ≡ c ∷ s
single c s = cons-append c [] s ∙ ap (λ t. c ∷ t) (nil-append s)

read_digits-digit :
    (v d : ℕ) (acc : String)
    → d < 10
    → read_digits v (digit d <> acc) ≡ read_digits (v * 10 + d) acc
unfolding read_digits digit
read_digits-digit v zero acc h = ap (read_digits v) (single "0" acc)
read_digits-digit v (suc zero) acc h = ap (read_digits v) (single "1" acc)
read_digits-digit v (suc (suc zero)) acc h = ap (read_digits v) (single "2" acc)
read_digits-digit v (suc (suc (suc zero))) acc h = ap (read_digits v) (single "3" acc)
read_digits-digit v (suc (suc (suc (suc zero)))) acc h = ap (read_digits v) (single "4" acc)
read_digits-digit v (suc (suc (suc (suc (suc zero))))) acc h = ap (read_digits v) (single "5" acc)
read_digits-digit v (suc (suc (suc (suc (suc (suc zero)))))) acc h =
    ap (read_digits v) (single "6" acc)
read_digits-digit v (suc (suc (suc (suc (suc (suc (suc zero))))))) acc h =
    ap (read_digits v) (single "7" acc)
read_digits-digit v (suc (suc (suc (suc (suc (suc (suc (suc zero)))))))) acc h =
    ap (read_digits v) (single "8" acc)
read_digits-digit v (suc (suc (suc (suc (suc (suc (suc (suc (suc zero))))))))) acc h =
    ap (read_digits v) (single "9" acc)
read_digits-digit v (suc (suc (suc (suc (suc (suc (suc (suc (suc (suc (d))))))))))) acc h =
    absurd (omega arith)

-- The fuel is enough.
read_digits-decimal_loop :
    (fuel n : ℕ) (acc : String)
    → n < fuel
    → read_digits 0 (decimal_loop fuel n acc) ≡ read_digits n acc
unfolding decimal_loop
read_digits-decimal_loop zero n acc h = absurd (omega arith)
read_digits-decimal_loop (suc fuel) n acc h = elim (Bool-cases (n / 10 =? 0)) [
  | inl e ↦
      rw e (
        read_digits-digit 0 (n % 10) acc (omega arith) ∙ ap (λ v. read_digits v acc) (ground arith))
  | inr e ↦ rw e (
      read_digits-decimal_loop fuel (n / 10) (digit (n % 10) <> acc) (ground arith)
      ∙ read_digits-digit (n / 10) (n % 10) acc (omega arith)
      ∙ ap (λ v. read_digits v acc) (omega arith))
]

digit-IsUnsigned : (d : ℕ) (acc : String) → is_minus (digit d <> acc) ≡ false
unfolding digit
digit-IsUnsigned zero acc = ap is_minus (single "0" acc)
digit-IsUnsigned (suc zero) acc = ap is_minus (single "1" acc)
digit-IsUnsigned (suc (suc zero)) acc = ap is_minus (single "2" acc)
digit-IsUnsigned (suc (suc (suc zero))) acc = ap is_minus (single "3" acc)
digit-IsUnsigned (suc (suc (suc (suc zero)))) acc = ap is_minus (single "4" acc)
digit-IsUnsigned (suc (suc (suc (suc (suc zero))))) acc = ap is_minus (single "5" acc)
digit-IsUnsigned (suc (suc (suc (suc (suc (suc zero)))))) acc = ap is_minus (single "6" acc)
digit-IsUnsigned (suc (suc (suc (suc (suc (suc (suc zero))))))) acc = ap is_minus (single "7" acc)
digit-IsUnsigned (suc (suc (suc (suc (suc (suc (suc (suc zero)))))))) acc =
    ap is_minus (single "8" acc)
digit-IsUnsigned (suc (suc (suc (suc (suc (suc (suc (suc (suc zero))))))))) acc =
    ap is_minus (single "9" acc)
digit-IsUnsigned (suc (suc (suc (suc (suc (suc (suc (suc (suc (suc (d))))))))))) acc =
    ap is_minus (single "9" acc)

decimal_loop-IsUnsigned :
    (fuel n : ℕ) (acc : String) → is_minus acc ≡ false → is_minus (decimal_loop fuel n acc) ≡ false
unfolding decimal_loop
decimal_loop-IsUnsigned zero n acc h = h
decimal_loop-IsUnsigned (suc fuel) n acc h = elim (Bool-cases (n / 10 =? 0)) [
  | inl e ↦ rw e (digit-IsUnsigned (n % 10) acc)
  | inr e ↦ rw e (
      decimal_loop-IsUnsigned fuel (n / 10) (digit (n % 10) <> acc) (digit-IsUnsigned (n % 10) acc))
]

pub read_int-int_text : (z : ℤ) → read_int (int_text z) ≡ z
unfolding read_int int_text decimal read_digits
read_int-int_text (pos n) =
    rw (decimal_loop-IsUnsigned (suc n) n "" refl)
      (ap (λ k. pos k) (read_digits-decimal_loop (suc n) n "" (omega arith)))
read_int-int_text (negsuc n) =
    ap read_int (single "-" (decimal (suc n)))
    ∙ ap negative (read_digits-decimal_loop (suc (suc n)) (suc n) "" (omega arith))
