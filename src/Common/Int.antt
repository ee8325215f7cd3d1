-- ===== src/Common/Int.antt =====
-- Signed integers: the `int32` and `int64` fields, which the program compares and prints.
use Prim.Native.Nat.{ℕ}
use mathlib.Core.Path.{◌≡◌}
use mathlib.Core.Bool.{Bool, true, false}
use native.Mathlib.Omega.{arith}
use cashu_operator.Common.Tests.{◌=?◌, if◌then◌else◌}

-- `negsuc n` is -(n + 1).
pub data ℤ : Type 0 where
  pos : ℕ → ℤ
  negsuc : ℕ → ℤ

abbrev pub is_zero : ℤ → Bool
is_zero (pos n) = n =? 0
is_zero (negsuc n) = false

abbrev pub int_eq : ℤ → ℤ → Bool
int_eq (pos m) (pos n) = m =? n
int_eq (negsuc m) (negsuc n) = m =? n
int_eq (pos m) (negsuc n) = false
int_eq (negsuc m) (pos n) = false

pub int_eq_sound : (a b : ℤ) → int_eq a b ≡ true → a ≡ b
int_eq_sound (pos m) (pos n) h = ground arith
int_eq_sound (negsuc m) (negsuc n) h = ground arith
int_eq_sound (pos m) (negsuc n) h = cc
int_eq_sound (negsuc m) (pos n) h = cc

pub int_eq_refl : (a : ℤ) → int_eq a a ≡ true
int_eq_refl (pos n) = ground arith
int_eq_refl (negsuc n) = ground arith

-- A port that is 0 is replaced by the default.
unfoldable pub or_port : ℤ → ℤ → ℤ
or_port p d = if is_zero p then d else p

pub or_port_idem : (p d : ℤ) → or_port (or_port p d) d ≡ or_port p d
unfolding or_port
or_port_idem p d = ground arith
