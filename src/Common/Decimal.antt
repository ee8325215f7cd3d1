-- ===== src/Common/Decimal.antt =====
-- `%d`: integers in decimal.
use Prim.Native.Nat.{ℕ, zero, suc, ◌/◌, ◌%◌}
use Prim.Native.String.{String, ◌++◌ as ◌<>◌}
use mathlib.Core.Path.{◌≡◌, refl}
use cashu_operator.Common.Tests.{◌=?◌, if◌then◌else◌}
use cashu_operator.Common.Int.{ℤ, pos, negsuc}

unfoldable pub digit : ℕ → String
digit zero = "0"
digit (suc zero) = "1"
digit (suc (suc zero)) = "2"
digit (suc (suc (suc zero))) = "3"
digit (suc (suc (suc (suc zero)))) = "4"
digit (suc (suc (suc (suc (suc zero))))) = "5"
digit (suc (suc (suc (suc (suc (suc zero)))))) = "6"
digit (suc (suc (suc (suc (suc (suc (suc zero))))))) = "7"
digit (suc (suc (suc (suc (suc (suc (suc (suc zero)))))))) = "8"
digit _ = "9"

-- The digits of `n` in front of `acc`; a round drops one digit.
unfoldable pub decimal_loop : ℕ → ℕ → String → String
decimal_loop zero n acc = acc
decimal_loop (suc fuel) n acc =
    let longer = digit (n % 10) <> acc in
    let rest = decimal_loop fuel (n / 10) longer in if n / 10 =? 0 then longer else rest

unfoldable pub decimal : ℕ → String
unfolding decimal_loop digit
decimal n = decimal_loop (suc n) n ""

unfoldable pub int_text : ℤ → String
unfolding decimal
int_text (pos n) = decimal n
int_text (negsuc n) = "-" <> decimal (suc n)

int_text_tests :
    (int_text (pos 50051) ≡ "50051") × (int_text (pos 0) ≡ "0") × (int_text (negsuc 41) ≡ "-42")
unfolding int_text
int_text_tests = (refl, refl, refl)
