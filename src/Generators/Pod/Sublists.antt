-- ===== src/Generators/Pod/Sublists.antt =====
-- Texts that stand in another list in the same order.
use cashu_operator.Generators.ConfigMap.Distinct.{is_member, all_distinct, or_false, new_name}
use cashu_operator.Common.{List, String, [], ◌∷◌, ◌++◌, ◌≡◌, false, true, refl, ◌==◌}

pub data Sub : List String → List String → Type 0 where
  stop : {l : List String} → Sub [] l
  skip : {a l : List String} {x : String} → Sub a l → Sub a (x ∷ l)
  keep : {a l : List String} {x : String} → Sub a l → Sub (x ∷ a) (x ∷ l)

pub Sub-refl : (l : List String) → Sub l l
Sub-refl [] = stop
Sub-refl (x ∷ l) = keep (Sub-refl l)

Sub-after : (c : List String) {b d : List String} → Sub b d → Sub b (c ++ d)
Sub-after [] t = t
Sub-after (x ∷ c) t = skip (Sub-after c t)

pub Sub-append : {a b c d : List String} → Sub a c → Sub b d → Sub (a ++ b) (c ++ d)
Sub-append {c = c} stop t = Sub-after c t
Sub-append (skip s) t = skip (Sub-append s t)
Sub-append (keep s) t = keep (Sub-append s t)

Sub-is_member :
    {a l : List String} (x : String) → Sub a l → is_member x l ≡ false → is_member x a ≡ false
unfolding is_member
Sub-is_member x stop h = refl
Sub-is_member {l = y ∷ l} x (skip s) h = Sub-is_member x s ((or_false (y == x) (is_member x l) h).1)
Sub-is_member {l = y ∷ l} x (keep s) h =
    let (p, q) = or_false (y == x) (is_member x l) h in rw p (Sub-is_member x s q)

-- A list of different texts has only such lists of texts in it.
pub Sub-all_distinct : {a l : List String} → Sub a l → all_distinct l ≡ true → all_distinct a ≡ true
unfolding all_distinct
Sub-all_distinct stop h = refl
Sub-all_distinct {l = y ∷ l} (skip s) h =
    Sub-all_distinct s ((new_name (is_member y l) (all_distinct l) h).1)
Sub-all_distinct {l = y ∷ l} (keep s) h =
    let (p, q) = new_name (is_member y l) (all_distinct l) h in
    rw (Sub-is_member y s p) (Sub-all_distinct s q)
