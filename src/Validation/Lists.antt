-- ===== src/Validation/Lists.antt =====
-- When a list of collected errors is empty: one rule for each way in which the validators build it.
use cashu_operator.Common.Int.{ℤ, is_zero, pos}
use cashu_operator.Common.{
  List, Bool, Option, String, ◌≡◌, ◌==◌, [], false, none, ◌↔◌, ◌∷◌, ◌++◌, if◌then◌else◌, ◌≢◌, true,
  arith, some, refl, eq_iff, not, ◌||◌, ◌⊎◌, inl, ap, inr, Bool-cases,
}
use cashu_operator.Validation.Report.{report, problem, errors}

pub report_iff :
    (title : String) (es : List String) {P : Type 0}
    → ((es ≡ []) ↔ P)
    → (report title es ≡ none) ↔ P
unfolding report
report_iff title [] h = (λ _. h.0 refl, λ _. refl)
report_iff title (e ∷ es) h = (λ k. cc, λ k. absurd (cc (h.1 k)))

pub append_iff :
    (xs ys : List String) {P Q : Type 0}
    → ((xs ≡ []) ↔ P)
    → ((ys ≡ []) ↔ Q)
    → (xs ++ ys ≡ []) ↔ (P × Q)
append_iff [] ys h k = (λ e. (h.0 refl, k.0 e), λ r. k.1 r.1)
append_iff (x ∷ xs) ys h k = (λ e. cc, λ r. absurd (cc (h.1 r.0)))

pub problem_iff : (b : Bool) (m : String) {P : Type 0} → ((b ≡ false) ↔ P) → (problem b m ≡ []) ↔ P
problem_iff true m h = (λ e. cc, λ p. absurd (cc (h.1 p)))
problem_iff false m h = (λ e. h.0 refl, λ p. refl)

pub errors_iff : (o : Option String) {P : Type 0} → ((o ≡ none) ↔ P) → (errors o ≡ []) ↔ P
errors_iff none h = (λ e. h.0 refl, λ p. refl)
errors_iff (some m) h = (λ e. cc, λ p. absurd (cc (h.1 p)))

pub if_nil_iff :
    (b : Bool) (xs ys : List String) {P Q : Type 0}
    → ((xs ≡ []) ↔ P)
    → ((ys ≡ []) ↔ Q)
    → ((if b then xs else ys) ≡ []) ↔ (((b ≡ true) → P) × ((b ≡ false) → Q))
if_nil_iff true xs ys h k = (λ e. (λ _. h.0 e, λ f. cc), λ r. h.1 (r.0 refl))
if_nil_iff false xs ys h k = (λ e. (λ f. cc, λ _. k.0 e), λ r. k.1 (r.1 refl))

pub nonempty_iff : (s : String) → ((s == "") ≡ false) ↔ (s ≢ "")
nonempty_iff s = ground (arith, eq_iff s "")

pub nonzero_iff : (n : ℤ) → (is_zero n ≡ false) ↔ (n ≢ pos 0)
nonzero_iff n = ground arith

pub compose_iff : {P Q R : Type 0} → P ↔ Q → Q ↔ R → P ↔ R
compose_iff h k = (λ p. k.0 (h.0 p), λ r. h.1 (k.1 r))

-- `if b { … }`
pub guarded_iff :
    (b : Bool) {xs : List String} {P : Type 0}
    → ((xs ≡ []) ↔ P)
    → ((if b then xs else []) ≡ []) ↔ (b ≡ true → P)
guarded_iff true h = (λ e _. h.0 e, λ k. h.1 (k refl))
guarded_iff false h = (λ e f. cc, λ k. refl)

-- `if !b { return nil }`
pub unless_iff :
    (b : Bool) {o : Option String} {P : Type 0}
    → ((o ≡ none) ↔ P)
    → ((if not b then none else o) ≡ none) ↔ (b ≡ true → P)
unless_iff true h = (λ e _. h.0 e, λ k. h.1 (k refl))
unless_iff false h = (λ e f. cc, λ k. refl)

pub both_iff : (s t : String) → ((s == "" || t == "") ≡ false) ↔ ((s ≢ "") × (t ≢ ""))
both_iff s t = ground (arith, eq_iff s "", eq_iff t "")

pub engine_iff : (e : String) → (not (e == "postgres") ≡ false) ↔ (e ≡ "postgres")
engine_iff e = ground (arith, eq_iff e "postgres")

pub same_iff {ℓ} : {P : Type ℓ} → P ↔ P
same_iff = (λ p. p, λ p. p)

-- The switch of `validateDatabase` on the engine.
pub engine_switch_iff :
    (e : String) (xs : List String) (m : String) {P : Type 0}
    → ((xs ≡ []) ↔ P)
    → ((if e == "postgres" then xs else if e == "sqlite" || e == "redb" then [] else m ∷ []) ≡ [])
      ↔ (((e ≡ "postgres") × P) ⊎ ((e ≡ "sqlite") ⊎ (e ≡ "redb")))
engine_switch_iff e xs m h = elim (Bool-cases (e == "postgres")) [
  | inl y ↦ rw y (
    λ k. inl ((eq_iff e "postgres").0 y, h.0 k),
    λ v. elim v [ inl (_, p) ↦ h.1 p | inr w ↦ absurd (local_engine e y w) ],
  )
  | inr n ↦ rw n (
    λ k. inr (ground (arith, eq_iff e "sqlite", eq_iff e "redb")),
    λ v. elim v [
      | inl (q, p) ↦ cc ((eq_iff e "postgres").1 q)
      | inr w ↦ ground (arith, eq_iff e "sqlite", eq_iff e "redb")
    ],
  )
]
  where
    local_engine : (e : String) → (e == "postgres") ≡ true → (e ≡ "sqlite") ⊎ (e ≡ "redb") → ⊥
    local_engine e y (inl w) = absurd (cc (ap (λ t. t == "postgres") w, y))
    local_engine e y (inr w) = absurd (cc (ap (λ t. t == "postgres") w, y))

-- A loop that stops at its first error.
pub first_error_iff :
    (b : Bool) (m : String) {o : Option String} {P : Type 0}
    → ((o ≡ none) ↔ P)
    → ((if b then some m else o) ≡ none) ↔ ((b ≡ false) × P)
first_error_iff true m h = (λ e. cc, λ r. cc)
first_error_iff false m h = (λ e. (refl, h.0 e), λ r. h.1 r.1)
