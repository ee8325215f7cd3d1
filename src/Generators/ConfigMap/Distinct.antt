-- ===== src/Generators/ConfigMap/Distinct.antt =====
-- Names in the tables of a document, and what a document says of a name.
use cashu_operator.Generators.ConfigMap.Toml.{kept, Slot}
use cashu_operator.Common.{
  inl, inr, subst, String, List, Bool, lookup, false, true, Option, ◌≡◌, ◌∷◌, none, ◌==◌, not,
  if◌then◌else◌, arith, [], some, ◌||◌, ◌&&◌, refl, Bool-cases, eq_iff,
}

unfoldable pub is_member : String → List String → Bool
is_member x [] = false
is_member x (y ∷ l) = (y == x) || is_member x l

unfoldable pub all_distinct : List String → Bool
unfolding is_member
all_distinct [] = true
all_distinct (x ∷ l) = not (is_member x l) && all_distinct l

unfoldable pub names {ℓ} : {A : Type ℓ} → List (String × A) → List String
names [] = []
names ((k, v) ∷ l) = k ∷ names l

-- What the first slot of a name holds.
unfoldable pub slot_value {ℓ} : {A : Type ℓ} → String → List (Slot A) → Option A
slot_value k [] = none
slot_value k ((j, o) ∷ s) = if j == k then o else slot_value k s

pub or_false : (a b : Bool) → (a || b) ≡ false → (a ≡ false) × (b ≡ false)
or_false a b h = ground arith

pub new_name : (a b : Bool) → (not a && b) ≡ true → (a ≡ false) × (b ≡ true)
new_name a b h = ground arith

is_member-kept {ℓ} :
    {A : Type ℓ} (s : List (Slot A)) (x : String)
    → is_member x (names s) ≡ false
    → is_member x (names (kept s)) ≡ false
unfolding is_member names kept
is_member-kept [] x h = refl
is_member-kept ((k, none) ∷ s) x h =
    is_member-kept s x ((or_false (k == x) (is_member x (names s)) h).1)
is_member-kept ((k, some v) ∷ s) x h =
    let (p, q) = or_false (k == x) (is_member x (names s)) h in rw p (is_member-kept s x q)

pub all_distinct-kept {ℓ} :
    {A : Type ℓ} (s : List (Slot A))
    → all_distinct (names s) ≡ true
    → all_distinct (names (kept s)) ≡ true
unfolding all_distinct names kept
all_distinct-kept [] h = refl
all_distinct-kept ((k, none) ∷ s) h =
    all_distinct-kept s ((new_name (is_member k (names s)) (all_distinct (names s)) h).1)
all_distinct-kept ((k, some v) ∷ s) h =
    let (p, q) = new_name (is_member k (names s)) (all_distinct (names s)) h in
    rw (is_member-kept s k p) (all_distinct-kept s q)

lookup-absent {ℓ} :
    {A : Type ℓ} (s : List (Slot A)) (x : String)
    → is_member x (names s) ≡ false
    → lookup x (kept s) ≡ none
unfolding is_member names kept lookup
lookup-absent [] x h = refl
lookup-absent ((k, none) ∷ s) x h =
    lookup-absent s x ((or_false (k == x) (is_member x (names s)) h).1)
lookup-absent ((k, some v) ∷ s) x h =
    let (p, q) = or_false (k == x) (is_member x (names s)) h in rw p (lookup-absent s x q)

-- A document whose names differ says of a name what its slot holds.
pub lookup-kept {ℓ} :
    {A : Type ℓ} (s : List (Slot A)) (x : String)
    → all_distinct (names s) ≡ true
    → lookup x (kept s) ≡ slot_value x s
unfolding all_distinct names kept lookup slot_value
lookup-kept [] x h = refl
lookup-kept ((k, none) ∷ s) x h =
    let (p, q) = new_name (is_member k (names s)) (all_distinct (names s)) h in
    elim (Bool-cases (k == x)) [
      | inl e ↦
          rw e (lookup-absent s x (subst (λ y. is_member y (names s) ≡ false) ((eq_iff k x).0 e) p))
      | inr e ↦ rw e (lookup-kept s x q)
    ]
lookup-kept ((k, some v) ∷ s) x h =
    let (p, q) = new_name (is_member k (names s)) (all_distinct (names s)) h in
    elim (Bool-cases (k == x)) [ inl e ↦ rw e refl | inr e ↦ rw e (lookup-kept s x q) ]
