-- ===== src/Api/ActiveBackend.antt =====
-- What the name that `ActiveBackend` returns says of the five pointers
-- (api/v1alpha1/cashumint_types.go).
use cashu_operator.Api.{
  PaymentBackendConfig, payment_backend_lnd, payment_backend_cln, payment_backend_lnbits,
  payment_backend_fake_wallet, payment_backend_grpc_processor, bump, chosen, active_backend,
}
use cashu_operator.Common.{
  String, ◌≡◌, present, ◌==◌, ◌⊎◌, arith, Bool, true, false, if◌then◌else◌, not, ◌=?◌, ℕ, inl, inr,
  ◌≢◌, ◌↔◌, refl, eq_iff, ◌+◌, subst, Bool-cases,
}

abbrev pub IsBackendName : String → Type 0
IsBackendName name =
    (name ≡ payment_backend_lnd)
    ⊎ ((name ≡ payment_backend_cln)
        ⊎ ((name ≡ payment_backend_lnbits)
            ⊎ ((name ≡ payment_backend_fake_wallet) ⊎ (name ≡ payment_backend_grpc_processor))))

-- The pointer of the named backend is set, and no other.
pub record IsSole (p : PaymentBackendConfig) (name : String) : Type 0 where
  pub named : IsBackendName name
  pub lnd : present p.lnd ≡ (name == payment_backend_lnd)
  pub cln : present p.cln ≡ (name == payment_backend_cln)
  pub lnbits : present p.lnbits ≡ (name == payment_backend_lnbits)
  pub fake_wallet : present p.fake_wallet ≡ (name == payment_backend_fake_wallet)
  pub grpc_processor : present p.grpc_processor ≡ (name == payment_backend_grpc_processor)

-- How many of the five pointers are set.
abbrev pub backend_total : PaymentBackendConfig → ℕ
backend_total p =
    bump p.grpc_processor (bump p.fake_wallet (bump p.lnbits (bump p.cln (bump p.lnd 0))))

-- The five tests with any names, as `active_backend` makes them.
pick : (nil a b c d e : String) → PaymentBackendConfig → String
pick nil a b c d e p =
    let count =
      bump p.grpc_processor (bump p.fake_wallet (bump p.lnbits (bump p.cln (bump p.lnd 0)))) in
    let result =
      chosen p.grpc_processor e
        (chosen p.fake_wallet d (chosen p.lnbits c (chosen p.cln b (chosen p.lnd a nil)))) in
    if not (count =? 1) then nil else result

abbrev Presence : PaymentBackendConfig → (a b c d e : Bool) → Type 0
Presence p a b c d e =
    (present p.lnd ≡ a)
    × (present p.cln ≡ b)
    × (present p.lnbits ≡ c)
    × (present p.fake_wallet ≡ d)
    × (present p.grpc_processor ≡ e)

pick_cases :
    (nil a b c d e : String) (p : PaymentBackendConfig)
    → (pick nil a b c d e p ≡ nil)
      ⊎ (((pick nil a b c d e p ≡ a) × Presence p true false false false false)
          ⊎ (((pick nil a b c d e p ≡ b) × Presence p false true false false false)
              ⊎ (((pick nil a b c d e p ≡ c) × Presence p false false true false false)
                  ⊎ (((pick nil a b c d e p ≡ d) × Presence p false false false true false)
                      ⊎ ((pick nil a b c d e p ≡ e) × Presence p false false false false true)))))
unfolding pick
pick_cases nil a b c d e p = ground arith

IsSole-lnd :
    (p : PaymentBackendConfig)
    → Presence p true false false false false
    → IsSole p payment_backend_lnd
IsSole-lnd p (a, b, c, d, e) = record {
  named = inl refl;
  lnd = a;
  cln = b;
  lnbits = c;
  fake_wallet = d;
  grpc_processor = e;
}

IsSole-cln :
    (p : PaymentBackendConfig)
    → Presence p false true false false false
    → IsSole p payment_backend_cln
IsSole-cln p (a, b, c, d, e) = record {
  named = inr (inl refl);
  lnd = a;
  cln = b;
  lnbits = c;
  fake_wallet = d;
  grpc_processor = e;
}

IsSole-lnbits :
    (p : PaymentBackendConfig)
    → Presence p false false true false false
    → IsSole p payment_backend_lnbits
IsSole-lnbits p (a, b, c, d, e) = record {
  named = inr (inr (inl refl));
  lnd = a;
  cln = b;
  lnbits = c;
  fake_wallet = d;
  grpc_processor = e;
}

IsSole-fake_wallet :
    (p : PaymentBackendConfig)
    → Presence p false false false true false
    → IsSole p payment_backend_fake_wallet
IsSole-fake_wallet p (a, b, c, d, e) = record {
  named = inr (inr (inr (inl refl)));
  lnd = a;
  cln = b;
  lnbits = c;
  fake_wallet = d;
  grpc_processor = e;
}

IsSole-grpc_processor :
    (p : PaymentBackendConfig)
    → Presence p false false false false true
    → IsSole p payment_backend_grpc_processor
IsSole-grpc_processor p (a, b, c, d, e) = record {
  named = inr (inr (inr (inr refl)));
  lnd = a;
  cln = b;
  lnbits = c;
  fake_wallet = d;
  grpc_processor = e;
}

none_or_IsSole : (p : PaymentBackendConfig) → (active_backend p ≡ "") ⊎ IsSole p (active_backend p)
unfolding active_backend pick
none_or_IsSole p = elim (pick_cases "" "lnd" "cln" "lnbits" "fakewallet" "grpcprocessor" p) [
  | inl e ↦ inl e
  | inr (inl (e, h)) ↦ inr (rw e (IsSole-lnd p h))
  | inr (inr (inl (e, h))) ↦ inr (rw e (IsSole-cln p h))
  | inr (inr (inr (inl (e, h)))) ↦ inr (rw e (IsSole-lnbits p h))
  | inr (inr (inr (inr (inl (e, h))))) ↦ inr (rw e (IsSole-fake_wallet p h))
  | inr (inr (inr (inr (inr (e, h))))) ↦ inr (rw e (IsSole-grpc_processor p h))
]

-- One backend is given exactly when `ActiveBackend` names it.
bump_eq_one :
    (nil a b c d e : String) (p : PaymentBackendConfig)
    → nil ≢ a
    → nil ≢ b
    → nil ≢ c
    → nil ≢ d
    → nil ≢ e
    → (backend_total p ≡ 1) ↔ (pick nil a b c d e p ≢ nil)
unfolding pick
bump_eq_one nil a b c d e p ha hb hc hd he = ground arith

pub is_named : (name : String) → ("" == name) ≡ false → "" ≢ name
is_named name h e = cc (h, (eq_iff "" name).1 e)

pub active_backend_of_one :
    (p : PaymentBackendConfig) → backend_total p ≡ 1 → IsSole p (active_backend p)
unfolding active_backend pick
active_backend_of_one p h = elim (none_or_IsSole p) [
  | inr s ↦ s
  | inl e ↦
      elim ((bump_eq_one "" "lnd" "cln" "lnbits" "fakewallet" "grpcprocessor" p
          (is_named "lnd" refl) (is_named "cln" refl) (is_named "lnbits" refl)
          (is_named "fakewallet" refl) (is_named "grpcprocessor" refl)).0
        h e) [ ]
]

abbrev bit : Bool → ℕ
bit b = if b then 1 else 0

total_of_Presence :
    (p : PaymentBackendConfig) (a b c d e : Bool)
    → Presence p a b c d e
    → backend_total p ≡ bit a + (bit b + (bit c + (bit d + bit e)))
total_of_Presence p a b c d e (ha, hb, hc, hd, he) = ground arith

IsSole-named : (p : PaymentBackendConfig) (a b : String) → IsSole p a → a ≡ b → IsSole p b
IsSole-named p a b s e = subst (IsSole p) e s

total_of_one : (p : PaymentBackendConfig) (name : String) → IsSole p name → backend_total p ≡ 1
total_of_one p name s = elim s.named [
  | inl e ↦
      let t = IsSole-named p name "lnd" s e in
      total_of_Presence p true false false false false
        (t.lnd, t.cln, t.lnbits, t.fake_wallet, t.grpc_processor)
  | inr (inl e) ↦
      let t = IsSole-named p name "cln" s e in
      total_of_Presence p false true false false false
        (t.lnd, t.cln, t.lnbits, t.fake_wallet, t.grpc_processor)
  | inr (inr (inl e)) ↦
      let t = IsSole-named p name "lnbits" s e in
      total_of_Presence p false false true false false
        (t.lnd, t.cln, t.lnbits, t.fake_wallet, t.grpc_processor)
  | inr (inr (inr (inl e))) ↦
      let t = IsSole-named p name "fakewallet" s e in
      total_of_Presence p false false false true false
        (t.lnd, t.cln, t.lnbits, t.fake_wallet, t.grpc_processor)
  | inr (inr (inr (inr e))) ↦
      let t = IsSole-named p name "grpcprocessor" s e in
      total_of_Presence p false false false false true
        (t.lnd, t.cln, t.lnbits, t.fake_wallet, t.grpc_processor)
]

no_name : (p : PaymentBackendConfig) → backend_total p ≢ 1 → active_backend p ≡ ""
unfolding active_backend
no_name p h = ground arith

-- `ActiveBackend` returns the name of a backend that is given as the only one, or no name where no
-- backend is given as the only one.
pub active_backend-IsSole :
    (p : PaymentBackendConfig)
    → IsSole p (active_backend p) ⊎ ((active_backend p ≡ "") × ((name : String) → ¬ IsSole p name))
active_backend-IsSole p = elim (Bool-cases (backend_total p =? 1)) [
  | inl e ↦ inl (active_backend_of_one p (ground arith))
  | inr e ↦ inr (no_name p (ground arith), λ name s. let t = total_of_one p name s in ground arith)
]
