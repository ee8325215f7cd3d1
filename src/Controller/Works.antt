-- ===== src/Controller/Works.antt =====
-- Steps of internal/controller/cashumint_controller.go that return no error: what they make of the
-- mint, and the rules by which they are put together.
use cashu_operator.Common.{Bool, String, if◌then◌else◌, ◌≡◌, true, false, arith}
use cashu_operator.Controller.Monad.{
  ◌>>=◌, ◌>>◌, return, done, the_mint, put_mint, event, lift, wrapping, attempt, when, World, M,
  resume, wrap_result, asked,
}
use cashu_operator.Controller.Env.{Result, Call, ok, err}
use cashu_operator.Api.{CashuMint}

-- The step returned a value, of which `P` holds, and left a mint, of which `R` holds.
abbrev pub OfValue : {A : Type 0} → (A → Type 0) → (CashuMint → Type 0) → Result A × World → Type 0
OfValue P R (ok a, w) = P a × R w.mint
OfValue P R (err e, w) = ⊥

abbrev pub Any : {A : Type 0} → A → Type 0
Any a = Unit

-- From a mint of which `Q` holds.
pub record Works {A : Type 0} (Q : CashuMint → Type 0) (m : M A) (P : A → Type 0)
    (R : CashuMint → Type 0) : Type 0 where
  pub run : (w : World) → Q w.mint → OfValue P R (m w)

abbrev pub OfOk : {A : Type 0} → (A → Type 0) → Result A → Type 0
OfOk P (ok a) = P a
OfOk P (err e) = ⊥

pub Works-bind :
    {A B : Type 0} {Q R S : CashuMint → Type 0} {P : A → Type 0} {T : B → Type 0} {m : M A}
    {f : A → M B}
    → Works Q m P R
    → ((a : A) → P a → Works R (f a) T S)
    → Works Q (m >>= f) T S
unfolding ◌>>=◌
Works-bind {A = A} {R = R} {S = S} {P = P} {T = T} {m = m} {f = f} h k = record {
  run = λ w q. by_answer (m w) (h.run w q);
}
  where
    by_answer : (r : Result A × World) → OfValue P R r → OfValue T S (resume r f)
    by_answer (ok a, v) (p, q) = (k a p).run v q
    by_answer (err e, v) q = absurd q

pub Works-then :
    {B : Type 0} {Q R S : CashuMint → Type 0} {T : B → Type 0} {m : M (Unit {0})} {k : M B}
    → Works Q m Any R
    → Works R k T S
    → Works Q (m >> k) T S
unfolding ◌>>◌
Works-then h k = Works-bind h (λ _ _. k)

pub Works-return :
    {A : Type 0} {Q : CashuMint → Type 0} {P : A → Type 0} (a : A) → P a → Works Q (return a) P Q
unfolding return
Works-return a p = record { run = λ w q. (p, q) }

pub Works-done : {Q : CashuMint → Type 0} → Works Q done Any Q
unfolding done
Works-done = Works-return tt tt

pub Works-the_mint : {Q : CashuMint → Type 0} → Works Q the_mint Q Q
unfolding the_mint
Works-the_mint = record { run = λ w q. (q, q) }

pub Works-put_mint : {Q R : CashuMint → Type 0} (m : CashuMint) → R m → Works Q (put_mint m) Any R
unfolding put_mint
Works-put_mint m r = record { run = λ w q. (tt, r) }

pub Works-event :
    {Q : CashuMint → Type 0} (b : Bool) (reason : String) → Works Q (event b reason) Any Q
unfolding event
Works-event b reason = record { run = λ w q. (tt, q) }

pub Works-lift :
    {A : Type 0} {Q : CashuMint → Type 0} (P : A → Type 0) (r : Result A)
    → OfOk P r
    → Works Q (lift r) P Q
unfolding lift
Works-lift P (ok a) p = record { run = λ w q. (p, q) }
Works-lift P (err e) p = absurd p

pub Works-wrapping :
    {A : Type 0} {Q R : CashuMint → Type 0} {P : A → Type 0} (text : String) {m : M A}
    → Works Q m P R
    → Works Q (wrapping text m) P R
unfolding wrapping
Works-wrapping {A = A} {R = R} {P = P} text {m = m} h = record {
  run = λ w q. by_answer (m w) (h.run w q);
}
  where
    by_answer : (r : Result A × World) → OfValue P R r → OfValue P R (wrap_result text r)
    by_answer (ok a, v) p = p
    by_answer (err e, v) p = p

pub Works-attempt :
    {A : Type 0} {Q R : CashuMint → Type 0} {P : A → Type 0} {m : M A}
    → Works Q m P R
    → Works Q (attempt m) (OfOk P) R
unfolding attempt
Works-attempt {A = A} {R = R} {P = P} {m = m} h = record {
  run = λ w q. by_answer (m w) (h.run w q);
}
  where
    by_answer : (r : Result A × World) → OfValue P R r → OfOk P r.0 × R r.1.mint
    by_answer (ok a, v) p = p
    by_answer (err e, v) p = absurd p

pub Works-if :
    (b : Bool) {A : Type 0} {Q R : CashuMint → Type 0} {P : A → Type 0} {m n : M A}
    → Works Q m P R
    → Works Q n P R
    → Works Q (if b then m else n) P R
Works-if true h k = h
Works-if false h k = k

pub Works-if_not :
    (b : Bool) {A : Type 0} {Q R : CashuMint → Type 0} {P : A → Type 0} (m : M A) {n : M A}
    → b ≡ false
    → Works Q n P R
    → Works Q (if b then m else n) P R
Works-if_not true m h k = absurd (ground arith)
Works-if_not false m h k = k

pub Works-when :
    (b : Bool) {Q : CashuMint → Type 0} {m : M (Unit {0})}
    → Works Q m Any Q
    → Works Q (when b m) Any Q
unfolding when
Works-when true h = h
Works-when false h = Works-done

pub Works-asked :
    {A : Type 0} {Q : CashuMint → Type 0} (P : A → Type 0) (c : Call) (answer : World → Result A)
    → ((w : World) → OfOk P (answer w))
    → Works Q (λ w. asked c (answer w) w) P Q
Works-asked {A = A} {Q = Q} P c answer h = record { run = λ w q. by_answer w (answer w) (h w) q }
  where
    by_answer : (w : World) (r : Result A) → OfOk P r → Q w.mint → OfValue P Q (asked c r w)
    by_answer w (ok a) p q = (p, q)
    by_answer w (err e) p q = absurd p
