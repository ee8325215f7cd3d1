-- ===== src/Controller/Guard.antt =====
-- What a pass may write, read off the exchanges of internal/controller/cashumint_controller.go:
-- which call may follow which, and the rules by which steps keep to it.
use cashu_operator.Controller.Secrets.{is_auto_provisioned, postgres_secret_name}
use cashu_operator.Controller.Monad.{
  M, World, ◌>>=◌, ◌>>◌, wrapping, attempt, when, is_not_found, send, resume, wrap_result, done,
  return,
}
use cashu_operator.Api.{CashuMint}
use cashu_operator.Controller.Env.{
  Kind, Call, Trace, Env, Error, get, delete, secret, Result, patch, update_status, create, update,
  ok, err,
}
use cashu_operator.Common.{
  Option, String, Bool, false, ◌&&◌, ◌∷◌, if◌then◌else◌, ◌≡◌, true, ◌==◌, not, ◌||◌, some, [],
  present, none, subst, sym, refl,
}

-- A call that answered `NotFound`
abbrev missed : Option Error → Bool
missed none = false
missed (some e) = is_not_found e

abbrev is_kind_secret : Kind → Bool
is_kind_secret k = elim k [ secret ↦ true | _ ↦ false ]

abbrev is_read_of : String → String → Call → Bool
is_read_of a b (get k ns name) = is_kind_secret k && ((ns == a) && (name == b))
is_read_of a b _ = false

abbrev is_deletion_of : String → String → Call → Bool
is_deletion_of a b (delete k ns name) = is_kind_secret k && ((ns == a) && (name == b))
is_deletion_of a b _ = false

-- The latest exchange read the secret, which is not there.
abbrev pub is_after_miss : String → String → Trace → Bool
is_after_miss ns name [] = false
is_after_miss ns name (x ∷ t) = is_read_of ns name x.call && missed x.failure

-- The latest exchange found the secret.
abbrev pub is_after_find : String → String → Trace → Bool
is_after_find ns name [] = false
is_after_find ns name (x ∷ t) = is_read_of ns name x.call && not (present x.failure)

-- The latest exchange shows that the secret is gone: a read missed it, or its deletion succeeded
-- or missed it.
abbrev pub is_after_loss : String → String → Trace → Bool
is_after_loss ns name [] = false
is_after_loss ns name (x ∷ t) =
    (is_read_of ns name x.call && missed x.failure)
    || (is_deletion_of ns name x.call && (not (present x.failure) || missed x.failure))

-- A deleted mint whose database secret must go first
abbrev pub owes_cleanup : CashuMint → Bool
owes_cleanup m = m.metadata.is_deleted && is_auto_provisioned m.spec.database.postgres

abbrev pub is_allowed : Call → Trace → Bool
is_allowed (get k ns name) t = true
is_allowed (patch o) t = true
is_allowed (update_status m) t = true
is_allowed (create o) t = is_kind_secret o.kind && is_after_miss o.namespace o.name t
is_allowed (delete k ns name) t = not (is_kind_secret k) || is_after_find ns name t
is_allowed (update m) t =
    not (owes_cleanup m)
    || is_after_loss m.metadata.namespace (postgres_secret_name m.metadata.name) t

-- Each exchange is allowed by the one before it.
abbrev pub IsGuarded : Trace → Type 0
IsGuarded [] = Unit
IsGuarded (x ∷ t) = (is_allowed x.call t ≡ true) × IsGuarded t

-- A step keeps exchanges guarded.
pub record Keeps {A : Type 0} (m : M A) : Type 0 where
  pub run : (w : World) → IsGuarded w.trace → IsGuarded (m w).1.trace

-- A step does so directly after a read that missed the secret.
pub record KeepsAfterMiss (ns name : String) {A : Type 0} (m : M A) : Type 0 where
  pub run :
      (w : World)
      → is_after_miss ns name w.trace ≡ true
      → IsGuarded w.trace
      → IsGuarded (m w).1.trace

pub Keeps-bind :
    {A B : Type 0} {m : M A} {f : A → M B} → Keeps m → ((a : A) → Keeps (f a)) → Keeps (m >>= f)
unfolding ◌>>=◌
Keeps-bind {A = A} {m = m} {f = f} h k = record { run = λ w g. by_answer (m w) (h.run w g) }
  where
    by_answer : (r : Result A × World) → IsGuarded r.1.trace → IsGuarded (resume r f).1.trace
    by_answer (ok a, v) g = (k a).run v g
    by_answer (err e, v) g = g

pub Keeps-then : {B : Type 0} {m : M (Unit {0})} {k : M B} → Keeps m → Keeps k → Keeps (m >> k)
unfolding ◌>>◌
Keeps-then h k = Keeps-bind h (λ _. k)

pub Keeps-wrapping : (text : String) {A : Type 0} {m : M A} → Keeps m → Keeps (wrapping text m)
unfolding wrapping
Keeps-wrapping text {A = A} {m = m} h = record { run = λ w g. by_answer (m w) (h.run w g) }
  where
    by_answer :
        (r : Result A × World) → IsGuarded r.1.trace → IsGuarded (wrap_result text r).1.trace
    by_answer (ok a, v) g = g
    by_answer (err e, v) g = g

pub Keeps-attempt : {A : Type 0} {m : M A} → Keeps m → Keeps (attempt m)
unfolding attempt
Keeps-attempt h = record { run = λ w g. h.run w g }

pub Keeps-if : (b : Bool) {A : Type 0} {m n : M A} → Keeps m → Keeps n → Keeps (if b then m else n)
Keeps-if true h k = h
Keeps-if false h k = k

pub Keeps-if_of :
    (b : Bool) {A : Type 0} {m n : M A}
    → (b ≡ true → Keeps m)
    → (b ≡ false → Keeps n)
    → Keeps (if b then m else n)
Keeps-if_of true h k = h refl
Keeps-if_of false h k = k refl

pub Keeps-when : (b : Bool) {m : M (Unit {0})} → Keeps m → Keeps (when b m)
unfolding when done return
Keeps-when true h = h
Keeps-when false h = record { run = λ w g. g }

-- A step that makes no call
pub Keeps-silent : {A : Type 0} {m : M A} → ((w : World) → (m w).1.trace ≡ w.trace) → Keeps m
Keeps-silent s = record { run = λ w g. subst IsGuarded (sym (s w)) g }

pub Keeps-send : (env : Env) (c : Call) → ((t : Trace) → is_allowed c t ≡ true) → Keeps (send env c)
unfolding send
Keeps-send env c h = record { run = λ w g. (h w.trace, g) }
