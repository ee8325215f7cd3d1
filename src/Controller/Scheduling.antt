-- ===== src/Controller/Scheduling.antt =====
-- That internal/controller/cashumint_controller.go comes back to a mint that is there: when a pass
-- ends, another one follows.
use cashu_operator.Controller.Secrets.{handle_deletion, cashu_mint_finalizer}
use cashu_operator.Controller.Reconcile.{
  reconcile_resources, reconcile_present, reconcile, reconcile_found, with_finalizer,
}
use cashu_operator.Api.{MintPhase, updating, provisioning, CashuMint}
use cashu_operator.Common.{
  false, Bool, if◌then◌else◌, ◌<◌, Bool-cases, arith, true, ◌||◌, inl, inr, String, ◌≡◌, not,
}
use cashu_operator.Controller.Monad.{
  M, ◌>>=◌, ◌>>◌, return, fail, World, resume, attempt, get_mint, put_mint, the_mint, send,
}
use cashu_operator.Controller.Env.{Result, Env, Error, ok, err, update}
use cashu_operator.Controller.Status.{
  Requeue, reconcile_result_for_phase, handle_error, after, phase_is, no_requeue, at_once,
}

-- `controller-runtime` queues the request again: at once, or after a time.
abbrev pub IsScheduled : Requeue → Type 0
IsScheduled no_requeue = ⊥
IsScheduled at_once = Unit
IsScheduled (after n) = 0 < n

-- What holds of the value of a step, if it returns one; an error is queued again with a back-off.
abbrev pub OfReturn : {A : Type 0} → (A → Type 0) → Result A → Type 0
OfReturn P (ok a) = P a
OfReturn P (err e) = Unit

record Returns {A : Type 0} (P : A → Type 0) (m : M A) : Type 0 where
  run : (w : World) → OfReturn P (m w).0

Returns-bind :
    {A B : Type 0} {P : B → Type 0} (m : M A) {f : A → M B}
    → ((a : A) → Returns P (f a))
    → Returns P (m >>= f)
unfolding ◌>>=◌
Returns-bind {A = A} {P = P} m {f = f} k = record { run = λ w. by_answer (m w) }
  where
    by_answer : (r : Result A × World) → OfReturn P (resume r f).0
    by_answer (ok a, v) = (k a).run v
    by_answer (err e, v) = tt

Returns-then :
    {B : Type 0} {P : B → Type 0} (m : M (Unit {0})) {k : M B} → Returns P k → Returns P (m >> k)
unfolding ◌>>◌
Returns-then m h = Returns-bind m (λ _. h)

Returns-return : {A : Type 0} {P : A → Type 0} (a : A) → P a → Returns P (return a)
unfolding return
Returns-return a p = record { run = λ w. p }

Returns-fail : {A : Type 0} {P : A → Type 0} (e : Error) → Returns P (fail e)
unfolding fail
Returns-fail e = record { run = λ w. tt }

Returns-if :
    (b : Bool) {A : Type 0} {P : A → Type 0} {m n : M A}
    → Returns P m
    → Returns P n
    → Returns P (if b then m else n)
Returns-if true h k = h
Returns-if false h k = k

attempt_return :
    {A B : Type 0} {P : A → Type 0} {Q : B → Type 0} (m : M A) (f : Result A → M B)
    → Returns P m
    → ((a : A) → P a → Returns Q (f (ok a)))
    → ((e : Error) → Returns Q (f (err e)))
    → (w : World) → OfReturn Q ((attempt m >>= f) w).0
unfolding attempt ◌>>=◌
attempt_return {A = A} {P = P} {Q = Q} m f h k n w = by_answer (m w).0 (m w).1 (h.run w)
  where
    by_answer : (r : Result A) (v : World) → OfReturn P r → OfReturn Q (f r v).0
    by_answer (ok a) v p = (k a p).run v
    by_answer (err e) v p = (n e).run v

Returns-if_not :
    (b : Bool) {A : Type 0} {P : A → Type 0} (m : M A) {n : M A}
    → b ≡ false
    → Returns P n
    → Returns P (if b then m else n)
Returns-if_not true m h k = absurd (ground arith)
Returns-if_not false m h k = k

Returns-attempt :
    {A B : Type 0} {P : A → Type 0} {Q : B → Type 0} {m : M A} (f : Result A → M B)
    → Returns P m
    → ((a : A) → P a → Returns Q (f (ok a)))
    → ((e : Error) → Returns Q (f (err e)))
    → Returns Q (attempt m >>= f)
Returns-attempt f h k n = record { run = attempt_return _ f h k n }

IsScheduled-phase : (p : MintPhase) → IsScheduled (reconcile_result_for_phase p)
unfolding reconcile_result_for_phase
IsScheduled-phase p = elim (Bool-cases (phase_is p updating || phase_is p provisioning)) [
  | inl b ↦ rw (b) (omega arith)
  | inr b ↦ rw (b) (omega arith)
]

module _ (env : Env) where
  Returns-resources : Returns IsScheduled (reconcile_resources env)
  unfolding reconcile_resources
  Returns-resources = Returns-then _ (
      Returns-then _ (
        Returns-then _ (
          Returns-then _ (
            Returns-then _ (
              Returns-then _ (
                Returns-then _
                  (Returns-bind _ (λ m. Returns-return _ (IsScheduled-phase m.status.phase)))))))))

  Returns-handle_error : (e : Error) → Returns IsScheduled (handle_error env e)
  unfolding handle_error
  Returns-handle_error e = Returns-if _ (Returns-return _ (omega arith)) (
      Returns-if _ (Returns-then _ (Returns-return _ (omega arith))) (
        Returns-then _ (
          Returns-then _
            (Returns-then _ (Returns-bind _ (λ m. Returns-bind _ (λ r. Returns-fail e)))))))

  Returns-present : Returns IsScheduled (reconcile_present env)
  unfolding reconcile_present
  Returns-present = Returns-bind _ (λ m.
      Returns-if _ (Returns-then _ (Returns-then _ (Returns-then _ (Returns-return _ tt)))) (
        Returns-attempt _ Returns-resources (λ r p. Returns-then _ (Returns-return r p))
          Returns-handle_error))

  found_live :
      (w : World)
      → w.mint.metadata.is_deleted ≡ false
      → OfReturn IsScheduled (reconcile_found env w).0
  unfolding reconcile_found ◌>>=◌ the_mint
  found_live w live = (by_finalizer w.mint live).run w
    where
      by_finalizer :
          (m : CashuMint)
          → m.metadata.is_deleted ≡ false
          → Returns IsScheduled (
              if m.metadata.is_deleted
              then handle_deletion env
              else if not
                  (env.library.contains_finalizer m.metadata.finalizers cashu_mint_finalizer)
              then put_mint (with_finalizer env m)
                >> (send env (update (with_finalizer env m)) >> return at_once)
              else reconcile_present env)
      by_finalizer m live =
          Returns-if_not m.metadata.is_deleted _ live
            (Returns-if _ (Returns-then _ (Returns-then _ (Returns-return _ tt))) Returns-present)

  -- A pass over a mint that the server has and that is not deleted either returns an error, after
  -- which the request is queued again, or asks for another pass, at once or after a time that is
  -- not zero.
  pub reconcile-IsScheduled :
      (ns name : String) (w : World) (m : CashuMint)
      → env.server.get_mint w.trace ns name ≡ ok m
      → m.metadata.is_deleted ≡ false
      → OfReturn IsScheduled (reconcile env ns name w).0
  unfolding reconcile ◌>>=◌ ◌>>◌ attempt get_mint put_mint
  reconcile-IsScheduled ns name w m h live = rw (h) (found_live _ live)
