-- ===== src/Controller/GuardDeletion.antt =====
-- Guarded exchanges (Controller/Guard.antt) under the clean-up of `handleDeletion`
-- (internal/controller/cashumint_controller.go).
use cashu_operator.Controller.GuardSteps.{Keeps-the_mint, Keeps-return}
use cashu_operator.Api.{CashuMint}
use cashu_operator.Controller.Guard.{
  IsGuarded, is_after_loss, is_after_find, is_allowed, Keeps, Keeps-bind, owes_cleanup, Keeps-then,
  Keeps-when,
}
use cashu_operator.Controller.Secrets.{
  delete_postgres_secret, handle_deletion, without_finalizer, postgres_secret_name,
}
use cashu_operator.Controller.Monad.{
  event, attempt, World, M, fail, send, ◌>>=◌, ◌>>◌, done, get_secret, return, is_not_found, noting,
  failure_of, outcome, put_mint, when, resume,
}
use cashu_operator.Controller.Env.{Env, Result, Secret, ok, err, delete, get, secret, Error, update}
use cashu_operator.Common.{
  String, false, if◌then◌else◌, ◌≡◌, true, Option, none, eq_refl, Bool-cases, some, inl, inr, refl,
  Bool, not, or_true, not_and_false,
}

-- The exchanges are guarded, and where there is no error the secret is gone.
abbrev IsCleared : String → String → Result (Unit {0}) × World → Type 0
IsCleared ns name (ok _, w) = IsGuarded w.trace × (is_after_loss ns name w.trace ≡ true)
IsCleared ns name (err e, w) = IsGuarded w.trace

module _ (env : Env) where
  open env use {server, library}

  after_deletion : String → String → (r : Result (Unit {0})) → M (Unit {0})
  after_deletion ns name r = elim r [
    | ok _ ↦ event false "SecretDeleted"
    | err e ↦
        if is_not_found e
        then event false "SecretDeleted"
        else event true "CleanupFailed" >> fail {A = Unit {0}} e
  ]

  after_deletion-IsCleared :
      (ns name : String) (w : World)
      → IsGuarded w.trace
      → is_after_find ns name w.trace ≡ true
      → (f : Option Error)
      → IsCleared ns name (after_deletion ns name (outcome f) (noting (delete secret ns name) f w))
  unfolding after_deletion event fail ◌>>◌ ◌>>=◌
  after_deletion-IsCleared ns name w g s none = ((s, g), simp (eq_refl))
  after_deletion-IsCleared ns name w g s (some e) = elim (Bool-cases (is_not_found e)) [
    | inl b ↦ rw (b) ((s, g), simp (eq_refl, b))
    | inr b ↦ rw (b) (s, g)
  ]

  after_read : String → String → (r : Result Secret) → M (Unit {0})
  after_read ns name r = elim r [
    | err e ↦ if is_not_found e then done else fail {A = Unit {0}} e
    | ok _ ↦ attempt (send env (delete secret ns name)) >>= after_deletion ns name
  ]

  after_read-IsCleared :
      (ns name : String) (w : World)
      → IsGuarded w.trace
      → (r : Result Secret)
      → IsCleared ns name (after_read ns name r (noting (get secret ns name) (failure_of r) w))
  unfolding after_read attempt send done return fail ◌>>=◌
  after_read-IsCleared ns name w g (ok s) =
      after_deletion-IsCleared ns name (noting (get secret ns name) none w) (refl, g)
        (simp (eq_refl)) _
  after_read-IsCleared ns name w g (err e) = elim (Bool-cases (is_not_found e)) [
    | inl b ↦ rw (b) ((refl, g), simp (eq_refl, b))
    | inr b ↦ rw (b) (refl, g)
  ]

  delete_postgres_secret-IsCleared :
      (ns name : String) (w : World)
      → IsGuarded w.trace
      → IsCleared ns name (delete_postgres_secret env ns name w)
  unfolding delete_postgres_secret ◌>>=◌ attempt get_secret after_read after_deletion
  delete_postgres_secret-IsCleared ns name w g =
      after_read-IsCleared ns name w g (server.get_secret w.trace ns name)

  -- The last steps of the clean-up, where the mint owes none or the secret is gone
  finish : CashuMint → M (Unit {0})
  finish m =
      event false "Deleted"
      >> (put_mint (without_finalizer env m) >> send env (update (without_finalizer env m)))

  finish-IsGuarded :
      (m : CashuMint) (w : World)
      → IsGuarded w.trace
      → is_allowed (update m) w.trace ≡ true
      → IsGuarded (finish m w).1.trace
  unfolding finish event put_mint send ◌>>◌ ◌>>=◌
  finish-IsGuarded m w g a = (a, g)

  cleanup :
      (m : CashuMint) (b : Bool)
      → (b ≡ false → not (owes_cleanup m) ≡ true)
      → Keeps (
          when b
            (delete_postgres_secret env m.metadata.namespace (postgres_secret_name m.metadata.name))
          >> finish m)
  unfolding when done return ◌>>◌ ◌>>=◌
  cleanup m false h = record { run = λ w g. finish-IsGuarded m w g (simp (h refl)) }
  cleanup m true h = record {
    run = λ w g.
        by_answer
          (delete_postgres_secret env m.metadata.namespace (postgres_secret_name m.metadata.name) w)
          (delete_postgres_secret-IsCleared m.metadata.namespace
            (postgres_secret_name m.metadata.name) w g);
  }
    where
      by_answer :
          (r : Result (Unit {0}) × World)
          → IsCleared m.metadata.namespace (postgres_secret_name m.metadata.name) r
          → IsGuarded (resume r (λ _. finish m)).1.trace
      by_answer (ok _, v) (g, c) = finish-IsGuarded m v g (rw (c) (or_true _))
      by_answer (err e, v) g = g

  pub Keeps-handle_deletion : Keeps (handle_deletion env)
  unfolding handle_deletion finish
  Keeps-handle_deletion = Keeps-bind (Keeps-the_mint env) (λ m.
      Keeps-then (Keeps-when _ (cleanup m _ (not_and_false m.metadata.is_deleted _)))
        (Keeps-return env _))
