-- ===== src/Controller/Progress.antt =====
-- What a pass of internal/controller/cashumint_controller.go comes to in a healthy cluster.
use cashu_operator.Controller.StatusUpdateLaws.{IsStatusWritten, update_status_of-IsStatusWritten}
use cashu_operator.Controller.Status.{Requeue, handle_error}
use cashu_operator.Controller.WorkingSteps.{IsSettled, IsReady, Works-resources}
use cashu_operator.Controller.Monad.{
  ◌>>=◌, ◌>>◌, attempt, get_mint, put_mint, return, done, World, get_ingress, is_conflict, fail, M,
  resume,
}
use cashu_operator.Common.{
  ◌≡◌, Option, String, none, some, if◌then◌else◌, Bool, refl, ◌∷◌, false, ◌∙◌, arith, [], true,
}
use cashu_operator.Controller.Works.{
  Works, Any, OfOk, Works-bind, Works-the_mint, OfValue, Works-return, Works-attempt, Works-done,
  Works-wrapping,
}
use cashu_operator.Controller.Reconcile.{
  reconcile_present, reconcile_found, reconcile, reconcile_resources,
}
use cashu_operator.Api.{CashuMint, ready}
use cashu_operator.Controller.StatusUpdate.{
  observed_mint, update_status_of, observe_ingress, observe_optional_ingress, ingress_host,
}
use cashu_operator.Controller.Healthy.{
  IsHealthy, Works-get_ingress, Works-get_mint, Works-send, Works-get_deployment, Works-get_service,
  Works-get_config_map, IsAdmitted,
}
use cashu_operator.Controller.Env.{Env, Result, ok, err, Trace, update_status}

-- The latest exchange writes a status in which the mint is ready.
abbrev pub IsWrittenReady : Trace → Type 0
IsWrittenReady [] = ⊥
IsWrittenReady (x ∷ t) = (m : CashuMint) × ((x.call ≡ update_status m) × (m.status.phase ≡ ready))

-- The pass returned a value, of which `P` holds, and its last call wrote the mint as ready.
abbrev pub OfEnd : {A : Type 0} → (A → Type 0) → Result A × World → Type 0
OfEnd P (ok a, w) = P a × IsWrittenReady w.trace
OfEnd P (err e, w) = ⊥

record Ends {A : Type 0} (Q : CashuMint → Type 0) (m : M A) (P : A → Type 0) : Type 0 where
  run : (w : World) → Q w.mint → OfEnd P (m w)

written : (d f : CashuMint) (t : Trace) → IsReady d → IsStatusWritten d f t → IsWrittenReady t
written d f [] r h = h
written d f (x ∷ t) r (m, (e, o)) = (m, (e, o.carried.phase ∙ r))

value_of : {A : Type 0} (r : Result A) → OfOk Any r → (a : A) × (r ≡ ok a)
value_of (ok a) h = (a, refl)
value_of (err e) h = absurd h

module _ (env : Env) (healthy : IsHealthy env) where
  open env use {server, library, generators}

  Works-observed :
      {Q : CashuMint → Type 0} (d f : CashuMint) → Works Q (observed_mint env d f) Any Q
  unfolding observed_mint
  Works-observed {Q = Q} d f =
      Works-bind (Works-attempt (Works-get_deployment env healthy _ _)) (λ r _.
        Works-bind (Works-attempt (Works-get_service env healthy _ _)) (λ s _.
          Works-bind (by_ingress _) (λ m _.
            Works-bind (Works-attempt (Works-get_config_map env healthy _ _))
              (λ c _. Works-return _ tt))))
    where
      by_host :
          (m : CashuMint) (host : Option String)
          → Works Q
              (elim host [
                | none ↦ return m
                | some host ↦
                    attempt (get_ingress env m.metadata.namespace m.metadata.name) >>= λ r.
                    return (observe_ingress library host r m)
              ])
              Any
              Q
      by_host m none = Works-return _ tt
      by_host m (some h) =
          Works-bind (Works-attempt (Works-get_ingress env healthy _ _)) (λ r _. Works-return _ tt)

      by_ingress : (m : CashuMint) → Works Q (observe_optional_ingress env m) Any Q
      by_ingress m = by_host m (ingress_host env m.spec.ingress)

  Works-update_status : {Q : CashuMint → Type 0} → Works Q (update_status_of env) Any Q
  unfolding update_status_of
  Works-update_status {Q = Q} = Works-bind Works-the_mint (λ d _.
      Works-bind (Works-wrapping _ (Works-get_mint env healthy _ _)) (λ f _.
        Works-bind (Works-observed d f)
          (λ m _. Works-bind (Works-attempt (Works-send env healthy _)) by_answer)))
    where
      by_answer :
          (r : Result (Unit {0}))
          → OfOk Any r
          → Works Q
              (elim r [
                | ok _ ↦ done
                | err e ↦ if is_conflict e then done else fail {A = Unit {0}} e
              ])
              Any
              Q
      by_answer (ok _) p = Works-done
      by_answer (err e) p = absurd p

  -- The steps before the last one work, and the last one is the update of the status.
  Ends-bind :
      {A B : Type 0} {Q R : CashuMint → Type 0} {P : A → Type 0} {T : B → Type 0} {m : M A}
      {f : A → M B}
      → Works Q m P R
      → ((a : A) → P a → Ends R (f a) T)
      → Ends Q (m >>= f) T
  unfolding ◌>>=◌
  Ends-bind {A = A} {R = R} {P = P} {T = T} {m = m} {f = f} h k = record {
    run = λ w q. by_answer (m w) (h.run w q);
  }
    where
      by_answer : (r : Result A × World) → OfValue P R r → OfEnd T (resume r f)
      by_answer (ok a, v) (p, q) = (k a p).run v q
      by_answer (err e, v) q = absurd q

  Ends-if_not :
      (b : Bool) {A : Type 0} {Q : CashuMint → Type 0} {P : A → Type 0} (m : M A) {n : M A}
      → b ≡ false
      → Ends Q n P
      → Ends Q (if b then m else n) P
  Ends-if_not true m h k = absurd (ground arith)
  Ends-if_not false m h k = k

  Ends-update_status :
      {A : Type 0} {P : A → Type 0} (a : A)
      → P a
      → Ends IsReady (update_status_of env >> return a) P
  unfolding ◌>>◌ ◌>>=◌ return
  Ends-update_status {P = P} a p = record {
    run = λ w ready. by_answer (update_status_of env w) (Works-update_status.run w ready) (
        let (f, found) = fetched w in
        written w.mint f _ ready (update_status_of-IsStatusWritten env w f found));
  }
    where
      fetched :
          (w : World)
          → (f : CashuMint) × (server.get_mint w.trace w.mint.metadata.namespace
                w.mint.metadata.name
              ≡ ok f)
      fetched w =
          value_of (server.get_mint w.trace w.mint.metadata.namespace w.mint.metadata.name)
            (healthy.mints w.trace w.mint.metadata.namespace w.mint.metadata.name)

      by_answer :
          (r : Result (Unit {0}) × World)
          → OfValue Any IsReady r
          → IsWrittenReady r.1.trace
          → OfEnd P (resume r (λ _. return a))
      by_answer (ok u, v) q t = (p, t)
      by_answer (err e, v) q t = absurd q

  Ends-present : Ends (IsAdmitted env) (reconcile_present env) IsSettled
  unfolding reconcile_present
  Ends-present =
      Ends-bind Works-the_mint
        (λ m a. Ends-if_not _ _ a.has_phase (Ends-bind (Works-attempt Works-known) by_answer))
    where
      Works-known : Works (IsAdmitted env) (reconcile_resources env) IsSettled IsReady
      Works-known = record { run = λ w a. (Works-resources env healthy).run w a.is_resolvable }

      by_answer :
          (r : Result Requeue)
          → OfOk IsSettled r
          → Ends IsReady
              (elim r [
                | err e ↦ handle_error env e
                | ok result ↦ update_status_of env >> return result
              ])
              IsSettled
      by_answer (err e) p = absurd p
      by_answer (ok result) p = Ends-update_status result p

  Ends-found : Ends (IsAdmitted env) (reconcile_found env) IsSettled
  unfolding reconcile_found
  Ends-found =
      Ends-bind Works-the_mint
        (λ m a. Ends-if_not _ _ a.is_live (Ends-if_not _ _ a.has_finalizer Ends-present))

  -- In a healthy cluster, a pass over a mint that the server has, that earlier passes have given its
  -- finalizer and a phase, and whose secrets can be read, returns no error, writes with its last call
  -- a status in which the mint is ready, and asks for the next pass after the interval of a mint that
  -- needs no further step.
  pub reconcile-IsSettled :
      (ns name : String) (w : World) (m : CashuMint)
      → server.get_mint w.trace ns name ≡ ok m
      → IsAdmitted env m
      → OfEnd IsSettled (reconcile env ns name w)
  unfolding reconcile ◌>>=◌ ◌>>◌ attempt get_mint put_mint
  reconcile-IsSettled ns name w m h a = rw (h) (Ends-found.run _ a)
