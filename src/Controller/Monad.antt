-- ===== src/Controller/Monad.antt =====
-- State and errors of one pass: the exchanges with the API server, the mint behind the pointer
-- `cashuMint`, which the steps share, and the recorded events.
use cashu_operator.Api.{CashuMint}
use cashu_operator.Controller.Env.{
  not_found, conflict, already_exists, no_match, Trace, Result, ok, Error, Call, Env, err, Reason,
  get, Secret, ConfigMap, Deployment, Ingress, Object, api, wrapped, mint_kind, secret, config_map,
  deployment, service, ingress, StatefulSet, plain, other_reason, patch,
}
use cashu_operator.Common.{false, Bool, String, Option, List, ◌∷◌, none, some, true, ◌<>◌}

-- `r.Recorder.Event`, with its type and reason.
pub record Event : Type 0 where
  pub is_warning : Bool
  pub reason : String

pub record World : Type 0 where
  pub trace : Trace
  pub mint : CashuMint
  pub events : List Event

abbrev pub M : Type 0 → Type 0
M A = World → Result A × World

infixl 5 ◌>>=◌ ◌>>◌
abbrev pub resume : {A B : Type 0} → Result A × World → (A → M B) → Result B × World
resume (ok a, w) f = f a w
resume (err e, w) f = (err e, w)

unfoldable pub ◌>>=◌ : {A B : Type 0} → M A → (A → M B) → M B
◌>>=◌ m f w = resume (m w) f

unfoldable pub ◌>>◌ : {B : Type 0} → M (Unit {0}) → M B → M B
m >> k = m >>= λ _. k

unfoldable pub return : {A : Type 0} → A → M A
return a w = (ok a, w)

unfoldable pub fail : {A : Type 0} → Error → M A
fail e w = (err e, w)

unfoldable pub done : M (Unit {0})
done = return tt

-- `if b { … }`
unfoldable pub when : Bool → M (Unit {0}) → M (Unit {0})
when true m = m
when false m = done

abbrev pub wrap_result : {A : Type 0} → String → Result A × World → Result A × World
wrap_result text (ok a, w) = (ok a, w)
wrap_result text (err e, w) = (err (wrapped text e), w)

-- `if err != nil { return fmt.Errorf("text: %w", err) }`
unfoldable pub wrapping : {A : Type 0} → String → M A → M A
wrapping text m w = wrap_result text (m w)

-- The error and the state, for code that goes on after an error.
unfoldable pub attempt : {A : Type 0} → M A → M (Result A)
attempt m w = let (r, w') = m w in (ok r, w')

unfoldable pub lift : {A : Type 0} → Result A → M A
lift r w = (r, w)

unfoldable pub the_mint : M CashuMint
the_mint w = (ok w.mint, w)

unfoldable pub put_mint : CashuMint → M (Unit {0})
put_mint m w = (ok tt, record w { mint = m })

unfoldable pub event : Bool → String → M (Unit {0})
event warning reason w =
    (ok tt, record w { events = record { is_warning = warning; reason = reason } ∷ w.events })

abbrev pub failure_of : {A : Type 0} → Result A → Option Error
failure_of (ok a) = none
failure_of (err e) = some e

abbrev pub noting : Call → Option Error → World → World
noting c f w = record w { trace = record { call = c; failure = f } ∷ w.trace }

abbrev pub asked : {A : Type 0} → Call → Result A → M A
asked c r w = (r, noting c (failure_of r) w)

abbrev pub outcome : Option Error → Result (Unit {0})
outcome none = ok tt
outcome (some e) = err e

-- `apierrors.IsNotFound`, `IsConflict`, `IsAlreadyExists` and `meta.IsNoMatchError`
abbrev pub reason_of : Error → Reason
reason_of (api r text) = r
reason_of (plain text) = other_reason
reason_of (wrapped text e) = reason_of e

abbrev pub is_not_found : Error → Bool
is_not_found e = elim (reason_of e) [ not_found ↦ true | _ ↦ false ]

abbrev pub is_conflict : Error → Bool
is_conflict e = elim (reason_of e) [ conflict ↦ true | _ ↦ false ]

abbrev pub is_already_exists : Error → Bool
is_already_exists e = elim (reason_of e) [ already_exists ↦ true | _ ↦ false ]

abbrev pub is_no_match : Error → Bool
is_no_match e = elim (reason_of e) [ no_match ↦ true | _ ↦ false ]

-- `err.Error()`
abbrev pub error_text : Error → String
error_text (api r text) = text
error_text (plain text) = text
error_text (wrapped text e) = text <> (": " <> error_text e)

-- The calls of `client.Client`.
module _ (env : Env) where
  open env use {server}

  unfoldable pub get_mint : String → String → M CashuMint
  get_mint ns name w = asked (get mint_kind ns name) (server.get_mint w.trace ns name) w

  unfoldable pub get_secret : String → String → M Secret
  get_secret ns name w = asked (get secret ns name) (server.get_secret w.trace ns name) w

  unfoldable pub get_config_map : String → String → M ConfigMap
  get_config_map ns name w =
      asked (get config_map ns name) (server.get_config_map w.trace ns name) w

  unfoldable pub get_deployment : String → String → M Deployment
  get_deployment ns name w =
      asked (get deployment ns name) (server.get_deployment w.trace ns name) w

  unfoldable pub get_service : String → String → M String
  get_service ns name w = asked (get service ns name) (server.get_service w.trace ns name) w

  unfoldable pub get_ingress : String → String → M Ingress
  get_ingress ns name w = asked (get ingress ns name) (server.get_ingress w.trace ns name) w

  -- Every write; `applyResource` is a write of `patch`.
  unfoldable pub send : Call → M (Unit {0})
  send c w = let f = server.write w.trace c in (outcome f, noting c f w)

  unfoldable pub apply_stateful_set : Object → M StatefulSet
  unfolding send
  apply_stateful_set o = do send (patch o); (λ w. (ok (server.patched_stateful_set w.trace o), w))
