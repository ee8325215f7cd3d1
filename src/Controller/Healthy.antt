-- ===== src/Controller/Healthy.antt =====
-- A cluster in which the calls of internal/controller/cashumint_controller.go succeed, and a mint
-- whose secrets can be read there.
use cashu_operator.Controller.Secrets.{postgres_secret_name, cashu_mint_finalizer}
use cashu_operator.Controller.Status.{set_condition, set_phase, phase_is}
use cashu_operator.Controller.Readiness.{is_deployment_ready}
use cashu_operator.Controller.Configuration.{auth_reference}
use cashu_operator.Controller.Works.{
  OfOk, Works, Any, Works-asked, Works-bind, Works-the_mint, Works-put_mint,
}
use cashu_operator.Controller.Monad.{
  send, get_config_map, get_secret, get_mint, get_service, get_ingress, get_deployment,
}
use cashu_operator.Api.{
  ObjectMeta, CashuMint, ConditionType, MintPhase, SecretKeySelector, PostgresConfig, AuthConfig,
  AuthDatabaseConfig, unset,
}
use cashu_operator.Common.{
  String, Option, Bool, ◌≡◌, or_value, ◌==◌, some, none, lookup, ◌||◌, if◌then◌else◌, true, false,
  not,
}
use cashu_operator.Controller.Env.{Env, Trace, Call, Generators}

-- The generators that a pass calls give no error.
pub record MakesAll (g : Generators) : Type 0 where
  pub postgres_service : (m : CashuMint) → OfOk Any (g.postgres_service m)
  pub postgres_stateful_set : (m : CashuMint) → OfOk Any (g.postgres_stateful_set m)
  pub cron_job_made : (m : CashuMint) → OfOk Any (g.postgres_backup_cron_job m)
  pub restore_job : (m : CashuMint) → OfOk Any (g.postgres_restore_job m)
  pub config_map_object :
      (m : CashuMint) (password : String) → OfOk Any (g.config_map_object m password)
  pub pvc_object : (m : CashuMint) → OfOk Any (g.pvc_object m)
  pub orchard_pvc : (m : CashuMint) → OfOk Any (g.orchard_pvc m)
  pub deployment_object : (m : CashuMint) (hash : String) → OfOk Any (g.deployment_object m hash)
  pub service_object : (m : CashuMint) → OfOk Any (g.service_object m)
  pub orchard_service : (m : CashuMint) → OfOk Any (g.orchard_service m)
  pub pod_monitor_object : (m : CashuMint) → OfOk Any (g.pod_monitor_object m)
  pub ingress_object : (m : CashuMint) → OfOk Any (g.ingress_object m)
  pub orchard_ingress : (m : CashuMint) → OfOk Any (g.orchard_ingress m)
  pub certificate_object : (m : CashuMint) → OfOk Any (g.certificate_object m)
  pub orchard_certificate : (m : CashuMint) → OfOk Any (g.orchard_certificate m)

-- Every write is accepted, what the reconciler reads is there, the deployment is rolled out, and
-- the generators give no error.
pub record IsHealthy (env : Env) : Type 0 where
  pub writes : (t : Trace) (c : Call) → env.server.write t c ≡ none
  pub mints : (t : Trace) (ns name : String) → OfOk Any (env.server.get_mint t ns name)
  pub secrets : (t : Trace) (ns name : String) → OfOk Any (env.server.get_secret t ns name)
  pub config_maps : (t : Trace) (ns name : String) → OfOk Any (env.server.get_config_map t ns name)
  pub services : (t : Trace) (ns name : String) → OfOk Any (env.server.get_service t ns name)
  pub ingresses : (t : Trace) (ns name : String) → OfOk Any (env.server.get_ingress t ns name)
  pub deployments :
      (t : Trace) (ns name : String)
      → OfOk (λ d. is_deployment_ready d ≡ true) (env.server.get_deployment t ns name)
  pub manifests : MakesAll env.generators

-- The secret has a value that is not empty under the key.
pub record HasValue (env : Env) (ns name key : String) : Type 0 where
  pub read :
      (t : Trace)
      → OfOk
          (λ s. (or_value (lookup key s.entries) "" == "") ≡ false)
          (env.server.get_secret t ns name)

-- The reference is complete, and leads to a value.
pub record IsReadable (env : Env) (ns : String) (ref : SecretKeySelector) : Type 0 where
  pub is_complete : ((ref.name == "") || (ref.key == "")) ≡ false
  pub value : HasValue env ns ref.name ref.key

abbrev pub OfReference : Env → String → Option SecretKeySelector → Type 0
OfReference env ns none = Unit
OfReference env ns (some ref) = IsReadable env ns ref

-- What is read of a database: its password, where the operator provisions it, and else its URL.
abbrev pub OfDatabase : Env → ObjectMeta → Option PostgresConfig → Type 0
OfDatabase env meta none = Unit
OfDatabase env meta (some p) =
    if p.auto_provision
    then HasValue env meta.namespace (postgres_secret_name meta.name) "password"
    else OfReference env meta.namespace p.url_secret_ref

abbrev pub OfAuth :
    Env
    → String
    → Option (AuthConfig × (AuthDatabaseConfig × (PostgresConfig × SecretKeySelector)))
    → Type 0
OfAuth env ns none = Unit
OfAuth env ns (some (a, (d, (p, ref)))) = IsReadable env ns ref

abbrev pub AuthIsReadable : Env → CashuMint → Type 0
AuthIsReadable env m = OfAuth env m.metadata.namespace (auth_reference env m.spec.auth)

-- Whatever its status, the secrets to which the mint refers can be read.
abbrev pub IsResolvable : Env → CashuMint → Type 0
IsResolvable env m = OfDatabase env m.metadata m.spec.database.postgres × AuthIsReadable env m

-- A mint that is there, that earlier passes have given its finalizer and a phase, and whose secrets
-- can be read.
pub record IsAdmitted (env : Env) (m : CashuMint) : Type 0 where
  pub is_live : m.metadata.is_deleted ≡ false
  pub has_finalizer :
      not (env.library.contains_finalizer m.metadata.finalizers cashu_mint_finalizer) ≡ false
  pub has_phase : phase_is m.status.phase unset ≡ false
  pub is_resolvable : IsResolvable env m

module _ (env : Env) (healthy : IsHealthy env) where
  open env use {server, library, generators}

  pub Works-send : {Q : CashuMint → Type 0} (c : Call) → Works Q (send env c) Any Q
  unfolding send
  Works-send c = record { run = λ w q. rw (healthy.writes w.trace c) (tt, q) }

  pub Works-get_config_map :
      {Q : CashuMint → Type 0} (ns name : String) → Works Q (get_config_map env ns name) Any Q
  unfolding get_config_map
  Works-get_config_map ns name = Works-asked Any _ _ (λ w. healthy.config_maps w.trace ns name)

  pub Works-get_secret :
      {Q : CashuMint → Type 0} (ns name : String) → Works Q (get_secret env ns name) Any Q
  unfolding get_secret
  Works-get_secret ns name = Works-asked Any _ _ (λ w. healthy.secrets w.trace ns name)

  pub Works-get_mint :
      {Q : CashuMint → Type 0} (ns name : String) → Works Q (get_mint env ns name) Any Q
  unfolding get_mint
  Works-get_mint ns name = Works-asked Any _ _ (λ w. healthy.mints w.trace ns name)

  pub Works-get_service :
      {Q : CashuMint → Type 0} (ns name : String) → Works Q (get_service env ns name) Any Q
  unfolding get_service
  Works-get_service ns name = Works-asked Any _ _ (λ w. healthy.services w.trace ns name)

  pub Works-get_ingress :
      {Q : CashuMint → Type 0} (ns name : String) → Works Q (get_ingress env ns name) Any Q
  unfolding get_ingress
  Works-get_ingress ns name = Works-asked Any _ _ (λ w. healthy.ingresses w.trace ns name)

  pub Works-get_deployment :
      {Q : CashuMint → Type 0} (ns name : String)
      → Works Q (get_deployment env ns name) (λ d. is_deployment_ready d ≡ true) Q
  unfolding get_deployment
  Works-get_deployment ns name = Works-asked _ _ _ (λ w. healthy.deployments w.trace ns name)

  -- The status has no part in what can be read.
  pub Works-set_condition :
      (c : ConditionType) (b : Bool) (reason message : String)
      → Works (IsResolvable env) (set_condition env c b reason message) Any (IsResolvable env)
  Works-set_condition c b reason message = Works-bind Works-the_mint (λ m q. Works-put_mint _ q)

  pub Works-set_phase :
      (p : MintPhase) → Works (IsResolvable env) (set_phase env p) Any (IsResolvable env)
  Works-set_phase p = Works-bind Works-the_mint (λ m q. Works-put_mint _ q)
