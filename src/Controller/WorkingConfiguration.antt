-- ===== src/Controller/WorkingConfiguration.antt =====
-- `reconcileConfigMap` of internal/controller/cashumint_controller.go in a healthy cluster.
use cashu_operator.Controller.Secrets.{postgres_secret_name}
use cashu_operator.Controller.Works.{
  Works-bind, Works, Works-the_mint, Any, Works-return, Works-if_not, Works-wrapping, Works-if,
  Works-lift, Works-then, Works-asked,
}
use cashu_operator.Controller.WorkingResources.{Steady}
use cashu_operator.Common.{
  String, Bool, Option, if◌then◌else◌, or_value, lookup, some, ◌==◌, none, ◌≡◌, false, true,
}
use cashu_operator.Api.{
  CashuMint, PostgresConfig, SecretKeySelector, AuthConfig, AuthDatabaseConfig,
}
use cashu_operator.Controller.Configuration.{
  resolve_required_secret_value, provisioned_password, resolve_database_url, resolve_postgres,
  resolve_auth_url, reconcile_config_map, auth_reference,
}
use cashu_operator.Controller.Monad.{get_secret, ◌>>=◌, return}
use cashu_operator.Controller.Healthy.{
  IsHealthy, HasValue, AuthIsReadable, OfDatabase, IsReadable, OfReference, OfAuth, Works-send,
  Works-set_condition,
}
use cashu_operator.Controller.Env.{Env}

module _ (env : Env) (healthy : IsHealthy env) where
  open env use {server, library, generators}

  Works-read_secret :
      {Q : CashuMint → Type 0} (ns name key : String)
      → HasValue env ns name key
      → Works Q (get_secret env ns name) (λ s. (or_value (lookup key s.entries) "" == "") ≡ false) Q
  unfolding get_secret
  Works-read_secret ns name key v = Works-asked _ _ _ (λ w. v.read w.trace)

  Works-resolve_value :
      {Q : CashuMint → Type 0} (ns path : String) (ref : SecretKeySelector)
      → IsReadable env ns ref
      → Works Q (resolve_required_secret_value env ns ref path) Any Q
  unfolding resolve_required_secret_value
  Works-resolve_value ns path ref h = Works-if_not _ _ h.is_complete (
      Works-bind (Works-wrapping _ (Works-read_secret ns ref.name ref.key h.value))
        (λ s v. Works-if_not _ _ v (Works-return _ tt)))

  Works-password :
      {Q : CashuMint → Type 0} (ns name : String)
      → HasValue env ns name "password"
      → Works Q (provisioned_password env ns name) Any Q
  unfolding provisioned_password
  Works-password ns name h =
      Works-bind (Works-wrapping _ (Works-read_secret ns name "password" h))
        (λ s v. Works-if_not _ _ v (Works-return _ tt))

  -- The copy refers to the same secret of the authentication.
  abbrev CopyIsReadable : CashuMint × String → Type 0
  CopyIsReadable c = AuthIsReadable env c.0

  Works-database_url :
      {Q : CashuMint → Type 0} (m : CashuMint) (p : PostgresConfig) (ref : Option SecretKeySelector)
      → OfReference env m.metadata.namespace ref
      → AuthIsReadable env m
      → Works Q (resolve_database_url env m p ref) CopyIsReadable Q
  unfolding resolve_database_url
  Works-database_url m p none h a = Works-return _ a
  Works-database_url m p (some ref) h a =
      Works-bind (Works-resolve_value _ _ ref h) (λ url _. Works-return _ a)

  Works-provisioned :
      {Q : CashuMint → Type 0} (b : Bool) (m : CashuMint) (p : PostgresConfig)
      → (if b
          then HasValue env m.metadata.namespace (postgres_secret_name m.metadata.name) "password"
          else OfReference env m.metadata.namespace p.url_secret_ref)
      → AuthIsReadable env m
      → Works Q
          (if b
            then (provisioned_password env m.metadata.namespace
                  (postgres_secret_name m.metadata.name)
                >>= λ v. return (m, v))
            else resolve_database_url env m p p.url_secret_ref)
          CopyIsReadable
          Q
  Works-provisioned true m p h a = Works-bind (Works-password _ _ h) (λ v _. Works-return _ a)
  Works-provisioned false m p h a = Works-database_url m p _ h a

  Works-postgres :
      {Q : CashuMint → Type 0} (m : CashuMint) (p : Option PostgresConfig)
      → OfDatabase env m.metadata p
      → AuthIsReadable env m
      → Works Q (resolve_postgres env m p) CopyIsReadable Q
  unfolding resolve_postgres
  Works-postgres m none h a = Works-return _ a
  Works-postgres m (some p) h a =
      Works-if _ (Works-return _ a) (Works-provisioned p.auto_provision m p h a)

  Works-auth_url :
      {Q : CashuMint → Type 0} (m : CashuMint)
      (r : Option (AuthConfig × (AuthDatabaseConfig × (PostgresConfig × SecretKeySelector))))
      → OfAuth env m.metadata.namespace r
      → Works Q (resolve_auth_url env m r) Any Q
  unfolding resolve_auth_url
  Works-auth_url m none h = Works-return _ tt
  Works-auth_url m (some (a, (d, (p, ref)))) h =
      Works-bind (Works-resolve_value _ _ ref h) (λ url _. Works-return _ tt)

  pub Works-config_map : Steady env healthy (reconcile_config_map env)
  unfolding reconcile_config_map
  Works-config_map = Works-bind Works-the_mint (λ m (d, a).
      Works-bind (Works-postgres m m.spec.database.postgres d a) (λ (c, password) readable.
        Works-bind (Works-auth_url c (auth_reference env c.spec.auth) readable) (λ copy _.
          Works-bind
            (Works-wrapping _
              (Works-lift Any _ (healthy.manifests.config_map_object copy password)))
            (λ o _.
              Works-then (Works-wrapping _ (Works-send env healthy _))
                (Works-set_condition env healthy _ _ _ _)))))
