-- ===== src/Controller/Configuration.antt =====
-- internal/controller/cashumint_controller.go: the ConfigMap, with the secrets that it needs.
use cashu_operator.Controller.Status.{set_condition}
use cashu_operator.Controller.Secrets.{postgres_secret_name}
use cashu_operator.Controller.Monad.{
  M, return, fail, ◌>>=◌, wrapping, the_mint, get_secret, lift, ◌>>◌, send,
}
use cashu_operator.Api.{
  CashuMint, SecretKeySelector, PostgresConfig, AuthDatabaseConfig, AuthConfig,
  database_engine_postgres, config_valid,
}
use cashu_operator.Common.{
  String, if◌then◌else◌, none, some, ◌==◌, ◌||◌, not, ◌<>◌, or_value, lookup, true, Option,
}
use cashu_operator.Controller.Env.{Env, plain, patch}

module _ (env : Env) where
  open env use {server, generators}

  -- `resolveRequiredSecretValue` on a reference that is set
  unfoldable pub resolve_required_secret_value : String → SecretKeySelector → String → M String
  resolve_required_secret_value ns ref path =
      if (ref.name == "") || (ref.key == "")
      then fail (plain (path <> " must specify both secret name and key"))
      else (do
        s ←
            wrapping (path <> (" secret " <> (ref.name <> " not ready yet")))
              (get_secret env ns ref.name)
        let v = or_value (lookup ref.key s.entries) "" in
            if v == ""
            then fail (
                plain (
                  path
                  <> (" references secret "
                      <> (ref.name <> (" key " <> (ref.key <> ", but it is missing or empty"))))))
            else return v)

  -- The password of an auto-provisioned database.
  unfoldable pub provisioned_password : String → String → M String
  provisioned_password ns name = do
    s ← wrapping ("postgres secret " <> (name <> " not ready yet")) (get_secret env ns name)
    let v = or_value (lookup "password" s.entries) "" in
        if v == ""
        then fail (plain ("postgres secret " <> (name <> " exists but password key is empty")))
        else return v

  -- `pg.URL = url; pg.URLSecretRef = nil`
  abbrev pub with_url : String → PostgresConfig → PostgresConfig
  with_url url p = record p { url = url; url_secret_ref = none }

  abbrev pub with_database_url : String → PostgresConfig → CashuMint → CashuMint
  with_database_url url p m = record m {
    spec = record m.spec { database = record m.spec.database { postgres = some (with_url url p) } };
  }

  abbrev pub with_auth_url :
      String → PostgresConfig → AuthDatabaseConfig → AuthConfig → CashuMint → CashuMint
  with_auth_url url p d a m = record m {
    spec = record m.spec {
      auth = some (record a { database = some (record d { postgres = some (with_url url p) }) });
    };
  }

  unfoldable pub resolve_database_url :
      CashuMint → PostgresConfig → Option SecretKeySelector → M (CashuMint × String)
  resolve_database_url m p none = return (m, "")
  resolve_database_url m p (some ref) = do
    url ←
        resolve_required_secret_value m.metadata.namespace ref "spec.database.postgres.urlSecretRef"
    return (with_database_url url p m, "")

  unfoldable pub resolve_postgres : CashuMint → Option PostgresConfig → M (CashuMint × String)
  resolve_postgres m none = return (m, "")
  resolve_postgres m (some p) =
      if not (m.spec.database.engine == database_engine_postgres)
      then return (m, "")
      else if p.auto_provision
      then (do
        v ← provisioned_password m.metadata.namespace (postgres_secret_name m.metadata.name)
        return (m, v))
      else resolve_database_url m p p.url_secret_ref

  -- The mint whose configuration is written, with the password of its database.
  abbrev pub resolve_database : CashuMint → M (CashuMint × String)
  resolve_database m = resolve_postgres m m.spec.database.postgres

  -- The settings that lead to the secret of an enabled authentication's database.
  abbrev pub auth_reference :
      Option AuthConfig
      → Option (AuthConfig × (AuthDatabaseConfig × (PostgresConfig × SecretKeySelector)))
  auth_reference none = none
  auth_reference (some a) = if not a.enabled then none else elim a.database [
    | none ↦ none
    | some d ↦ elim d.postgres [
      | none ↦ none
      | some p ↦ elim p.url_secret_ref [ none ↦ none | some ref ↦ some (a, (d, (p, ref))) ]
    ]
  ]

  unfoldable pub resolve_auth_url :
      CashuMint
      → Option (AuthConfig × (AuthDatabaseConfig × (PostgresConfig × SecretKeySelector)))
      → M CashuMint
  resolve_auth_url m none = return m
  resolve_auth_url m (some (a, (d, (p, ref)))) = do
    url ←
        resolve_required_secret_value m.metadata.namespace ref
          "spec.auth.database.postgres.urlSecretRef"
    return (with_auth_url url p d a m)

  abbrev pub resolve_auth : CashuMint → M CashuMint
  resolve_auth m = resolve_auth_url m (auth_reference m.spec.auth)

  -- `reconcileConfigMap`; the resolved mint is a copy, so that no secret reaches the mint.
  unfoldable pub reconcile_config_map : M (Unit {0})
  reconcile_config_map = do
    m ← the_mint
    (copy, password) ← resolve_database m
    copy ← resolve_auth copy
    o ← wrapping "failed to generate ConfigMap" (lift (generators.config_map_object copy password))
    wrapping "failed to apply ConfigMap" (send env (patch o))
    set_condition env config_valid true "ConfigurationValid" "Configuration is valid and applied"
