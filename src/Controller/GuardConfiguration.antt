-- ===== src/Controller/GuardConfiguration.antt =====
-- Guarded exchanges (Controller/Guard.antt) under `reconcileConfigMap` of
-- internal/controller/cashumint_controller.go.
use cashu_operator.Controller.GuardSteps.{
  Keeps-the_mint, Keeps-fail, Keeps-get_secret, Keeps-lift, Keeps-return, Keeps-patch,
  Keeps-set_condition,
}
use cashu_operator.Api.{
  CashuMint, SecretKeySelector, PostgresConfig, AuthConfig, AuthDatabaseConfig,
}
use cashu_operator.Common.{String, Option, none, some}
use cashu_operator.Controller.Guard.{Keeps, Keeps-bind, Keeps-then, Keeps-if, Keeps-wrapping}
use cashu_operator.Controller.Configuration.{
  resolve_required_secret_value, provisioned_password, reconcile_config_map, resolve_database_url,
  resolve_postgres, resolve_auth_url,
}
use cashu_operator.Controller.Env.{Env}

module _ (env : Env) where
  open env use {server, library, generators}

  Keeps-resolve_value :
      (ns path : String) (ref : SecretKeySelector)
      → Keeps (resolve_required_secret_value env ns ref path)
  unfolding resolve_required_secret_value
  Keeps-resolve_value ns path ref = Keeps-if _ (Keeps-fail env _) (
      Keeps-bind (Keeps-wrapping _ (Keeps-get_secret env _ _))
        (λ s. Keeps-if _ (Keeps-fail env _) (Keeps-return env _)))

  Keeps-password : (ns name : String) → Keeps (provisioned_password env ns name)
  unfolding provisioned_password
  Keeps-password ns name =
      Keeps-bind (Keeps-wrapping _ (Keeps-get_secret env _ _))
        (λ s. Keeps-if _ (Keeps-fail env _) (Keeps-return env _))

  Keeps-database_url :
      (m : CashuMint) (p : PostgresConfig) (ref : Option SecretKeySelector)
      → Keeps (resolve_database_url env m p ref)
  unfolding resolve_database_url
  Keeps-database_url m p none = Keeps-return env _
  Keeps-database_url m p (some ref) =
      Keeps-bind (Keeps-resolve_value _ _ _) (λ url. Keeps-return env _)

  Keeps-postgres : (m : CashuMint) (p : Option PostgresConfig) → Keeps (resolve_postgres env m p)
  unfolding resolve_postgres
  Keeps-postgres m none = Keeps-return env _
  Keeps-postgres m (some p) = Keeps-if _ (Keeps-return env _) (
      Keeps-if _ (Keeps-bind (Keeps-password _ _) (λ v. Keeps-return env _))
        (Keeps-database_url m p _))

  Keeps-auth_url :
      (m : CashuMint)
      (r : Option (AuthConfig × (AuthDatabaseConfig × (PostgresConfig × SecretKeySelector))))
      → Keeps (resolve_auth_url env m r)
  unfolding resolve_auth_url
  Keeps-auth_url m none = Keeps-return env _
  Keeps-auth_url m (some (a, (d, (p, ref)))) =
      Keeps-bind (Keeps-resolve_value _ _ _) (λ url. Keeps-return env _)

  pub Keeps-config_map : Keeps (reconcile_config_map env)
  unfolding reconcile_config_map
  Keeps-config_map = Keeps-bind (Keeps-the_mint env) (λ m. Keeps-bind (Keeps-postgres m _) (λ c.
      Keeps-bind (Keeps-auth_url c.0 _) (λ copy.
        Keeps-bind (Keeps-wrapping _ (Keeps-lift env _)) (λ o.
          Keeps-then (Keeps-wrapping _ (Keeps-patch env o)) (Keeps-set_condition env _ _ _ _)))))
