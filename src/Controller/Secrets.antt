-- ===== src/Controller/Secrets.antt =====
-- internal/controller/cashumint_controller.go: the secrets that are created once and never
-- overwritten, and the clean-up of the finalizer.
use cashu_operator.Controller.Status.{Requeue, no_requeue}
use cashu_operator.Controller.Monad.{
  M, done, ◌>>=◌, attempt, the_mint, send, get_secret, wrapping, ◌>>◌, lift, when,
  is_already_exists, is_not_found, event, fail, put_mint, return,
}
use cashu_operator.Api.{
  PostgresConfig, CashuMint, management_rpc_tls_enabled, management_rpc_tls_secret_name,
}
use cashu_operator.Controller.Env.{Env, Object, create, ok, err, wrapped, delete, update, secret}
use cashu_operator.Common.{
  String, Option, ◌<>◌, Bool, false, some, none, if◌then◌else◌, not, ◌||◌, present, true,
}

abbrev pub cashu_mint_finalizer : String
cashu_mint_finalizer = "mint.cashu.asmogo.github.io/finalizer"

-- `MnemonicSecretName` of generators/mnemonic.go
abbrev pub mnemonic_secret_name : String → String
mnemonic_secret_name mint = mint <> "-mnemonic"

abbrev pub postgres_secret_name : String → String
postgres_secret_name mint = mint <> "-postgres-secret"

abbrev pub is_auto_provisioned : Option PostgresConfig → Bool
is_auto_provisioned none = false
is_auto_provisioned (some p) = p.auto_provision

module _ (env : Env) where
  open env use {library, generators}

  -- `if err := r.Create(ctx, o); err != nil && !apierrors.IsAlreadyExists(err) { return … }`
  unfoldable pub create_once : String → Object → M (Unit {0})
  create_once text o = do
    r ← attempt (send env (create o))
    elim r [ ok _ ↦ done | err e ↦ if is_already_exists e then done else fail (wrapped text e) ]

  abbrev pub create_optional : String → Option Object → M (Unit {0})
  create_optional text none = done
  create_optional text (some o) = create_once text o

  -- Read a secret, and make it where the read found none.
  unfoldable pub ensure_secret : String → String → String → M (Unit {0}) → M (Unit {0})
  ensure_secret text ns name make = do
    r ← attempt (get_secret env ns name)
    elim r [ ok _ ↦ done | err e ↦ if is_not_found e then make else fail (wrapped text e) ]

  -- `reconcileOptionalMnemonic`
  unfoldable pub reconcile_optional_mnemonic : M (Unit {0})
  reconcile_optional_mnemonic = do
    m ← the_mint
    let info = m.spec.mint_info in
        if not info.auto_generate_mnemonic || present info.mnemonic_secret_ref
        then done
        else ensure_secret "failed to get mnemonic secret" m.metadata.namespace
            (mnemonic_secret_name m.metadata.name)
            (do
              o ←
                  wrapping "failed to generate mnemonic secret"
                    (lift (generators.mnemonic_secret m))
              create_once "failed to create mnemonic secret" o
              event false "MnemonicCreated")

  -- `reconcileManagementRPCTLSSecret`
  unfoldable pub reconcile_management_rpc_tls_secret : M (Unit {0})
  reconcile_management_rpc_tls_secret = do
    m ← the_mint
    if not (management_rpc_tls_enabled m.spec)
        then done
        else ensure_secret "failed to get management RPC TLS secret" m.metadata.namespace
            (management_rpc_tls_secret_name m.spec m.metadata.name)
            (do
              o ←
                  wrapping "failed to generate management RPC TLS secret"
                    (lift (generators.management_rpc_tls_secret m))
              create_optional "failed to create management RPC TLS secret" o)

  -- The first part of `reconcilePostgreSQL`
  unfoldable pub reconcile_postgres_secret : M (Unit {0})
  reconcile_postgres_secret = do
    m ← the_mint
    ensure_secret "failed to get postgres secret" m.metadata.namespace
        (postgres_secret_name m.metadata.name)
        (do
          o ← wrapping "failed to generate PostgreSQL secret" (lift (generators.postgres_secret m))
          create_optional "failed to create PostgreSQL secret" o)

  -- The clean-up of `handleDeletion`: the secret of an auto-provisioned database.
  unfoldable pub delete_postgres_secret : String → String → M (Unit {0})
  delete_postgres_secret ns name = do
    r ← attempt (get_secret env ns name)
    elim r [
      | err e ↦ if is_not_found e then done else fail e
      | ok _ ↦ do
        d ← attempt (send env (delete secret ns name))
        elim d [
          | ok _ ↦ event false "SecretDeleted"
          | err e ↦
              if is_not_found e
              then event false "SecretDeleted"
              else do event true "CleanupFailed"; fail e
        ]
    ]

  abbrev pub without_finalizer : CashuMint → CashuMint
  without_finalizer m = record m {
    metadata = record m.metadata {
      finalizers = library.remove_finalizer m.metadata.finalizers cashu_mint_finalizer;
    };
  }

  -- `handleDeletion`
  unfoldable pub handle_deletion : M Requeue
  handle_deletion = do
    m ← the_mint
    when (library.contains_finalizer m.metadata.finalizers cashu_mint_finalizer) (do
      when (is_auto_provisioned m.spec.database.postgres)
          (delete_postgres_secret m.metadata.namespace (postgres_secret_name m.metadata.name))
      event false "Deleted"
      put_mint (without_finalizer m)
      send env (update (without_finalizer m)))
    return no_requeue
