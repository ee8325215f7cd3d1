-- ===== src/Generators/Pod/Environment.antt =====
-- The names of the variables of the mint's container (internal/controller/generators/deployment.go).
use cashu_operator.Generators.Postgres.{secret_env, plain_env}
use cashu_operator.Generators.ConfigMap.Distinct.{all_distinct, is_member}
use cashu_operator.Generators.Deployment.Env.{
  mint_core_env_vars, mint_logging_env_vars, mint_mnemonic_env_vars, mint_management_rpc_env_vars,
  mint_prometheus_env_vars, mint_lnbits_env_vars, mint_grpc_processor_env_vars,
  mint_payment_backend_env_vars, mint_ldk_env_vars, mint_http_cache_env_vars,
  generate_environment_variables, mnemonic_ref, redis_of,
}
use cashu_operator.Generators.Names.{
  added, for_each, enabled_management, enabled_prometheus, enabled_ldk,
}
use cashu_operator.Generators.Pod.Sublists.{
  Sub, Sub-refl, Sub-append, stop, Sub-all_distinct, keep, skip,
}
use cashu_operator.Api.{EnvVar, CashuMint, CashuMintSpec, PaymentBackendConfig, RedisCacheConfig}
use cashu_operator.Common.{
  false, List, Bool, Option, String, ◌∷◌, ◌++◌, [], ◌≡◌, true, some, ap, none, refl, if◌then◌else◌,
  not, ◌==◌, Option-cases, inl, inr,
}

unfoldable pub env_names : List EnvVar → List String
env_names [] = []
env_names (v ∷ l) = v.name ∷ env_names l

env_names-append : (a b : List EnvVar) → env_names (a ++ b) ≡ env_names a ++ env_names b
unfolding env_names
env_names-append [] b = refl
env_names-append (v ∷ a) b = ap (λ l. v.name ∷ l) (env_names-append a b)

-- The names of a list of variables stand in a list of names.
record Within (vars : List EnvVar) (allowed : List String) : Type 0 where
  pub sub : Sub (env_names vars) allowed

Within-append :
    {a b : List EnvVar} {c d : List String} → Within a c → Within b d → Within (a ++ b) (c ++ d)
Within-append {a} {b} p q = record { sub = rw (env_names-append a b) (Sub-append p.sub q.sub) }

Within-refl : (a : List EnvVar) → Within a (env_names a)
Within-refl a = record { sub = Sub-refl (env_names a) }

Within-nothing : {l : List String} → Within [] l
unfolding env_names
Within-nothing = record { sub = stop }

Within-cons :
    {a : List EnvVar} {l : List String} (v : EnvVar) → Within a l → Within (v ∷ a) (v.name ∷ l)
unfolding env_names
Within-cons v p = record { sub = keep p.sub }

Within-skip : {a : List EnvVar} {l : List String} {x : String} → Within a l → Within a (x ∷ l)
Within-skip p = record { sub = skip p.sub }

Within-added : (b : Bool) {a : List EnvVar} {l : List String} → Within a l → Within (added b a) l
unfolding added
Within-added true p = p
Within-added false p = Within-nothing

Within-for_each {ℓ} :
    {A : Type ℓ} (o : Option A) {f : A → List EnvVar} {l : List String}
    → ((a : A) → Within (f a) l)
    → Within (for_each o f) l
unfolding for_each
Within-for_each none p = Within-nothing
Within-for_each (some a) p = p a

-- The names that each group of variables may have.
abbrev core_names : List String
core_names =
    "CDK_MINTD_WORK_DIR" ∷ "HOME" ∷ "CDK_MINTD_LN_BACKEND" ∷ "CDK_MINTD_URL"
    ∷ "CDK_MINTD_LISTEN_HOST" ∷ "CDK_MINTD_LISTEN_PORT" ∷ "CDK_MINTD_DATABASE"
    ∷ "CDK_MINTD_LOGGING_OUTPUT" ∷ []

abbrev logging_names : List String
logging_names =
    ("RUST_LOG" ∷ "CDK_MINTD_LOGGING_CONSOLE_LEVEL" ∷ []) ++ ("CDK_MINTD_LOGGING_FILE_LEVEL" ∷ [])

abbrev management_names : List String
management_names =
    "CDK_MINTD_MINT_MANAGEMENT_ENABLED" ∷ "CDK_MINTD_MANAGEMENT_ADDRESS"
    ∷ "CDK_MINTD_MANAGEMENT_PORT" ∷ "CDK_MINTD_MANAGEMENT_TLS_DIR_PATH" ∷ []

abbrev payment_names : List String
payment_names =
    "LNBITS_ADMIN_API_KEY" ∷ "LNBITS_INVOICE_API_KEY"
    ∷ "CDK_MINTD_GRPC_PAYMENT_PROCESSOR_SUPPORTED_UNITS"
    ∷ "CDK_MINTD_GRPC_PAYMENT_PROCESSOR_ADDRESS" ∷ "CDK_MINTD_GRPC_PAYMENT_PROCESSOR_PORT"
    ∷ "CDK_MINTD_GRPC_PAYMENT_PROCESSOR_TLS_DIR" ∷ []

abbrev ldk_names : List String
ldk_names = ("BITCOIN_RPC_USER" ∷ "BITCOIN_RPC_PASSWORD" ∷ []) ++ ("CDK_LDK_NODE_MNEMONIC" ∷ [])

-- All names, in the order of the groups.
abbrev variable_names : List String
variable_names =
    core_names
    ++ logging_names
    ++ ("CDK_MINTD_MNEMONIC" ∷ [])
    ++ management_names
    ++ ("CDK_MINTD_PROMETHEUS_ENABLED" ∷ [])
    ++ payment_names
    ++ ldk_names
    ++ ("REDIS_CONNECTION_STRING" ∷ [])

Within-core : (s : CashuMintSpec) → Within (mint_core_env_vars s) core_names
unfolding mint_core_env_vars env_names
Within-core s = record { sub = Sub-refl core_names }

Within-logging : (s : CashuMintSpec) → Within (mint_logging_env_vars s) logging_names
unfolding mint_logging_env_vars
Within-logging s = Within-for_each s.logging (λ l.
    Within-append {c = "RUST_LOG" ∷ "CDK_MINTD_LOGGING_CONSOLE_LEVEL" ∷ []}
      {d = "CDK_MINTD_LOGGING_FILE_LEVEL" ∷ []}
      (Within-added _ (Within-cons _ (Within-cons _ Within-nothing)))
      (Within-added _ (Within-cons _ Within-nothing)))

Within-mnemonic : (m : CashuMint) → Within (mint_mnemonic_env_vars m) ("CDK_MINTD_MNEMONIC" ∷ [])
unfolding mint_mnemonic_env_vars
Within-mnemonic m = Within-for_each (mnemonic_ref m) (λ r. Within-cons _ Within-nothing)

Within-management : (s : CashuMintSpec) → Within (mint_management_rpc_env_vars s) management_names
unfolding mint_management_rpc_env_vars
Within-management s = Within-for_each (enabled_management s.management_rpc) (λ r.
    Within-cons _ (Within-cons _ (Within-cons _ (Within-added _ (Within-cons _ Within-nothing)))))

Within-prometheus :
    (s : CashuMintSpec) → Within (mint_prometheus_env_vars s) ("CDK_MINTD_PROMETHEUS_ENABLED" ∷ [])
unfolding mint_prometheus_env_vars
Within-prometheus s =
    Within-for_each (enabled_prometheus s.prometheus) (λ p. Within-cons _ Within-nothing)

Within-lnbits : (p : PaymentBackendConfig) → Within (mint_lnbits_env_vars p) payment_names
unfolding mint_lnbits_env_vars
Within-lnbits p = Within-for_each p.lnbits (λ l. Within-cons _ (Within-cons _ Within-nothing))

Within-grpc_processor :
    (p : PaymentBackendConfig) → Within (mint_grpc_processor_env_vars p) payment_names
unfolding mint_grpc_processor_env_vars
Within-grpc_processor p = Within-for_each p.grpc_processor (λ g. Within-skip (
    Within-skip (
      Within-cons _
        (Within-cons _ (Within-cons _ (Within-added _ (Within-cons _ Within-nothing)))))))

Within-if :
    (b : Bool) {a c : List EnvVar} {l : List String}
    → Within a l
    → Within c l
    → Within (if b then a else c) l
Within-if true p q = p
Within-if false p q = q

Within-payment_backend :
    (p : PaymentBackendConfig) → Within (mint_payment_backend_env_vars p) payment_names
unfolding mint_payment_backend_env_vars
Within-payment_backend p =
    Within-if _ (Within-lnbits p) (Within-if _ (Within-grpc_processor p) Within-nothing)

Within-ldk : (s : CashuMintSpec) → Within (mint_ldk_env_vars s) ldk_names
unfolding mint_ldk_env_vars
Within-ldk s = Within-for_each (enabled_ldk s.ldk_node) (λ l.
    Within-append {c = "BITCOIN_RPC_USER" ∷ "BITCOIN_RPC_PASSWORD" ∷ []}
      {d = "CDK_LDK_NODE_MNEMONIC" ∷ []}
      (Within-for_each l.bitcoin_rpc (λ b. Within-cons _ (Within-cons _ Within-nothing)))
      (Within-for_each l.mnemonic_secret_ref (λ r. Within-cons _ Within-nothing)))

Within-redis :
    (s : CashuMintSpec) → Within (mint_http_cache_env_vars s) ("REDIS_CONNECTION_STRING" ∷ [])
unfolding mint_http_cache_env_vars
Within-redis s = Within-for_each (redis_of s.http_cache) by_secret
  where
    by_secret :
        (r : RedisCacheConfig)
        → Within
            (elim r.connection_string_secret_ref [
              | some ref ↦ secret_env "REDIS_CONNECTION_STRING" (some ref) ∷ []
              | none ↦
                  added
                    (not (r.connection_string == ""))
                    (plain_env "REDIS_CONNECTION_STRING" r.connection_string ∷ [])
            ])
            ("REDIS_CONNECTION_STRING" ∷ [])
    by_secret r = elim (Option-cases r.connection_string_secret_ref) [
      | inl e ↦ rw e (Within-added _ (Within-cons _ Within-nothing))
      | inr (ref, e) ↦ rw e (Within-cons _ Within-nothing)
    ]

Within-all : (m : CashuMint) → Within (generate_environment_variables m) variable_names
unfolding generate_environment_variables
Within-all m = Within-append (Within-core m.spec) (
    Within-append (Within-logging m.spec) (
      Within-append (Within-mnemonic m) (
        Within-append (Within-management m.spec) (
          Within-append (Within-prometheus m.spec) (
            Within-append (Within-payment_backend m.spec.payment_backend)
              (Within-append (Within-ldk m.spec) (Within-redis m.spec)))))))

names_differ : all_distinct variable_names ≡ true
unfolding all_distinct is_member
names_differ = refl

-- No two variables of the mint's container have one name, for every mint.
pub generate_environment_variables-all_distinct :
    (m : CashuMint) → all_distinct (env_names (generate_environment_variables m)) ≡ true
generate_environment_variables-all_distinct m = Sub-all_distinct ((Within-all m).sub) names_differ
