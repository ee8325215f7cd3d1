-- ===== src/Generators/ConfigMap/WellFormed.antt =====
-- config.toml names no table twice and no key twice in a table
-- (internal/controller/generators/configmap.go).
use cashu_operator.Generators.ConfigMap.Outline.{
  are_sound_keys, every, are_sound_keys-kept, is_key, lacks, is_table_name,
}
use cashu_operator.Generators.ConfigMap.Services.{
  ldk_node_table, auth_table, management_rpc_table, limits_table, prometheus_table,
}
use cashu_operator.Generators.ConfigMap.Distinct.{all_distinct, names, is_member}
use cashu_operator.Generators.ConfigMap.{config_tables}
use cashu_operator.Generators.ConfigMap.Info.{
  info_tables, mint_info_table, info_table, quote_ttl_table, http_cache_table, logging_table,
}
use cashu_operator.Generators.ConfigMap.Database.{
  database_tables, database_table, postgres_table, auth_postgres_table,
}
use cashu_operator.Generators.ConfigMap.Payment.{
  payment_backend_tables, ln_table, lnd_table, cln_table, lnbits_table, fake_wallet_table,
  grpc_processor_table,
}
use cashu_operator.Api.{CashuMint, CashuMintSpec, PaymentBackendConfig}
use cashu_operator.Generators.ConfigMap.Toml.{kept, Field, Table, table, table_of, table_if}
use cashu_operator.Common.{
  false, String, Bool, List, true, through, ◌∷◌, Option, ◌≡◌, [], some, ◌++◌, none, refl,
}

-- The keys of a table differ, and each is a key of TOML.
unfoldable pub keys_differ : String × List Field → Bool
keys_differ (name, fields) = are_sound_keys (names (kept fields))

with_table :
    (name : String) (fields : List Field) (rest : List Table)
    → are_sound_keys (names fields) ≡ true
    → every keys_differ (kept rest) ≡ true
    → every keys_differ (kept (table name fields ∷ rest)) ≡ true
unfolding keys_differ every kept
with_table name fields rest h r = rw (are_sound_keys-kept fields h) r

with_table_of {ℓ} :
    {A : Type ℓ} (name : String) (o : Option A) (fields : A → List Field) (rest : List Table)
    → ((a : A) → are_sound_keys (names (fields a)) ≡ true)
    → every keys_differ (kept rest) ≡ true
    → every keys_differ (kept (table_of name o fields ∷ rest)) ≡ true
unfolding keys_differ every kept through
with_table_of name none fields rest h r = r
with_table_of name (some a) fields rest h r = rw (are_sound_keys-kept (fields a) (h a)) r

with_table_if :
    (name : String) (b : Bool) (fields : List Field) (rest : List Table)
    → are_sound_keys (names fields) ≡ true
    → every keys_differ (kept rest) ≡ true
    → every keys_differ (kept (table_if b name fields ∷ rest)) ≡ true
unfolding keys_differ every kept
with_table_if name true fields rest h r = rw (are_sound_keys-kept fields h) r
with_table_if name false fields rest h r = r

abbrev tables_after_payment : CashuMint → List Table
tables_after_payment m =
    ldk_node_table m.spec.ldk_node
    ∷ (auth_table m.spec.auth
        ∷ (management_rpc_table m.spec
            ∷ (limits_table m.spec.limits ∷ (prometheus_table m.spec.prometheus ∷ []))))

services_keys_differ : (m : CashuMint) → every keys_differ (kept (tables_after_payment m)) ≡ true
unfolding kept are_sound_keys every is_key lacks all_distinct is_member names ldk_node_table
    auth_table management_rpc_table limits_table prometheus_table
services_keys_differ m =
    with_table_of _ _ _ _ (λ l. refl)
      (with_table_of _ _ _ _ (λ a. refl)
        (with_table_of _ _ _ _ (λ r. refl)
          (with_table_of _ _ _ _ (λ l. refl) (with_table_of _ _ _ _ (λ p. refl) refl))))

payment_keys_differ :
    (p : PaymentBackendConfig) (rest : List Table)
    → every keys_differ (kept rest) ≡ true
    → every keys_differ (kept (payment_backend_tables p ++ rest)) ≡ true
unfolding payment_backend_tables are_sound_keys every is_key lacks all_distinct is_member names
    ln_table lnd_table cln_table lnbits_table fake_wallet_table grpc_processor_table
payment_keys_differ p rest r = with_table _ _ _ refl (
    with_table_of _ _ _ _ (λ l. refl)
      (with_table_of _ _ _ _ (λ c. refl)
        (with_table_of _ _ _ _ (λ l. refl)
          (with_table_if _ _ _ _ refl (with_table_of _ _ _ _ (λ g. refl) r)))))

database_keys_differ :
    (m : CashuMint) (password : String) (rest : List Table)
    → every keys_differ (kept rest) ≡ true
    → every keys_differ (kept (database_tables m password ++ rest)) ≡ true
unfolding database_tables are_sound_keys every is_key lacks all_distinct is_member names
    database_table postgres_table auth_postgres_table
database_keys_differ m password rest r =
    with_table _ _ _ refl (with_table_of _ _ _ _ (λ p. refl) (with_table_of _ _ _ _ (λ p. refl) r))

info_keys_differ :
    (s : CashuMintSpec) (rest : List Table)
    → every keys_differ (kept rest) ≡ true
    → every keys_differ (kept (info_tables s ++ (mint_info_table s.mint_info ∷ rest))) ≡ true
unfolding info_tables mint_info_table are_sound_keys every is_key lacks all_distinct is_member names
    info_table quote_ttl_table http_cache_table logging_table
info_keys_differ s rest r = with_table _ _ _ refl (
    with_table_of _ _ _ _ (λ q. refl)
      (with_table_of _ _ _ _ (λ c. refl)
        (with_table_of _ _ _ _ (λ l. refl) (with_table_if _ _ _ _ refl r))))

pub config_tables-names :
    (m : CashuMint) (password : String) → all_distinct (names (config_tables m password)) ≡ true
unfolding config_tables all_distinct is_member names payment_backend_tables ln_table lnd_table
    cln_table lnbits_table fake_wallet_table grpc_processor_table database_tables database_table
    postgres_table auth_postgres_table info_tables mint_info_table info_table quote_ttl_table
    http_cache_table logging_table ldk_node_table auth_table management_rpc_table limits_table
    prometheus_table
config_tables-names m password = refl

pub config_tables-are_table_names :
    (m : CashuMint) (password : String)
    → every is_table_name (names (config_tables m password)) ≡ true
unfolding config_tables every is_table_name lacks names payment_backend_tables ln_table lnd_table
    cln_table lnbits_table fake_wallet_table grpc_processor_table database_tables database_table
    postgres_table auth_postgres_table info_tables mint_info_table info_table quote_ttl_table
    http_cache_table logging_table ldk_node_table auth_table management_rpc_table limits_table
    prometheus_table
config_tables-are_table_names m password = refl

pub config_tables-keys_differ :
    (m : CashuMint) (password : String) → every keys_differ (kept (config_tables m password)) ≡ true
unfolding config_tables
config_tables-keys_differ m password = info_keys_differ m.spec _ (
    database_keys_differ m password _
      (payment_keys_differ m.spec.payment_backend _ (services_keys_differ m)))
