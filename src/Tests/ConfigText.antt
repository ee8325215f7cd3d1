-- ===== src/Tests/ConfigText.antt =====
-- A quoting of texts on one line, a mint with a list that breaks out of its quotes, and one instance
-- of each result about the text that configmap.go of internal/controller/generators prints.
use cashu_operator.Generators.ConfigMap.Services.{
  auth_table, ldk_node_table, limits_table, management_rpc_table, prometheus_table,
}
use cashu_operator.Common.Int.{or_port}
use cashu_operator.Api.{active_backend, management_rpc_tls_enabled}
use cashu_operator.Generators.ConfigMap.Payment.{
  payment_backend_tables, ln_table, cln_table, fake_wallet_table, grpc_processor_table,
  lnbits_table, lnd_table,
}
use cashu_operator.Generators.ConfigMap.Database.{
  database_tables, database_table, postgres_table, postgres_url, auth_postgres_table,
}
use cashu_operator.Generators.ConfigMap.Info.{
  info_tables, info_table, quote_ttl_table, http_cache_table, logging_table, mint_info_table,
}
use cashu_operator.Generators.ConfigMap.Toml.{kept, table_text, value_text, lines_of, listed, float}
use cashu_operator.Generators.ConfigMap.TextOutline.{lacks-append}
use cashu_operator.Tests.WideMint.{wide_mint}
use cashu_operator.Generators.ConfigMap.{generate_config_toml, config_tables}
use cashu_operator.Generators.ConfigMap.TextWellFormed.{
  IsWellFormedText, generate_config_toml-IsWellFormedText, raws_are_lines,
}
use cashu_operator.Generators.ConfigMap.Outline.{
  lacks, outline_of, line_break, every, split_lines, read_lines, before,
}
use Prim.Native.Char.{code}
use Prim.Native.String.{[], ◌∷◌}
use cashu_operator.Common.{
  true, [], ◌∷◌, String, ℕ, if◌then◌else◌, ◌<>◌, ◌=?◌, ◌≡◌, Bool-cases, refl, inl, inr, through,
  join, some, or_text,
}

unfoldable escape : String → String
escape [] = ""
escape (c ∷ s) = let r = escape s in if code c =? line_break then "\\n" <> r else c ∷ r

abbrev escaped : String → String
escaped s = "\"" <> (escape s <> "\"")

abbrev fixed_float : ℕ → String
fixed_float x = "0.020000"

escape_line : (s : String) → lacks line_break (escape s) ≡ true
unfolding escape lacks
escape_line [] = refl
escape_line (c ∷ s) = elim (Bool-cases (code c =? line_break)) [
  | inl e ↦ rw e (lacks-append line_break "\\n" (escape s) refl (escape_line s))
  | inr e ↦ rw (e, lacks) (rw e (escape_line s))
]

escaped_line : (s : String) → lacks line_break (escaped s) ≡ true
unfolding lacks
escaped_line s =
    lacks-append line_break "\"" (escape s <> "\"") refl
      (lacks-append line_break (escape s) "\"" (escape_line s) refl)

fixed_float_line : (x : ℕ) → lacks line_break (fixed_float x) ≡ true
unfolding lacks
fixed_float_line x = refl

wide_mint-has_lines : raws_are_lines (config_tables wide_mint "pass") ≡ true
unfolding every lacks kept config_tables info_tables info_table through quote_ttl_table
    http_cache_table logging_table mint_info_table database_tables database_table postgres_table
    postgres_url auth_postgres_table payment_backend_tables ln_table active_backend
    management_rpc_tls_enabled or_port join or_text cln_table fake_wallet_table grpc_processor_table
    lnbits_table lnd_table auth_table ldk_node_table limits_table management_rpc_table
    prometheus_table listed
wide_mint-has_lines = refl

generate_config_toml-IsWellFormedText_example :
    IsWellFormedText (generate_config_toml escaped fixed_float wide_mint "pass")
generate_config_toml-IsWellFormedText_example =
    generate_config_toml-IsWellFormedText escaped fixed_float escaped_line fixed_float_line
      wide_mint "pass" wide_mint-has_lines

-- A unit that closes its quotes and the line sets a key of the table twice.
repeated_key :
    outline_of (
      table_text (value_text escaped fixed_float) (
        "fake_wallet",
        ("supported_units", some (listed ("sat\"]\nfee_percent = 1\nx = [\"" ∷ [])))
            ∷ ("fee_percent", some (float 0))
            ∷ [],
      ))
    ≡ ([], ("fake_wallet", "supported_units" ∷ "fee_percent" ∷ "x" ∷ "fee_percent" ∷ []) ∷ [])
unfolding outline_of split_lines read_lines before table_text value_text lines_of kept listed join
repeated_key = refl
