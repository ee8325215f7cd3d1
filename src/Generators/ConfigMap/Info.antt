-- ===== src/Generators/ConfigMap/Info.antt =====
-- The tables `info` and `mint_info` of config.toml (internal/controller/generators/configmap.go).
use cashu_operator.Generators.Names.{listen_port}
use cashu_operator.Generators.Deployment.Env.{redis_of}
use cashu_operator.Generators.ConfigMap.Toml.{
  Table, table_of, table, table_if, text, set_number, set_text, raw, number, set_flag, Value,
  quoted,
}
use cashu_operator.Common.{
  Option, List, Bool, ◌∷◌, not, some, [], ◌==◌, or_text, ◌&&◌, none, present, if◌then◌else◌,
}
use cashu_operator.Api.{
  HttpCacheConfig, CashuMintSpec, MintInfo, QuoteTtlConfig, LoggingConfig, default_listen_host,
  RedisCacheConfig,
}

abbrev prefix_value : Option RedisCacheConfig → Option Value
prefix_value none = none
prefix_value (some r) = if r.key_prefix == "" then none else some (quoted r.key_prefix)

abbrev connection_value : Option RedisCacheConfig → Option Value
connection_value none = none
connection_value (some r) =
    if r.connection_string == "" then none else some (quoted r.connection_string)

unfoldable pub http_cache_table : Option HttpCacheConfig → Table
http_cache_table cache = table_of "info.http_cache" cache (λ c.
    text "backend" (or_text c.backend "memory")
    ∷ (set_number "ttl" c.ttl
        ∷ (set_number "tti" c.tti
            ∷ (("key_prefix", prefix_value (redis_of (some c)))
                ∷ (("connection_string", connection_value (redis_of (some c))) ∷ [])))))

unfoldable pub quote_ttl_table : Option QuoteTtlConfig → Table
quote_ttl_table ttl =
    table_of "info.quote_ttl" ttl
      (λ q. set_number "mint_ttl" q.mint_ttl ∷ (set_number "melt_ttl" q.melt_ttl ∷ []))

unfoldable pub logging_table : Option LoggingConfig → Table
logging_table logging = table_of "info.logging" logging (λ l.
    ("output", some (raw "\"stderr\""))
    ∷ (set_text "console_level" l.level ∷ (set_text "file_level" l.file_level ∷ [])))

unfoldable pub info_table : CashuMintSpec → Table
info_table s = table "info" (
    text "url" s.mint_info.url
    ∷ (text "listen_host" (or_text s.mint_info.listen_host default_listen_host)
        ∷ (number "listen_port" (listen_port s)
            ∷ (set_flag "use_keyset_v2" s.mint_info.use_keyset_v2 ∷ []))))

-- `writeInfoSection`
unfoldable pub info_tables : CashuMintSpec → List Table
info_tables s =
    info_table s
    ∷ (quote_ttl_table s.mint_info.quote_ttl
        ∷ (http_cache_table s.http_cache ∷ (logging_table s.logging ∷ [])))

abbrev is_described : MintInfo → Bool
is_described i = not (
    (i.name == "")
    && ((i.description == "")
        && ((i.description_long == "")
            && ((i.motd == "")
                && ((i.pubkey_hex == "")
                    && ((i.icon_url == "")
                        && ((i.contact_email == "")
                            && ((i.contact_nostr_pubkey == "")
                                && ((i.tos_url == "") && not (present i.input_fee_ppk))))))))))

-- `writeMintInfoSection`
unfoldable pub mint_info_table : MintInfo → Table
mint_info_table i = table_if (is_described i) "mint_info" (
    set_text "name" i.name
    ∷ (set_text "description" i.description
        ∷ (set_text "description_long" i.description_long
            ∷ (set_text "motd" i.motd
                ∷ (set_text "pubkey" i.pubkey_hex
                    ∷ (set_text "icon_url" i.icon_url
                        ∷ (set_text "contact_email" i.contact_email
                            ∷ (set_text "contact_nostr_public_key" i.contact_nostr_pubkey
                                ∷ (set_text "tos_url" i.tos_url
                                    ∷ (set_number "input_fee_ppk" i.input_fee_ppk ∷ []))))))))))
