-- ===== src/Generators/ConfigMap/Payment.antt =====
-- The tables of the payment backend in config.toml (internal/controller/generators/configmap.go).
use cashu_operator.Generators.Names.{grpc_processor_tls_mount_path}
use cashu_operator.Defaulting.Payment.{or_sat, float_0_02}
use cashu_operator.Generators.Deployment.Env.{
  grpc_processor_address, grpc_processor_port, grpc_processor_supported_units,
}
use cashu_operator.Generators.Deployment.Volumes.{lnd_in_use, grpc_in_use}
use cashu_operator.Common.Int.{ℤ, pos}
use cashu_operator.Generators.ConfigMap.Toml.{
  Table, table, table_of, text, Field, table_if, set_number, set_float, field_if, set_flag, flag,
  number, raw, listed, float, quoted,
}
use cashu_operator.Common.{
  Option, ℕ, [], List, if◌then◌else◌, none, or_value, ◌∷◌, ◌==◌, present, true, some,
}
use cashu_operator.Api.{
  PaymentBackendConfig, FakeWalletConfig, ClnConfig, LnbitsConfig, active_backend,
  payment_backend_cln, payment_backend_lnbits, payment_backend_fake_wallet,
}

unfoldable pub ln_table : PaymentBackendConfig → Table
ln_table p = table "ln" (
    text "ln_backend" (active_backend p)
    ∷ (set_number "min_mint" p.min_mint
        ∷ (set_number "max_mint" p.max_mint
            ∷ (set_number "min_melt" p.min_melt ∷ (set_number "max_melt" p.max_melt ∷ [])))))

abbrev fee_fields : Option ℕ → Option ℤ → List Field
fee_fields percent reserve =
    set_float "fee_percent" percent ∷ (set_number "reserve_fee_min" reserve ∷ [])

-- `writeLNDSection`, in its case
unfoldable pub lnd_table : PaymentBackendConfig → Table
lnd_table p = table_of "lnd" (lnd_in_use p) (λ l.
    text "address" l.address
    ∷ (field_if (present l.macaroon_secret_ref) "macaroon_file" (raw "\"/secrets/lnd/macaroon\"")
        ∷ (field_if (present l.cert_secret_ref) "cert_file" (raw "\"/secrets/lnd/cert\"")
            ∷ fee_fields l.fee_percent l.reserve_fee_min)))

abbrev cln_in_use : PaymentBackendConfig → Option ClnConfig
cln_in_use p = if active_backend p == payment_backend_cln then p.cln else none

-- `writeCLNSection`, in its case
unfoldable pub cln_table : PaymentBackendConfig → Table
cln_table p = table_of "cln" (cln_in_use p) (λ c.
    text "rpc_path" c.rpc_path
    ∷ (set_flag "bolt12" c.bolt12 ∷ fee_fields c.fee_percent c.reserve_fee_min))

abbrev lnbits_in_use : PaymentBackendConfig → Option LnbitsConfig
lnbits_in_use p = if active_backend p == payment_backend_lnbits then p.lnbits else none

-- `writeLNBitsSection`, in its case
unfoldable pub lnbits_table : PaymentBackendConfig → Table
lnbits_table p = table_of "lnbits" (lnbits_in_use p) (λ l.
    text "lnbits_api" l.api
    ∷ (field_if l.retro_api "retro_api" (flag true) ∷ fee_fields l.fee_percent l.reserve_fee_min))

abbrev no_fake_wallet : FakeWalletConfig
no_fake_wallet = record {
  supported_units = [];
  fee_percent = none;
  reserve_fee_min = none;
  min_delay_time = none;
  max_delay_time = none;
}

-- `writeFakeWalletSection`, in its case; nil has no setting.
unfoldable pub fake_wallet_table : PaymentBackendConfig → Table
fake_wallet_table p =
    let w = or_value p.fake_wallet no_fake_wallet in
    table_if (active_backend p == payment_backend_fake_wallet) "fake_wallet" (
      ("supported_units", some (listed (or_sat w.supported_units)))
      ∷ (("fee_percent", some (float (or_value w.fee_percent float_0_02)))
          ∷ (number "reserve_fee_min" (or_value w.reserve_fee_min (pos 1))
              ∷ (number "min_delay_time" (or_value w.min_delay_time (pos 1))
                  ∷ (number "max_delay_time" (or_value w.max_delay_time (pos 3)) ∷ [])))))

-- `writeGRPCProcessorSection`, in its case
unfoldable pub grpc_processor_table : PaymentBackendConfig → Table
grpc_processor_table p = table_of "grpc_processor" (grpc_in_use p) (λ gp.
    text "addr" (grpc_processor_address gp)
    ∷ (number "port" (grpc_processor_port gp)
        ∷ (("supported_units", some (listed (grpc_processor_supported_units gp)))
            ∷ (field_if (present gp.tls_secret_ref) "tls_dir" (quoted grpc_processor_tls_mount_path)
                ∷ []))))

-- `writePaymentBackendSection`
unfoldable pub payment_backend_tables : PaymentBackendConfig → List Table
payment_backend_tables p =
    ln_table p
    ∷ (lnd_table p
        ∷ (cln_table p ∷ (lnbits_table p ∷ (fake_wallet_table p ∷ (grpc_processor_table p ∷ [])))))
