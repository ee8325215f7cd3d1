-- ===== src/Defaulting/Payment.antt =====
-- `defaultPaymentBackend` and its helpers (api/v1alpha1/cashumint_webhook.go).
use cashu_operator.Common.{ℕ, String, List, [], ◌∷◌, if◌then◌else◌, or_some, or_text, through}
use cashu_operator.Common.Int.{pos, or_port}
use cashu_operator.Api.{
  default_listen_host, default_loopback_host, LndConfig, ClnConfig, LnbitsConfig, FakeWalletConfig,
  SidecarProcessorConfig, GrpcProcessorConfig, LdkNodeConfig, CashuMintSpec,
}

-- The 64-bit patterns of 0.04 and 0.02.
abbrev pub float_0_04 : ℕ
float_0_04 = 0x3fa47ae147ae147b

abbrev pub float_0_02 : ℕ
float_0_02 = 0x3f947ae147ae147b

-- An empty list of units is replaced by `[]string{"sat"}`.
abbrev pub or_sat : List String → List String
or_sat [] = "sat" ∷ []
or_sat (u ∷ us) = u ∷ us

unfoldable pub default_lnd : LndConfig → LndConfig
default_lnd c = record c {
  fee_percent = or_some c.fee_percent float_0_04;
  reserve_fee_min = or_some c.reserve_fee_min (pos 4);
}

unfoldable pub default_cln : ClnConfig → ClnConfig
default_cln c = record c {
  fee_percent = or_some c.fee_percent float_0_04;
  reserve_fee_min = or_some c.reserve_fee_min (pos 4);
}

unfoldable pub default_lnbits : LnbitsConfig → LnbitsConfig
default_lnbits c = record c {
  fee_percent = or_some c.fee_percent float_0_02;
  reserve_fee_min = or_some c.reserve_fee_min (pos 2);
}

-- `defaultFakeWallet`
unfoldable pub default_fake_wallet : FakeWalletConfig → FakeWalletConfig
default_fake_wallet c = record c {
  fee_percent = or_some c.fee_percent float_0_02;
  reserve_fee_min = or_some c.reserve_fee_min (pos 1);
  min_delay_time = or_some c.min_delay_time (pos 1);
  max_delay_time = or_some c.max_delay_time (pos 3);
  supported_units = or_sat c.supported_units;
}

unfoldable pub default_sidecar : SidecarProcessorConfig → SidecarProcessorConfig
default_sidecar c =
    if c.enabled
    then record c { image_pull_policy = or_text c.image_pull_policy "IfNotPresent" }
    else c

-- `defaultGRPCProcessor`
unfoldable pub default_grpc_processor : GrpcProcessorConfig → GrpcProcessorConfig
default_grpc_processor c = record c {
  supported_units = or_sat c.supported_units;
  port = or_port c.port (pos 50051);
  sidecar_processor = through default_sidecar c.sidecar_processor;
}

-- `defaultLDKNode`, behind its caller's test.
unfoldable pub default_ldk_node : LdkNodeConfig → LdkNodeConfig
default_ldk_node c =
    if c.enabled
    then record c {
      fee_percent = or_some c.fee_percent float_0_04;
      reserve_fee_min = or_some c.reserve_fee_min (pos 4);
      bitcoin_network = or_text c.bitcoin_network "signet";
      chain_source_type = or_text c.chain_source_type "esplora";
      host = or_text c.host default_listen_host;
      port = or_port c.port (pos 8090);
      gossip_source_type = or_text c.gossip_source_type "rgs";
      webserver_host = or_text c.webserver_host default_loopback_host;
      webserver_port = or_port c.webserver_port (pos 8888);
    }
    else c

-- `defaultPaymentBackend`
unfoldable pub default_payment_backend : CashuMintSpec → CashuMintSpec
default_payment_backend s = record s {
  payment_backend = record p {
    lnd = through default_lnd p.lnd;
    cln = through default_cln p.cln;
    lnbits = through default_lnbits p.lnbits;
    fake_wallet = through default_fake_wallet p.fake_wallet;
    grpc_processor = through default_grpc_processor p.grpc_processor;
  };
  ldk_node = through default_ldk_node s.ldk_node;
}
  where
    open s use {payment_backend as p}
