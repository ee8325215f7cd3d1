-- ===== src/Validation/Payment.antt =====
-- `validatePaymentBackend` (api/v1alpha1/cashumint_webhook.go).
use cashu_operator.Common.Decimal.{decimal}
use cashu_operator.Api.{
  LndConfig, PaymentBackendConfig, ClnConfig, LnbitsConfig, SidecarProcessorConfig,
  GrpcProcessorConfig, bump,
}
use cashu_operator.Validation.Report.{report, problem}
use cashu_operator.Common.{
  Option, ℕ, List, some, String, Bool, [], false, none, ◌==◌, if◌then◌else◌, not, ◌=?◌, ◌++◌, ◌&&◌,
  present, ltb, ◌<>◌,
}

-- The count of the backends that are given.
unfoldable pub backend_count : PaymentBackendConfig → ℕ
backend_count p =
    bump p.grpc_processor (bump p.fake_wallet (bump p.lnbits (bump p.cln (bump p.lnd 0))))

abbrev pub lnd_problems : Option LndConfig → List String
lnd_problems none = []
lnd_problems (some c) = problem (c.address == "") "spec.paymentBackend.lnd.address is required"

abbrev pub cln_problems : Option ClnConfig → List String
cln_problems none = []
cln_problems (some c) = problem (c.rpc_path == "") "spec.paymentBackend.cln.rpcPath is required"

abbrev pub lnbits_problems : Option LnbitsConfig → List String
lnbits_problems none = []
lnbits_problems (some c) = problem (c.api == "") "spec.paymentBackend.lnbits.api is required"

abbrev pub sidecar_enabled : Option SidecarProcessorConfig → Bool
sidecar_enabled none = false
sidecar_enabled (some c) = c.enabled

abbrev pub sidecar_problems : Option SidecarProcessorConfig → List String
sidecar_problems none = []
sidecar_problems (some c) =
    if c.enabled
    then problem (c.image == "")
        "spec.paymentBackend.grpcProcessor.sidecarProcessor.image is required when enabled"
      ++ problem (c.enable_tls && not (present c.tls_secret_ref))
          "spec.paymentBackend.grpcProcessor.sidecarProcessor.tlsSecretRef is required when enableTLS is true"
    else []

abbrev pub grpc_processor_problems : Option GrpcProcessorConfig → List String
grpc_processor_problems none = []
grpc_processor_problems (some c) =
    problem (not (sidecar_enabled c.sidecar_processor) && c.address == "")
      "spec.paymentBackend.grpcProcessor.address is required when sidecarProcessor is not enabled"
    ++ sidecar_problems c.sidecar_processor

-- `validatePaymentBackend`
unfoldable pub validate_payment_backend : PaymentBackendConfig → Option String
validate_payment_backend p =
    let count = backend_count p in
    report "payment backend validation errors: " (
      problem (count =? 0)
        "spec.paymentBackend: exactly one backend must be specified (lnd, cln, lnbits, fakeWallet, or grpcProcessor)"
      ++ (problem (ltb 1 count) (
            "spec.paymentBackend: only one backend may be specified, but "
            <> (decimal count <> " were found"))
          ++ (lnd_problems p.lnd
              ++ (cln_problems p.cln
                  ++ (lnbits_problems p.lnbits ++ grpc_processor_problems p.grpc_processor)))))
