-- ===== src/Operator/Options.antt =====
-- cmd/main.go: the command line and the options of the manager and of its two servers.
use cashu_operator.Common.{
  String, List, ◌∷◌, Bool, Option, or_value, [], if◌then◌else◌, false, ◌==◌, true,
}

-- What the command line gives for the flags, after `flag.Parse`.
pub record Arguments : Type 0 where
  pub text_argument : String → Option String
  pub bool_argument : String → Option Bool

-- `ServerConfig`
pub record ServerConfig : Type 0 where
  pub metrics_addr : String
  pub probe_addr : String
  pub leader_election : Bool
  pub secure_metrics : Bool
  pub enable_http2 : Bool
  pub webhook_cert_path : String
  pub webhook_cert_name : String
  pub webhook_cert_key : String
  pub metrics_cert_path : String
  pub metrics_cert_name : String
  pub metrics_cert_key : String

-- `parseFlags`: a flag that the command line leaves out has its default. The flags of the logger
-- have no part in what follows.
unfoldable pub parse_flags : Arguments → ServerConfig
parse_flags a =
    let text : String → String → String = λ name d. or_value (a.text_argument name) d in
    let bool : String → Bool → Bool = λ name d. or_value (a.bool_argument name) d in
    record {
      metrics_addr = text "metrics-bind-address" "0";
      probe_addr = text "health-probe-bind-address" ":8081";
      leader_election = bool "leader-elect" false;
      secure_metrics = bool "metrics-secure" true;
      enable_http2 = bool "enable-http2" false;
      webhook_cert_path = text "webhook-cert-path" "";
      webhook_cert_name = text "webhook-cert-name" "tls.crt";
      webhook_cert_key = text "webhook-cert-key" "tls.key";
      metrics_cert_path = text "metrics-cert-path" "";
      metrics_cert_name = text "metrics-cert-name" "tls.crt";
      metrics_cert_key = text "metrics-cert-key" "tls.key";
    }

-- `tls.Config`, as far as the operator writes into it.
pub record TlsConfig : Type 0 where
  pub next_protos : List String

-- `func(*tls.Config)`
abbrev pub TlsOption : Type 0
TlsOption = TlsConfig → TlsConfig

abbrev disable_http2 : TlsOption
disable_http2 c = record c { next_protos = "http/1.1" ∷ [] }

-- `buildTLSOptions`
unfoldable pub build_tls_options : Bool → List TlsOption
build_tls_options enable_http2 = if enable_http2 then [] else disable_http2 ∷ []

-- The files of a server's certificate; all texts are empty where the server makes its own choice.
pub record CertFiles : Type 0 where
  pub cert_dir : String
  pub cert_name : String
  pub key_name : String

-- `webhook.Options`, which `webhook.NewServer` takes
pub record WebhookOptions : Type 0 where
  pub tls_opts : List TlsOption
  pub files : CertFiles

-- `metricsserver.Options`; `is_filtered` stands for the filter
-- `WithAuthenticationAndAuthorization`.
pub record MetricsOptions : Type 0 where
  pub bind_address : String
  pub secure_serving : Bool
  pub is_filtered : Bool
  pub tls_opts : List TlsOption
  pub files : CertFiles

-- `if len(path) > 0 { … }`
abbrev pub cert_files : String → String → String → CertFiles
cert_files path name key =
    if path == ""
    then record { cert_dir = ""; cert_name = ""; key_name = "" }
    else record { cert_dir = path; cert_name = name; key_name = key }

-- `configureWebhookServer`
unfoldable pub configure_webhook_server : ServerConfig → List TlsOption → WebhookOptions
configure_webhook_server c opts = record {
  tls_opts = opts;
  files = cert_files c.webhook_cert_path c.webhook_cert_name c.webhook_cert_key;
}

-- `configureMetricsServer`
unfoldable pub configure_metrics_server : ServerConfig → List TlsOption → MetricsOptions
configure_metrics_server c opts = record {
  bind_address = c.metrics_addr;
  secure_serving = c.secure_metrics;
  is_filtered = c.secure_metrics;
  tls_opts = opts;
  files = cert_files c.metrics_cert_path c.metrics_cert_name c.metrics_cert_key;
}

-- `ctrl.Options`
pub record ManagerOptions : Type 0 where
  pub metrics : MetricsOptions
  pub webhook_server : WebhookOptions
  pub health_probe_bind_address : String
  pub leader_election : Bool
  pub leader_election_id : String

-- The options that `setupManager` passes on.
unfoldable pub manager_options : ServerConfig → List TlsOption → ManagerOptions
manager_options c opts = record {
  metrics = configure_metrics_server c opts;
  webhook_server = configure_webhook_server c opts;
  health_probe_bind_address = c.probe_addr;
  leader_election = c.leader_election;
  leader_election_id = "80fff680.cashu.asmogo.github.io";
}
