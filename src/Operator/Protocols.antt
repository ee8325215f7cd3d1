-- ===== src/Operator/Protocols.antt =====
-- The protocols that the servers of cmd/main.go offer, and what was registered before they start.
use cashu_operator.Controller.Env.{Error}
use cashu_operator.Operator.Main.{main}
use cashu_operator.Operator.Options.{
  TlsOption, parse_flags, TlsConfig, build_tls_options, manager_options, configure_metrics_server,
  configure_webhook_server, Arguments, ServerConfig,
}
use cashu_operator.Operator.Plan.{
  run_plan, plan, PlannedAction, main-run_plan, webhook_actions, run_plan-none, run_plan-some,
}
use cashu_operator.Operator.Actions.{Action, new_manager, Host, parsed}
use cashu_operator.Common.{
  false, List, Bool, ◌∷◌, [], ◌≡◌, some, ◌≢◌, true, Option, Option-cases, inl, inr, or_value,
  String, none, ◌==◌, refl,
}

-- A server's configuration after the options, in their order.
abbrev pub configured : List TlsOption → TlsConfig → TlsConfig
configured [] c = c
configured (o ∷ os) c = configured os (o c)

-- Whatever it starts with, the server offers HTTP/1.1 only.
abbrev pub OffersHttp1 : List TlsOption → Type 0
OffersHttp1 opts = (c : TlsConfig) → (configured opts c).next_protos ≡ "http/1.1" ∷ []

-- What holds of the servers of a manager that is asked for.
abbrev pub OffersHttp1Only : Action → Type 0
OffersHttp1Only (new_manager o) =
    OffersHttp1 o.metrics.tls_opts × OffersHttp1 o.webhook_server.tls_opts
OffersHttp1Only _ = Unit

abbrev pub Each : (Action → Type 0) → List Action → Type 0
Each P [] = Unit
Each P (c ∷ t) = P c × Each P t

abbrev pub EachPlanned : (Action → Type 0) → List PlannedAction → Type 0
EachPlanned P [] = Unit
EachPlanned P (p ∷ ps) = P p.action × EachPlanned P ps

Each-run_plan :
    (P : Action → Type 0) (answer : List Action → Action → Option Error) (ps : List PlannedAction)
    (t : List Action)
    → EachPlanned P ps
    → Each P t
    → Each P (run_plan answer ps t).1
unfolding run_plan
Each-run_plan P answer [] t k h = h
Each-run_plan P answer (p ∷ ps) t (k, ks) h = elim (Option-cases (answer t p.action)) [
  | inl e ↦ rw (run_plan-none answer p ps t e) (Each-run_plan P answer ps (p.action ∷ t) ks (k, h))
  | inr (x, e) ↦ rw (run_plan-some answer p ps t x e) (k, h)
]

EachPlanned-webhook_actions : (b : Bool) → EachPlanned OffersHttp1Only (webhook_actions b)
EachPlanned-webhook_actions true = (tt, (tt, (tt, tt)))
EachPlanned-webhook_actions false = (tt, (tt, (tt, (tt, tt))))

EachPlanned-plan :
    (c : ServerConfig) (enable_webhooks : String)
    → c.enable_http2 ≡ false
    → EachPlanned OffersHttp1Only (plan c enable_webhooks)
unfolding plan build_tls_options manager_options configure_metrics_server configure_webhook_server
EachPlanned-plan c enable_webhooks h = (
  tt,
  ((λ s. simp (h), λ s. simp (h)), (tt, EachPlanned-webhook_actions (enable_webhooks == "false"))),
)

not_set : (o : Option Bool) → o ≢ some true → or_value o false ≡ false
not_set none n = refl
not_set (some true) n = absurd (n refl)
not_set (some false) n = refl

-- Unless the command line sets `enable-http2`, each manager that `main` asks for has a metrics
-- server and a webhook server that offer HTTP/1.1 only, whatever configuration of TLS they start
-- with.
pub main-OffersHttp1Only :
    (host : Host) (a : Arguments)
    → host.arguments ≡ parsed a
    → a.bool_argument "enable-http2" ≢ some true
    → Each OffersHttp1Only (main host).1
unfolding parse_flags
main-OffersHttp1Only host a h n = rw (main-run_plan host a h) (
    Each-run_plan OffersHttp1Only host.answer _ []
      (EachPlanned-plan (parse_flags a) host.enable_webhooks (not_set _ n)) tt)
