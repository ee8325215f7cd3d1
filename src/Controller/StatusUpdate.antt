-- ===== src/Controller/StatusUpdate.antt =====
-- internal/controller/cashumint_controller.go: `updateStatus`.
use cashu_operator.Controller.Status.{with_condition}
use cashu_operator.Controller.Monad.{
  M, return, ◌>>=◌, attempt, the_mint, get_ingress, get_deployment, wrapping, get_service, get_mint,
  get_config_map, send, done, is_conflict, fail,
}
use cashu_operator.Common.{String, Option, if◌then◌else◌, ◌<>◌, some, none, true, false}
use cashu_operator.Controller.Env.{
  Result, Ingress, Library, Env, Deployment, ConfigMap, err, ok, update_status,
}
use cashu_operator.Api.{CashuMintStatus, CashuMint, IngressConfig, ingress_ready}

abbrev pub on_status : (CashuMintStatus → CashuMintStatus) → CashuMint → CashuMint
on_status f m = record m { status = f m.status }

-- The fields that an answer fills; any error leaves them.
abbrev pub observe_deployment : Result Deployment → CashuMint → CashuMint
observe_deployment (err e) m = m
observe_deployment (ok d) m =
    on_status (λ s. record s { ready_replicas = d.ready_replicas; deployment_name = d.name }) m

abbrev pub observe_service : Result String → CashuMint → CashuMint
observe_service (err e) m = m
observe_service (ok name) m = on_status (λ s. record s { service_name = name }) m

abbrev pub observe_config_map : Result ConfigMap → CashuMint → CashuMint
observe_config_map (err e) m = m
observe_config_map (ok c) m = on_status (λ s. record s { config_map_name = c.name }) m

abbrev ingress_url : Ingress → String → String
ingress_url i host = (if i.has_tls then "https://" else "http://") <> host

abbrev pub observe_ingress : Library → String → Result Ingress → CashuMint → CashuMint
observe_ingress lib host (err e) m = m
observe_ingress lib host (ok i) m =
    let named = on_status (λ s. record s { ingress_name = i.name }) m in
    if i.is_assigned
    then with_condition lib ingress_ready true "IngressReady" "Ingress is ready and accessible"
        (on_status (λ s. record s { url = ingress_url i host }) named)
    else with_condition lib ingress_ready false "IngressNotReady"
        "Waiting for ingress to be assigned" named

abbrev pub observe_generation : CashuMint → CashuMint
observe_generation m = on_status (λ s. record s { observed_generation = m.metadata.generation }) m

module _ (env : Env) where
  open env use {server, library}

  -- The host of an enabled ingress.
  abbrev pub ingress_host : Option IngressConfig → Option String
  ingress_host none = none
  ingress_host (some i) = if i.enabled then some i.host else none

  abbrev pub observe_optional_ingress : CashuMint → M CashuMint
  observe_optional_ingress m = elim (ingress_host m.spec.ingress) [
    | none ↦ return m
    | some host ↦ do
      r ← attempt (get_ingress env m.metadata.namespace m.metadata.name)
      return (observe_ingress library host r m)
  ]

  -- The fetched mint with the status of this pass and what the cluster shows.
  unfoldable pub observed_mint : CashuMint → CashuMint → M CashuMint
  observed_mint desired fetched = do
    d ← attempt (get_deployment env fetched.metadata.namespace fetched.metadata.name)
    s ← attempt (get_service env fetched.metadata.namespace fetched.metadata.name)
    m ←
        observe_optional_ingress
          (observe_service s (observe_deployment d (record fetched { status = desired.status })))
    c ← attempt (get_config_map env m.metadata.namespace (m.metadata.name <> "-config"))
    return (observe_generation (observe_config_map c m))

  -- `updateStatus`
  unfoldable pub update_status_of : M (Unit {0})
  update_status_of = do
    desired ← the_mint
    fetched ←
        wrapping "failed to re-fetch CashuMint for status update"
          (get_mint env desired.metadata.namespace desired.metadata.name)
    m ← observed_mint desired fetched
    r ← attempt (send env (update_status m))
    elim r [ ok _ ↦ done | err e ↦ if is_conflict e then done else fail e ]
