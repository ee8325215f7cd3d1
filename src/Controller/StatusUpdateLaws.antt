-- ===== src/Controller/StatusUpdateLaws.antt =====
-- What `updateStatus` of internal/controller/cashumint_controller.go writes.
use cashu_operator.Controller.StatusUpdate.{
  observe_deployment, observe_service, observe_config_map, observe_ingress,
  observe_optional_ingress, ingress_host, observe_generation, observed_mint, update_status_of,
}
use cashu_operator.Controller.Monad.{
  ◌>>=◌, return, attempt, get_ingress, World, M, get_config_map, resume, get_deployment, the_mint,
  get_service, wrapping, get_mint, send, done, fail, is_conflict, outcome, noting,
}
use cashu_operator.Common.{
  ◌≡◌, String, Bool-cases, inl, Option, inr, none, some, refl, ◌∷◌, ◌<>◌, ap, [], if◌then◌else◌,
}
use cashu_operator.Controller.Env.{
  Env, Result, Library, Deployment, ConfigMap, ok, Ingress, err, Trace, update_status, Error, get,
  mint_kind,
}
use cashu_operator.Api.{CashuMint}

-- A mint with the metadata and the spec of the fetched one, and the phase of the pass.
pub record IsCarried (desired fetched m : CashuMint) : Type 0 where
  pub metadata : m.metadata ≡ fetched.metadata
  pub spec : m.spec ≡ fetched.spec
  pub phase : m.status.phase ≡ desired.status.phase

module _ {d f : CashuMint} where
  observe_deployment-IsCarried :
      (r : Result Deployment) (m : CashuMint)
      → IsCarried d f m
      → IsCarried d f (observe_deployment r m)
  observe_deployment-IsCarried (ok a) m c = record {
    metadata = c.metadata;
    spec = c.spec;
    phase = c.phase;
  }
  observe_deployment-IsCarried (err e) m c = c

  observe_service-IsCarried :
      (r : Result String) (m : CashuMint) → IsCarried d f m → IsCarried d f (observe_service r m)
  observe_service-IsCarried (ok a) m c = record {
    metadata = c.metadata;
    spec = c.spec;
    phase = c.phase;
  }
  observe_service-IsCarried (err e) m c = c

  observe_config_map-IsCarried :
      (r : Result ConfigMap) (m : CashuMint)
      → IsCarried d f m
      → IsCarried d f (observe_config_map r m)
  observe_config_map-IsCarried (ok a) m c = record {
    metadata = c.metadata;
    spec = c.spec;
    phase = c.phase;
  }
  observe_config_map-IsCarried (err e) m c = c

  observe_ingress-IsCarried :
      (lib : Library) (host : String) (r : Result Ingress) (m : CashuMint)
      → IsCarried d f m
      → IsCarried d f (observe_ingress lib host r m)
  observe_ingress-IsCarried lib host (err e) m c = c
  observe_ingress-IsCarried lib host (ok i) m c = elim (Bool-cases i.is_assigned) [
    | inl a ↦ rw (a) record { metadata = c.metadata; spec = c.spec; phase = c.phase }
    | inr a ↦ rw (a) record { metadata = c.metadata; spec = c.spec; phase = c.phase }
  ]

-- The step succeeds with a carried mint.
abbrev GivesCarried : CashuMint → CashuMint → Result CashuMint × World → Type 0
GivesCarried d f (ok m, w) = IsCarried d f m
GivesCarried d f (err e, w) = ⊥

-- And the generation that it calls observed is the fetched one.
pub record IsObserved (desired fetched m : CashuMint) : Type 0 where
  pub carried : IsCarried desired fetched m
  pub generation : m.status.observed_generation ≡ fetched.metadata.generation

abbrev GivesObserved : CashuMint → CashuMint → Result CashuMint × World → Type 0
GivesObserved d f (ok m, w) = IsObserved d f m
GivesObserved d f (err e, w) = ⊥

-- The latest call writes an observed mint.
abbrev pub IsStatusWritten : CashuMint → CashuMint → Trace → Type 0
IsStatusWritten d f [] = ⊥
IsStatusWritten d f (x ∷ t) = (m : CashuMint) × ((x.call ≡ update_status m) × IsObserved d f m)

module _ (env : Env) where
  open env use {server, library}

  optional_ingress-GivesCarried :
      {d f : CashuMint} (m : CashuMint) (w : World)
      → IsCarried d f m
      → GivesCarried d f (observe_optional_ingress env m w)
  unfolding ◌>>=◌ return attempt get_ingress
  optional_ingress-GivesCarried {d = d} {f = f} m w c = by_host (ingress_host env m.spec.ingress)
    where
      by_host :
          (h : Option String)
          → GivesCarried d f (
              (elim h as (λ _. M CashuMint) [
                | none ↦ return m
                | some host ↦
                    attempt (get_ingress env m.metadata.namespace m.metadata.name) >>= λ r.
                    return (observe_ingress library host r m)
              ])
                w)
      by_host none = c
      by_host (some host) = observe_ingress-IsCarried library host _ m c

  last_observation : CashuMint → M CashuMint
  last_observation m =
      attempt (get_config_map env m.metadata.namespace (m.metadata.name <> "-config")) >>= λ c.
      return (observe_generation (observe_config_map c m))

  observe_generation-IsObserved :
      {d f : CashuMint} (m : CashuMint) → IsCarried d f m → IsObserved d f (observe_generation m)
  observe_generation-IsObserved m c = record {
    carried = record { metadata = c.metadata; spec = c.spec; phase = c.phase };
    generation = ap (λ x. x.generation) c.metadata;
  }

  last-GivesObserved :
      (d f : CashuMint) (r : Result CashuMint × World)
      → GivesCarried d f r
      → GivesObserved d f (resume r last_observation)
  unfolding last_observation ◌>>=◌ return attempt get_config_map
  last-GivesObserved d f (ok m, v) c =
      observe_generation-IsObserved _ (observe_config_map-IsCarried _ m c)
  last-GivesObserved d f (err e, v) x = elim x [ ]

  observed_mint-GivesObserved :
      (d f : CashuMint) (w : World) → GivesObserved d f (observed_mint env d f w)
  unfolding observed_mint ◌>>=◌ return attempt get_deployment get_service last_observation
  observed_mint-GivesObserved d f w =
      let (r, w1) = get_deployment env f.metadata.namespace f.metadata.name w in
      let (s, w2) = get_service env f.metadata.namespace f.metadata.name w1 in
      let start : CashuMint = record f { status = d.status } in
      let m = observe_service s (observe_deployment r start) in
      last-GivesObserved d f (observe_optional_ingress env m w2) (
        optional_ingress-GivesCarried {d = d} {f = f} m w2 (
          observe_service-IsCarried s (observe_deployment r start) (
            observe_deployment-IsCarried r start
              record { metadata = refl; spec = refl; phase = refl })))

  write_status : CashuMint → M (Unit {0})
  write_status m = attempt (send env (update_status m)) >>= λ r. elim r [
    | ok _ ↦ done
    | err e ↦ if is_conflict e then done else fail e
  ]

  write_status-IsStatusWritten :
      (d f : CashuMint) (r : Result CashuMint × World)
      → GivesObserved d f r
      → IsStatusWritten d f (resume r write_status).1.trace
  unfolding write_status ◌>>=◌ attempt send done return fail
  write_status-IsStatusWritten d f (ok m, v) o = by_answer (server.write v.trace (update_status m))
    where
      by_answer :
          (a : Option Error)
          → IsStatusWritten d f
              ((elim (outcome a) as (λ _. M (Unit {0})) [
                | ok _ ↦ done
                | err e ↦ if is_conflict e then done else fail e
              ])
                (noting (update_status m) a v)).1.trace
      by_answer none = (m, (refl, o))
      by_answer (some e) = elim (Bool-cases (is_conflict e)) [
        | inl b ↦ rw (b) (m, (refl, o))
        | inr b ↦ rw (b) (m, (refl, o))
      ]
  write_status-IsStatusWritten d f (err e, v) x = elim x [ ]

  -- Where the mint can be fetched again, the last call of `updateStatus` writes the fetched
  -- metadata and spec with the phase of the pass, and the generation that it reports as observed is
  -- that of the fetched mint.
  pub update_status_of-IsStatusWritten :
      (w : World) (f : CashuMint)
      → server.get_mint w.trace w.mint.metadata.namespace w.mint.metadata.name ≡ ok f
      → IsStatusWritten w.mint f (update_status_of env w).1.trace
  unfolding update_status_of ◌>>=◌ the_mint wrapping get_mint attempt send write_status
  update_status_of-IsStatusWritten w f h =
      let v = noting (get mint_kind w.mint.metadata.namespace w.mint.metadata.name) none w in
      rw (h) (
        write_status-IsStatusWritten w.mint f (observed_mint env w.mint f v)
          (observed_mint-GivesObserved w.mint f v))
