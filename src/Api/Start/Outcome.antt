-- ===== src/Api/Start/Outcome.antt =====
-- internal/api/server.go: what an accepted start shows.
use shclop.Prelude.Lists.{find_first}
use shclop.Prelude.{
  ◌∙◌, ap, refl, ◌+◌, String, ◌≡◌, ◌≢◌, inl, inr, arith, some, Option-cases, List, ◌∷◌, [], eq_iff,
  subst,
}
use shclop.Prelude.Dict.{lookup-insert, lookup, Dict, lookup-insert}
use shclop.Domain.{User, Agent, LlmGatewaySettings}
use shclop.Store.Memory.{ok, Result, Result-cases, err}
use shclop.Store.Models.{get_llm_gateway_settings, list_llm_models}
use shclop.Store.Agents.{agent_with_id, set_state, update_agent_state}
use shclop.Plugins.Resolver.{ResolvedMcpServer}
use shclop.Integrations.{AgentRuntimeResolution, resolve_agent_runtime}
use shclop.Api.Server.{
  Flow, Flow-cases, Server, Response, Handler, go, done, ◌>>=◌, continue, record_activity,
}
use shclop.Api.Access.Authorized.{Authorized, authorized}
use shclop.Api.Agents.{Deps, RuntimeLease, check_model}
use shclop.Api.Start.{
  check_gateway, resolution_failed, resolve_integrations, marshalled, integration_env,
  read_settings, prepare_start, launch, start_request, start_agent, handle_start_agent,
  start_failed,
}
use shclop.Api.Start.Gate.{
  check_model_sound, check_gateway_sound, resolve_integrations_sound, integration_env_sound,
  read_settings_sound, IsPrepared, prepare_start_sound,
}

-- An early answer of a step is none of success.
abbrev IsRefusal {ℓ} : {A : Type ℓ} → Handler A → Server → Type ℓ
IsRefusal m s = (r : Response) → (m s).0 ≡ done r → r.status ≢ 202

quiet-IsRefusal {ℓ κ} :
    {A : Type ℓ} {B : Type κ} (m : Handler A) (f : A → Handler B) (s : Server)
    → IsRefusal m s
    → ((a : A) → (m s).0 ≡ go a → m s ≡ (go a, s))
    → ((a : A) → IsRefusal (f a) s)
    → IsRefusal (m >>= f) s
quiet-IsRefusal m f s refused quiet rest r h = elim (Flow-cases (m s).0) [
  | inr (x, e) ↦ refused r (ground (arith, e))
  | inl (a, e) ↦ rest a r (ground (arith, quiet a e))
]

check_model-IsRefusal :
    (d : Deps) (a : Agent) (s : Server)
    → IsRefusal (check_model (d.at 2) a.model "model not enabled") s
unfolding check_model list_llm_models
check_model-IsRefusal d a s r h = ground arith

read_settings-IsRefusal : (d : Deps) (s : Server) → IsRefusal (read_settings d) s
unfolding read_settings get_llm_gateway_settings
read_settings-IsRefusal d s r h = ground arith

check_gateway-IsRefusal :
    (a : Agent) (settings : LlmGatewaySettings) (s : Server)
    → IsRefusal (check_gateway a settings) s
unfolding check_gateway
check_gateway-IsRefusal a settings s r h = ground arith

resolve_integrations-IsRefusal :
    (d : Deps) (u : User) (agent_id : String) (s : Server)
    → IsRefusal (resolve_integrations d u agent_id) s
unfolding resolve_integrations resolution_failed record_activity
resolve_integrations-IsRefusal d u agent_id s r h =
    elim (Result-cases
      (resolve_agent_runtime d.integrations (λ i. d.at (100 + i)) u.id agent_id s.store)) [
        | inl (x, e) ↦ absurd (ground (arith, e, h))
        | inr (x, e) ↦ ground (arith, e, h)
      ]

marshalled-IsRefusal :
    (env : Dict String) (x : Result String) (s : Server) → IsRefusal (marshalled env x) s
marshalled-IsRefusal env (ok blob) s r h = absurd (ground (arith, h))
marshalled-IsRefusal env (err e) s r h = ground (arith, h)

integration_env-IsRefusal :
    (d : Deps) (res : AgentRuntimeResolution) (servers : List ResolvedMcpServer) (s : Server)
    → IsRefusal (integration_env d res servers) s
integration_env-IsRefusal d res [] s r h = absurd (ground (arith, h))
integration_env-IsRefusal d res (server ∷ servers) s r h =
    marshalled-IsRefusal res.env (d.marshal_mcp (server ∷ servers)) s r h

prepare_start-IsRefusal :
    (d : Deps) (agent_id : String) (u : User) (a : Agent) (s : Server)
    → IsRefusal (prepare_start d agent_id u a) s
unfolding prepare_start
prepare_start-IsRefusal d agent_id u a s =
    quiet-IsRefusal (check_model (d.at 2) a.model "model not enabled") _ s
      (check_model-IsRefusal d a s)
      (λ x e. (check_model_sound (d.at 2) a.model "model not enabled" s e).0)
      (λ x.
        quiet-IsRefusal (read_settings d) _ s (read_settings-IsRefusal d s)
          (λ y e. (read_settings_sound d s e).0)
          (λ settings.
            quiet-IsRefusal (check_gateway a settings) _ s (check_gateway-IsRefusal a settings s)
              (λ y e. (check_gateway_sound a settings s e).0)
              (λ y.
                quiet-IsRefusal (resolve_integrations d u agent_id) _ s
                  (resolve_integrations-IsRefusal d u agent_id s)
                  (λ z e. (resolve_integrations_sound d u agent_id s e).0)
                  (λ res.
                    quiet-IsRefusal (integration_env d res res.mcp_servers) _ s
                      (integration_env-IsRefusal d res res.mcp_servers s)
                      (λ env e. integration_env_sound d res res.mcp_servers s e)
                      (λ env r h. absurd (ground (arith, h)))))))

-- What an accepted launch leaves behind: a runtime that the sandbox was asked for with exactly the
-- secret under which the agent is registered now.
abbrev pub IsLaunched : Deps → String → User → LlmGatewaySettings → Dict String → Server → Type 0
IsLaunched d agent_id u settings env after =
    (secret : String) × (d.random_secret ≡ ok secret)
    × (agent : Agent) × (lease : RuntimeLease) × (d.start
          (start_request u agent_id agent secret settings env)
        ≡ ok lease)
    × (agent.state ≡ "starting")
    × (lookup agent_id after.tokens ≡ some secret)

launch_accepted :
    (d : Deps) (agent_id : String) (u : User) (settings : LlmGatewaySettings) (env : Dict String)
    (s : Server) {r : Response}
    → (launch d agent_id u (settings, env) s).0 ≡ done r
    → r.status ≡ 202
    → IsLaunched d agent_id u settings env (launch d agent_id u (settings, env) s).1
unfolding launch start_failed record_activity update_agent_state
launch_accepted d agent_id u settings env s {r} h status = elim (Result-cases d.random_secret) [
  | inr (e, failed) ↦ absurd (ground (arith, failed, h))
  | inl (secret, drawn) ↦ elim (Option-cases (d.at 6).ctx_err) [
    | inr (e, ended) ↦ absurd (ground (arith, drawn, ended, h))
    | inl live ↦ elim (Option-cases (find_first (agent_with_id agent_id) s.store.agents)) [
      | inl absent ↦ absurd (ground (arith, drawn, live, absent, h))
      | inr (b, there) ↦
          let starting = set_state "starting" (d.at 6).now b in
          elim (Result-cases (d.start (start_request u agent_id starting secret settings env))) [
            | inr (e, failed) ↦ absurd (ground (arith, drawn, live, there, failed, h))
            | inl (lease, up) ↦ (
              secret,
              drawn,
              starting,
              lease,
              up,
              refl,
              rw (drawn, live, there, up)
                  (ground (
                    arith,
                    lookup-insert agent_id agent_id secret s.tokens,
                    eq_iff agent_id agent_id,
                  )),
            )
          ]
    ]
  ]
]

-- When a start is answered with 202: the caller owns the agent or is an administrator; the model, the
-- gateway and the caller's integrations passed the checks; the sandbox accepted a request with a fresh
-- secret; and it is this secret under which the agent's runtime is registered.
pub start_accepted :
    (d : Deps) (authorization agent_id : String) (s : Server) {r : Response}
    → (handle_start_agent d authorization agent_id s).0 ≡ done r
    → r.status ≡ 202
    → (w : Authorized d.at authorization agent_id s (start_agent d agent_id))
      × (settings : LlmGatewaySettings) × (env : Dict String) × IsPrepared d agent_id w.user w.agent
          s settings
      × IsLaunched d agent_id w.user settings env (handle_start_agent d authorization agent_id s).1
unfolding handle_start_agent start_agent
start_accepted d authorization agent_id s {r} h status =
    let w =
      authorized d.at authorization agent_id s (start_agent d agent_id)
        (λ r' e. ground (arith, e, h, status)) in
    let h' = subst (λ (p : Flow (Unit {0}) × Server). p.0 ≡ done r) w.rest h in
    elim (Flow-cases (prepare_start d agent_id w.user w.agent s).0) [
      | inr (x, e) ↦
          absurd
            (ground (arith, prepare_start-IsRefusal d agent_id w.user w.agent s x e, e, h', status))
      | inl ((settings, env), e) ↦
          let (quiet, prepared, env_of) = prepare_start_sound d agent_id w.user w.agent s e in
          let step = ap (λ x. continue x.0 (λ p. launch d agent_id w.user p) x.1) quiet in
          (
            w,
            settings,
            env,
            prepared,
            rw (w.rest ∙ step) (
                launch_accepted d agent_id w.user settings env s
                  (subst (λ (p : Flow (Unit {0}) × Server). p.0 ≡ done r) step h') status),
          )
    ]
