-- ===== src/Api/Start/Gate.antt =====
-- internal/api/server.go: what must hold before a sandbox is asked for a runtime.
use shclop.Prelude.Dict.{Dict, lookup, insert, lookup-insert}
use shclop.Integrations.Runtime.{resolve_agent_runtime_sound, AllUsable}
use shclop.Store.Bindings.{list_agent_integrations}
use shclop.Prelude.{
  ◌∙◌, some, subst, sym, ap, [], ◌∷◌, Option-cases, ◌+◌, String, ◌≡◌, ◌≢◌, true, arith, eq_iff, inl,
  inr, ◌⊎◌, ◌==◌, ◌&&◌, Bool-cases, List,
}
use shclop.Domain.{LlmModel, AgentIntegration, User, Agent, LlmGatewaySettings}
use shclop.Store.Memory.{err, ok, Result, Result-cases, ok, Call}
use shclop.Store.Models.{
  gateway_settings, get_llm_gateway_settings, gateway_settings, list_llm_models,
}
use shclop.Plugins.Resolver.{ResolvedMcpServer}
use shclop.Integrations.{AgentRuntimeResolution, resolve_agent_runtime}
use shclop.Api.Steps.{quiet_bind}
use shclop.Api.Server.{Flow, Server, go}
use shclop.Api.Agents.{Deps, is_offered, check_model}
use shclop.Api.Start.{
  read_settings, integration_env, marshalled, prepare_start, get_llm_gateway_settings,
  prepare_start, check_gateway, resolve_integrations,
}

-- A model of the store that is enabled has the name.
abbrev pub IsOffered : String → List LlmModel → Type 0
IsOffered model [] = ⊥
IsOffered model (m ∷ ms) = ((m.provider_model ≡ model) × (m.enabled ≡ true)) ⊎ IsOffered model ms

is_offered-IsOffered :
    (model : String) (ms : List LlmModel) → is_offered model ms ≡ true → IsOffered model ms
is_offered-IsOffered model [] h = absurd (ground (arith, h))
is_offered-IsOffered model (m ∷ ms) h = elim (Bool-cases (m.provider_model == model && m.enabled)) [
  | inl this ↦ inl (ground (arith, this, eq_iff m.provider_model model), ground (arith, this))
  | inr other ↦ inr (is_offered-IsOffered model ms (ground (arith, other, h)))
]

-- A model is let through when none is asked for or the store has it enabled; nothing changes.
pub check_model_sound :
    (c : Call) (model message : String) (s : Server)
    → (check_model c model message s).0 ≡ go tt
    → (check_model c model message s ≡ (go tt, s))
      × ((model ≢ "") → IsOffered model s.store.llm_models)
unfolding check_model list_llm_models
check_model_sound c model message s h = (
  ground (arith, eq_iff model ""),
  λ given. is_offered-IsOffered model s.store.llm_models (ground (arith, eq_iff model "")),
)

pub check_gateway_sound :
    (a : Agent) (settings : LlmGatewaySettings) (s : Server)
    → (check_gateway a settings s).0 ≡ go tt
    → (check_gateway a settings s ≡ (go tt, s))
      × ((a.model ≢ "") → (settings.enabled ≡ true) × (settings.base_url ≢ ""))
unfolding check_gateway
check_gateway_sound a settings s h =
    (ground arith, ground (arith, eq_iff a.model "", eq_iff settings.base_url ""))

pub resolve_integrations_sound :
    (d : Deps) (u : User) (agent_id : String) (s : Server) {res : AgentRuntimeResolution}
    → (resolve_integrations d u agent_id s).0 ≡ go res
    → (resolve_integrations d u agent_id s ≡ (go res, s))
      × (resolve_agent_runtime d.integrations (λ i. d.at (100 + i)) u.id agent_id s.store ≡ ok res)
unfolding resolve_integrations
resolve_integrations_sound d u agent_id s {res} h =
    elim (Result-cases
      (resolve_agent_runtime d.integrations (λ i. d.at (100 + i)) u.id agent_id s.store)) [
        | inr (e, failed) ↦ absurd (ground (arith, failed))
        | inl (r, resolved) ↦ (ground arith, ground arith)
      ]

pub read_settings_sound :
    (d : Deps) (s : Server) {settings : LlmGatewaySettings}
    → (read_settings d s).0 ≡ go settings
    → (read_settings d s ≡ (go settings, s)) × (settings ≡ gateway_settings s.store)
unfolding read_settings get_llm_gateway_settings
read_settings_sound d s h = elim (Option-cases (d.at 12).ctx_err) [
  | inr (e, ended) ↦ absurd (ground (arith, ended))
  | inl live ↦ (ground (arith, live), ground (arith, live))
]

go_second {ℓ κ} :
    {A : Type ℓ} {B : Type κ} {a a' : A} {b b' : B}
    → ◌≡◌ {A = Flow (A × B)} (go (a, b)) (go (a', b'))
    → b ≡ b'
go_second h = ground arith

go_pair {ℓ κ} :
    {A : Type ℓ} {B : Type κ} {a a' : A} {b b' : B}
    → ◌≡◌ {A = Flow (A × B)} (go (a, b)) (go (a', b'))
    → a ≡ a'
go_pair h = ground arith

-- What the code after the preparation of a start relies on.
pub record IsPrepared (d : Deps) (agent_id : String) (u : User) (a : Agent) (s : Server)
    (settings : LlmGatewaySettings) : Type 0 where
  pub stored : settings ≡ gateway_settings s.store
  pub offered : (a.model ≢ "") → IsOffered a.model s.store.llm_models
  pub configured : (a.model ≢ "") → (settings.enabled ≡ true) × (settings.base_url ≢ "")
  pub usable :
      (ais : List AgentIntegration) × ((list_agent_integrations (d.at 100) agent_id s.store).0
        ≡ ok ais)
      × AllUsable d.integrations (λ i. d.at (100 + i)) 1 u.id ais s.store

marshalled_sound :
    (env0 : Dict String) (r : Result String) (s : Server) {env : Dict String}
    → (marshalled env0 r s).0 ≡ go env
    → marshalled env0 r s ≡ (go env, s)
marshalled_sound env0 (ok blob) s h = ap (λ x. (x, s)) h
marshalled_sound env0 (err e) s h = absurd (ground arith)

-- The environment that an agent gets: that of the resolution, and where it has servers, their description under
-- its own name.
abbrev pub IsEnv : Deps → AgentRuntimeResolution → List ResolvedMcpServer → Dict String → Type 0
IsEnv d res [] env = env ≡ res.env
IsEnv d res (server ∷ servers) env =
    (blob : String) × (d.marshal_mcp (server ∷ servers) ≡ ok blob)
    × (lookup "SHCLOP_MCP_CONFIG" env ≡ some blob)
    × ((key : String) → (key ≢ "SHCLOP_MCP_CONFIG") → lookup key env ≡ lookup key res.env)

marshalled-IsEnv :
    (d : Deps) (res : AgentRuntimeResolution) (server : ResolvedMcpServer)
    (servers : List ResolvedMcpServer) (s : Server) {env : Dict String}
    → (marshalled res.env (d.marshal_mcp (server ∷ servers)) s).0 ≡ go env
    → IsEnv d res (server ∷ servers) env
marshalled-IsEnv d res server servers s {env} h =
    elim (Result-cases (d.marshal_mcp (server ∷ servers))) [
      | inr (e, failed) ↦ absurd (ground (arith, failed, h))
      | inl (blob, made) ↦
          let same : insert "SHCLOP_MCP_CONFIG" blob res.env ≡ env = ground (arith, made, h) in
          let read = λ (key : String).
            ap (lookup key) (sym same) ∙ lookup-insert "SHCLOP_MCP_CONFIG" key blob res.env in
          (
            blob,
            made,
            read "SHCLOP_MCP_CONFIG"
                ∙ ground (arith, eq_iff "SHCLOP_MCP_CONFIG" "SHCLOP_MCP_CONFIG"),
            λ key other. ground (arith, read key, other, eq_iff "SHCLOP_MCP_CONFIG" key),
          )
    ]

integration_env-IsEnv :
    (d : Deps) (res : AgentRuntimeResolution) (servers : List ResolvedMcpServer) (s : Server)
    {env : Dict String}
    → (integration_env d res servers s).0 ≡ go env
    → IsEnv d res servers env
integration_env-IsEnv d res [] s h = ground (arith, h)
integration_env-IsEnv d res (server ∷ servers) s h = marshalled-IsEnv d res server servers s h

pub integration_env_sound :
    (d : Deps) (res : AgentRuntimeResolution) (servers : List ResolvedMcpServer) (s : Server)
    {env : Dict String}
    → (integration_env d res servers s).0 ≡ go env
    → integration_env d res servers s ≡ (go env, s)
integration_env_sound d res [] s h = ap (λ x. (x, s)) h
integration_env_sound d res (server ∷ servers) s h =
    marshalled_sound res.env (d.marshal_mcp (server ∷ servers)) s h

-- When the preparation of a start goes on, it has changed nothing, its settings are the store's, an agent
-- with a model has one that is enabled, behind a gateway that is enabled and has an address, every
-- integration that is enabled for the agent is usable with a connection of the caller, and the environment is
-- that of the resolved integrations, with the description of their MCP servers where they have any.
pub prepare_start_sound :
    (d : Deps) (agent_id : String) (u : User) (a : Agent) (s : Server)
    {settings : LlmGatewaySettings} {env : Dict String}
    → (prepare_start d agent_id u a s).0 ≡ go (settings, env)
    → (prepare_start d agent_id u a s ≡ (go (settings, env), s))
      × IsPrepared d agent_id u a s settings
      × ((res : AgentRuntimeResolution) × (resolve_agent_runtime d.integrations
              (λ i. d.at (100 + i))
              u.id
              agent_id
              s.store
            ≡ ok res)
          × IsEnv d res res.mcp_servers env)
unfolding prepare_start get_llm_gateway_settings
prepare_start_sound d agent_id u a s {settings} {env} h =
    let (_, offered, e1, h1) =
      quiet_bind (check_model (d.at 2) a.model "model not enabled") _ s
        (λ x e. check_model_sound (d.at 2) a.model "model not enabled" s e) h in
    let (found, stored, e3, h3) =
      quiet_bind (read_settings d) _ s (λ x e. read_settings_sound d s e) h1 in
    let (_, configured, e4, h4) =
      quiet_bind (check_gateway a found) _ s (λ x e. check_gateway_sound a found s e) h3 in
    let (res, runtime, e5, h5) =
      quiet_bind (resolve_integrations d u agent_id) _ s
        (λ x e. resolve_integrations_sound d u agent_id s e) h4 in
    let (env', filled, e6, h6) =
      quiet_bind {P = IsEnv d res res.mcp_servers} (integration_env d res res.mcp_servers) _ s
        (λ x e. (
          integration_env_sound d res res.mcp_servers s e,
          integration_env-IsEnv d res res.mcp_servers s e,
        ))
        h5 in
    let same = go_pair h6 in
    (
      e1 ∙ e3 ∙ e4 ∙ e5 ∙ e6 ∙ ap (λ x. (x, s)) h6,
      record {
        stored = sym same ∙ stored;
        offered = offered;
        configured = λ q. rw (sym same) (configured q);
        usable =
            resolve_agent_runtime_sound d.integrations (λ i. d.at (100 + i)) u.id agent_id s.store
              runtime;
      },
      (res, runtime, subst (IsEnv d res res.mcp_servers) (go_second h6) filled),
    )
