-- ===== src/Api/Start.antt =====
-- internal/api/server.go: starting an agent.
pub mod Failed
pub mod Gate
pub mod Outcome
use Prim.Native.String.{◌++◌ as append}
use shclop.Prelude.{
  ℕ, ◌+◌, String, Bool, true, false, not, ◌&&◌, ◌||◌, Option, none, some, List, [], ◌∷◌, ◌==◌,
  if◌then◌else◌,
}
use shclop.Prelude.Dict.{Dict, insert}
use shclop.Domain.{User, Agent, LlmGatewaySettings}
use shclop.Store.Memory.{Err, Result, ok, err, error_text}
use shclop.Store.Agents.{update_agent_state, update_agent_error}
use shclop.Store.Models.{get_llm_gateway_settings}
use shclop.Plugins.Resolver.{ResolvedMcpServer}
use shclop.Integrations.{AgentRuntimeResolution, resolve_agent_runtime}
use shclop.Api.Server.{
  text, json_error, of_agent, Handler, ◌>>=◌, ◌>>◌, pure, respond, bad_request, store_error, when,
  call_store, or_store_error, record_activity, set_token,
}
use shclop.Api.Access.{require_user, own_agent}
use shclop.Api.Agents.{StartRequest, RuntimeLease, Deps, check_model}

-- An agent with a model needs a gateway that is enabled and has an address.
unfoldable pub check_gateway : Agent → LlmGatewaySettings → Handler (Unit {0})
check_gateway agent settings =
    when (not (agent.model == "") && (not settings.enabled || settings.base_url == "")) (
      bad_request
        "LLM gateway not fully configured: enabled and base URL are required when an agent model is set")

-- The integrations did not resolve: the error is stored, and the agent is idle.
unfoldable pub resolution_failed : Deps → User → String → Err → Handler AgentRuntimeResolution
resolution_failed d user agent_id e = do
  record_activity (d.at 3) "agent.start_failed" user.id agent_id
      (append "integration resolution failed: " (error_text e)) []
  r ← call_store (update_agent_error (d.at 4) agent_id (error_text e))
  q ← call_store (update_agent_state (d.at 5) agent_id "idle")
  respond 400 (json_error (error_text e))

abbrev resolved :
    Deps → User → String → Result AgentRuntimeResolution → Handler AgentRuntimeResolution
resolved d user agent_id (ok resolution) = pure resolution
resolved d user agent_id (err e) = resolution_failed d user agent_id e

-- `s.integrations.ResolveAgentRuntime(r.Context(), user.ID, agentID)`
unfoldable pub resolve_integrations : Deps → User → String → Handler AgentRuntimeResolution
unfolding resolution_failed
resolve_integrations d user agent_id s =
    resolved d user agent_id
      (resolve_agent_runtime d.integrations (λ i. d.at (100 + i)) user.id agent_id s.store) s

abbrev marshalled : Dict String → Result String → Handler (Dict String)
marshalled env (ok blob) = pure (insert "SHCLOP_MCP_CONFIG" blob env)
marshalled env (err e) = respond 500 (json_error (error_text e))

abbrev integration_env :
    Deps → AgentRuntimeResolution → List ResolvedMcpServer → Handler (Dict String)
integration_env d resolution [] = pure resolution.env
integration_env d resolution (server ∷ servers) =
    marshalled resolution.env (d.marshal_mcp (server ∷ servers))

unfoldable pub start_failed : Deps → User → String → Agent → Err → Handler RuntimeLease
start_failed d user agent_id agent e = do
  r ← call_store (update_agent_state (d.at 8) agent_id "idle")
  q ← call_store (update_agent_error (d.at 9) agent_id (error_text e))
  record_activity (d.at 10) "sandbox.start_failed" user.id agent_id "sandbox start failed"
      (("runtime", text agent.runtime) ∷ ("error", text (error_text e)) ∷ [])
  store_error

abbrev started : Deps → User → String → Agent → Result RuntimeLease → Handler RuntimeLease
started d user agent_id agent (ok lease) = pure lease
started d user agent_id agent (err e) = start_failed d user agent_id agent e

abbrev start_request :
    User → String → Agent → String → LlmGatewaySettings → Dict String → StartRequest
start_request user agent_id agent secret settings env = record {
  agent_id = agent_id;
  owner_id = user.id;
  runtime = agent.runtime;
  runtime_token = secret;
  llm_model = agent.model;
  llm_gateway_base_url = settings.base_url;
  llm_gateway_secret_name = settings.secret_name;
  llm_gateway_secret_key = settings.secret_key;
  system_prompt = agent.system_prompt;
  integration_env = env;
}

abbrev no_agent : Agent
no_agent = record {
  id = "";
  owner_user_id = "";
  name = "";
  description = "";
  runtime = "";
  model = "";
  system_prompt = "";
  state = "";
  last_error = "";
  created_at = 0;
  updated_at = 0;
}

-- `agent, _ = s.store.UpdateAgentState(…)`: the zero agent if the call failed.
abbrev or_no_agent : Result Agent → Agent
or_no_agent (ok agent) = agent
or_no_agent (err e) = no_agent

-- `settings, err := s.store.GetLLMGatewaySettings(r.Context())`
unfoldable pub read_settings : Deps → Handler LlmGatewaySettings
read_settings d = do r ← call_store (get_llm_gateway_settings (d.at 12)); or_store_error r

-- Everything before the sandbox is asked: the model, the gateway, the integrations.
unfoldable pub prepare_start :
    Deps → String → User → Agent → Handler (LlmGatewaySettings × Dict String)
prepare_start d agent_id user agent = do
  check_model (d.at 2) agent.model "model not enabled"
  settings ← read_settings d
  check_gateway agent settings
  resolution ← resolve_integrations d user agent_id
  env ← integration_env d resolution resolution.mcp_servers
  pure (settings, env)

-- The token is registered before the runtime is started with it.
unfoldable pub launch : Deps → String → User → LlmGatewaySettings × Dict String → Handler (Unit {0})
unfolding start_failed
launch d agent_id user (settings, env) = do
  secret ← or_store_error d.random_secret
  set_token agent_id secret
  r ← call_store (update_agent_state (d.at 6) agent_id "starting")
  agent ← or_store_error r
  record_activity (d.at 7) "agent.start_requested" user.id agent_id "agent start requested"
      (("runtime", text agent.runtime) ∷ [])
  lease ←
      started d user agent_id agent
        (d.start (start_request user agent_id agent secret settings env))
  record_activity (d.at 11) "sandbox.started" user.id agent_id "sandbox started" (
      ("runtime", text agent.runtime)
      ∷ ("provider", text lease.provider)
      ∷ ("runtime_id", text lease.external_id)
      ∷ [])
  q ← call_store (update_agent_state (d.at 13) agent_id "running")
  respond 202 (of_agent (or_no_agent q))

unfoldable pub start_agent : Deps → String → User → Agent → Handler (Unit {0})
start_agent d agent_id user agent = do
  prepared ← prepare_start d agent_id user agent
  launch d agent_id user prepared

unfoldable pub handle_start_agent : Deps → String → String → Handler (Unit {0})
handle_start_agent d authorization agent_id = do
  user ← require_user (d.at 0) authorization
  agent ← own_agent (d.at 1) user agent_id
  start_agent d agent_id user agent
