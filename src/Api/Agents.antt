-- ===== src/Api/Agents.antt =====
-- internal/api/server.go: the handlers of agents. The sandbox (internal/sandbox), the integration
-- service and the random runtime token are a `Deps`; the answers of the sandbox are those of one
-- request. JSON encoding of a response does not fail for these values.
pub mod Isolation
pub mod Stopped
use shclop.Prelude.{
  ℕ, ◌+◌, String, Bool, true, false, not, ◌&&◌, ◌||◌, Option, none, some, List, [], ◌∷◌, ◌==◌,
  if◌then◌else◌,
}
use shclop.Prelude.Text.{trim_space}
use shclop.Prelude.Dict.{Dict, insert}
use shclop.Domain.{User, Agent, LlmModel, LlmGatewaySettings}
use shclop.Store.Memory.{Err, not_found, failure, Result, ok, err, Call}
use shclop.Store.Agents.{
  AgentArgs, create_agent, list_agents, update_agent_state, update_agent_error, delete_agent,
}
use shclop.Store.Models.{list_llm_models, get_llm_gateway_settings}
use shclop.Plugins.Resolver.{ResolvedMcpServer}
use shclop.Integrations.{Service, AgentRuntimeResolution, resolve_agent_runtime}
use shclop.Api.Server.{
  Detail, text, Server, Body, json_error, of_agent, of_agents, empty, Handler, ◌>>=◌, ◌>>◌, pure,
  respond, forbidden, missing, bad_request, store_error, when, call_store, or_store_error,
  record_activity, set_token, drop_token,
}
use shclop.Api.Access.{require_user, own_agent}

-- sandbox.StartRequest and sandbox.RuntimeLease
pub record StartRequest : Type 0 where
  pub agent_id : String
  pub owner_id : String
  pub runtime : String
  pub runtime_token : String
  pub llm_model : String
  pub llm_gateway_base_url : String
  pub llm_gateway_secret_name : String
  pub llm_gateway_secret_key : String
  pub system_prompt : String
  pub integration_env : Dict String

pub record RuntimeLease : Type 0 where
  pub agent_id : String
  pub provider : String
  pub runtime : String
  pub external_id : String

pub record Deps : Type 0 where
  pub at : ℕ → Call
  pub integrations : Service
  pub marshal_mcp : List ResolvedMcpServer → Result String
  pub random_secret : Result String
  pub start : StartRequest → Result RuntimeLease
  pub stop : String → Result (Unit {0})

-- `CreateAgentInput`, or nothing if the body does not decode.
pub record CreateAgentInput : Type 0 where
  pub name : String
  pub description : String
  pub runtime : String
  pub model : String
  pub system_prompt : String

abbrev pub decoded {ℓ} : {A : Type ℓ} → Option A → Handler A
decoded none = bad_request "bad request"
decoded (some a) = pure a

abbrev pub is_offered : String → List LlmModel → Bool
is_offered model [] = false
is_offered model (m ∷ ms) = m.provider_model == model && m.enabled || is_offered model ms

-- `if model != "" { … }`: the model must be one that an administrator has enabled.
unfoldable pub check_model : Call → String → String → Handler (Unit {0})
check_model c model message = if model == "" then pure tt else do
  r ← call_store (list_llm_models c)
  models ← or_store_error r
  when (not (is_offered model models)) (bad_request message)

abbrev normal_runtime : String → String
normal_runtime runtime = if runtime == "" then "nanoclaw" else runtime

unfoldable pub handle_create_agent :
    (ℕ → Call) → String → Option CreateAgentInput → Handler (Unit {0})
unfolding check_model
handle_create_agent at authorization body = do
  user ← require_user (at 0) authorization
  when user.disabled forbidden
  request ← decoded body
  let name = trim_space request.name
  let runtime = normal_runtime (trim_space request.runtime)
  let model = trim_space request.model
  when (name == "") (bad_request "bad request")
  when (not (runtime == "openclaw") && not (runtime == "nanoclaw"))
      (bad_request "bad request: runtime must be openclaw or nanoclaw")
  check_model (at 1) model "bad request: model not found or not enabled"
  created ← call_store (
      create_agent (at 2) (record {
        owner_user_id = user.id;
        name = name;
        description = request.description;
        runtime = runtime;
        model = model;
        system_prompt = request.system_prompt;
      }))
  agent ← or_store_error created
  record_activity (at 3) "agent.created" user.id agent.id "agent created"
      (("name", text agent.name) ∷ [])
  respond 201 (of_agent agent)

unfoldable pub handle_list_agents : (ℕ → Call) → String → Handler (Unit {0})
handle_list_agents at authorization = do
  user ← require_user (at 0) authorization
  r ← call_store (list_agents (at 1) user.id)
  agents ← or_store_error r
  respond 200 (of_agents agents)

unfoldable pub handle_get_agent : (ℕ → Call) → String → String → Handler (Unit {0})
handle_get_agent at authorization agent_id = do
  user ← require_user (at 0) authorization
  agent ← own_agent (at 1) user agent_id
  respond 200 (of_agent agent)

-- The sandbox is stopped first; only then is the runtime's token revoked and the state written.
unfoldable pub stop_agent : Deps → String → User → Agent → Handler (Unit {0})
stop_agent d agent_id user agent = do
  stopped ← or_store_error (d.stop agent_id)
  drop_token agent_id
  r ← call_store (update_agent_state (d.at 2) agent_id "stopped")
  agent' ← or_store_error r
  record_activity (d.at 3) "agent.stopped" user.id agent_id "agent stopped" []
  respond 200 (of_agent agent')

unfoldable pub handle_stop_agent : Deps → String → String → Handler (Unit {0})
handle_stop_agent d authorization agent_id = do
  user ← require_user (d.at 0) authorization
  agent ← own_agent (d.at 1) user agent_id
  stop_agent d agent_id user agent

-- An agent that is gone already is no error.
abbrev pub or_gone : Result (Unit {0}) → Handler (Unit {0})
or_gone (ok u) = pure tt
or_gone (err not_found) = pure tt
or_gone (err e) = store_error

-- The sandbox is stopped too; what it answers does not matter here.
unfoldable pub remove_agent : Deps → String → User → Agent → Handler (Unit {0})
remove_agent d agent_id user agent = do
  drop_token agent_id
  r ← call_store (delete_agent (d.at 2) agent_id)
  or_gone r
  record_activity (d.at 3) "agent.deleted" user.id agent_id "agent deleted"
      (("name", text agent.name) ∷ [])
  respond 204 empty

unfoldable pub handle_delete_agent : Deps → String → String → Handler (Unit {0})
handle_delete_agent d authorization agent_id = do
  user ← require_user (d.at 0) authorization
  agent ← own_agent (d.at 1) user agent_id
  remove_agent d agent_id user agent
