-- ===== src/Tests/ApiRuns.antt =====
-- internal/api/server.go: requests of the owner of an agent and of somebody else.
use shclop.Store.Connections.{get_integration_connection}
use shclop.Store.Bindings.{list_agent_integrations}
use shclop.Integrations.{
  resolve_agent_runtime, AgentRuntimeResolution, resolve_one, resolve_all, resolve_agent_runtime,
  merge_env,
}
use shclop.Tests.Data.{server, deps, populated, writer, bob, alice, call}
use shclop.Api.Start.Outcome.{start_accepted, IsLaunched}
use shclop.Api.Start.Gate.{prepare_start_sound, IsPrepared, IsEnv}
use shclop.Api.Start.{
  launch, resolve_integrations, check_gateway, read_settings, handle_start_agent, start_agent,
  prepare_start,
}
use shclop.Api.Agents.Stopped.{delete_revokes, stop_revokes}
use shclop.Api.Agents.Isolation.{foreign_agent-Hidden, Missing}
use shclop.Api.Agents.{check_model, handle_delete_agent, handle_stop_agent, handle_get_agent}
use shclop.Api.Access.Authorized.{IsAuthorized, Authorized}
use shclop.Api.Access.Current.{disabled_locked_out, require_user_sound, Unauthorized}
use shclop.Api.Access.{enforce_current_user, own_agent, require_user}
use shclop.Api.Server.{
  trim_activity, record_activity, valid_runtime_token, empty, of_agent, done, go, Server,
}
use shclop.Auth.{resolve}
use shclop.Store.Agents.{update_agent_state, get_agent, agent_with_id}
use shclop.Store.Users.{update_user, get_user}
use shclop.Store.Models.{get_llm_gateway_settings, list_llm_models, gateway_settings}
use shclop.Store.Memory.{ok}
use shclop.Prelude.Text.{trim_space, strip_prefix}
use shclop.Prelude.Lists.{update_first, select, find_first}
use shclop.Prelude.Dict.{insert, lookup, Dict}
use shclop.Domain.{LlmGatewaySettings, Agent, User}
use shclop.Prelude.{
  ◌+◌, ◌≡◌, refl, none, some, [], ◌∷◌, String, true, false, ◌==◌, if◌then◌else◌, inl, inr, arith,
  eq_iff,
}

abbrev after_start : Server
after_start = (handle_start_agent deps "Bearer ta" "a1" server).1

start_accepted_example :
    (w : Authorized deps.at "Bearer ta" "a1" server (start_agent deps "a1"))
    × (settings : LlmGatewaySettings) × (env : Dict String) × IsPrepared deps "a1" w.user w.agent
        server settings
    × IsLaunched deps "a1" w.user settings env after_start
unfolding handle_start_agent require_user strip_prefix trim_space resolve lookup get_user find_first
    own_agent get_agent start_agent prepare_start check_model list_llm_models read_settings
    get_llm_gateway_settings check_gateway resolve_integrations enforce_current_user record_activity
    trim_activity launch merge_env resolve_agent_runtime resolve_all resolve_one insert select
    update_first update_agent_state list_agent_integrations get_integration_connection
start_accepted_example =
    start_accepted deps "Bearer ta" "a1" server
      {r = record {
        status = 202;
        body = of_agent (record writer { state = "running"; updated_at = 13 });
      }}
      refl refl

prepare_start_sound_example :
    (prepare_start deps "a1" alice writer server
      ≡ (go (gateway_settings populated, ("GITHUB_TOKEN", "plain") ∷ []), server))
    × IsPrepared deps "a1" alice writer server (gateway_settings populated)
    × ((res : AgentRuntimeResolution) × (resolve_agent_runtime deps.integrations
            (λ i. deps.at (100 + i))
            "u1"
            "a1"
            populated
          ≡ ok res)
        × IsEnv deps res res.mcp_servers (("GITHUB_TOKEN", "plain") ∷ []))
unfolding prepare_start shclop.Api.Agents.check_model shclop.Store.Models.list_llm_models
    shclop.Api.Start.read_settings shclop.Store.Models.get_llm_gateway_settings
    shclop.Api.Start.check_gateway shclop.Api.Start.resolve_integrations
    shclop.Integrations.resolve_agent_runtime shclop.Store.Bindings.list_agent_integrations
    shclop.Prelude.Lists.select shclop.Integrations.resolve_one
    shclop.Store.Connections.get_integration_connection find_first shclop.Integrations.merge_env
    shclop.Prelude.Dict.insert
prepare_start_sound_example =
    prepare_start_sound deps "a1" alice writer server {settings = gateway_settings populated}
      {env = ("GITHUB_TOKEN", "plain") ∷ []} refl

stop_revokes_example :
    IsAuthorized deps.at "Bearer ta" "a1" server
    × ((id secret : String)
        → valid_runtime_token id secret (handle_stop_agent deps "Bearer ta" "a1" server).1
          ≡ (if "a1" == id then false else valid_runtime_token id secret server))
    × ((b : Agent) × (find_first
            (agent_with_id "a1")
            (handle_stop_agent deps "Bearer ta" "a1" server).1.store.agents
          ≡ some b)
        × (b.state ≡ "stopped"))
unfolding handle_stop_agent require_user strip_prefix trim_space resolve shclop.Prelude.Dict.lookup
    get_user find_first shclop.Api.Access.own_agent shclop.Store.Agents.get_agent
    shclop.Api.Agents.stop_agent shclop.Store.Agents.update_agent_state
    shclop.Api.Server.record_activity
stop_revokes_example =
    stop_revokes deps "Bearer ta" "a1" server
      {r = record {
        status = 200;
        body = of_agent (record writer { state = "stopped"; updated_at = 2 });
      }}
      refl refl

delete_revokes_example :
    IsAuthorized deps.at "Bearer ta" "a1" server
    × ((id secret : String)
        → valid_runtime_token id secret (handle_delete_agent deps "Bearer ta" "a1" server).1
          ≡ (if "a1" == id then false else valid_runtime_token id secret server))
unfolding handle_delete_agent require_user strip_prefix trim_space resolve
    shclop.Prelude.Dict.lookup get_user find_first shclop.Api.Access.own_agent
    shclop.Store.Agents.get_agent shclop.Api.Agents.remove_agent shclop.Store.Agents.delete_agent
    shclop.Api.Server.record_activity
delete_revokes_example =
    delete_revokes deps "Bearer ta" "a1" server {r = record { status = 204; body = empty }} refl
      refl

foreign_agent-Hidden_example :
    (handle_get_agent deps.at "Bearer tb" "a1" server ≡ (done Missing, server))
    × (handle_stop_agent deps "Bearer tb" "a1" server ≡ (done Missing, server))
    × (handle_delete_agent deps "Bearer tb" "a1" server ≡ (done Missing, server))
unfolding require_user strip_prefix trim_space resolve shclop.Prelude.Dict.lookup get_user
    find_first shclop.Store.Agents.get_agent
foreign_agent-Hidden_example =
    foreign_agent-Hidden deps "Bearer tb" "a1" server {u = bob} refl
      (inr (writer, refl, ground (arith, eq_iff "u1" "u2"), ground (arith, eq_iff "user" "admin")))

require_user_sound_example :
    (alice.disabled ≡ false)
    × ((rest : String) × (cached : User) × (strip_prefix "Bearer " "Bearer ta" ≡ some rest)
        × (resolve (trim_space rest) server.sessions ≡ some cached)
        × ((get_user (call "n" 0) cached.id populated).0 ≡ ok alice))
unfolding require_user strip_prefix trim_space resolve shclop.Prelude.Dict.lookup get_user
    find_first
require_user_sound_example = require_user_sound (call "n" 0) "Bearer ta" server {u = alice} refl

disabled_locked_out_example :
    (require_user
      (call "n" 9)
      "Bearer ta"
      (record server { store = (update_user (call "n" 8) "u1" (some true) none populated).1 })).0
    ≡ done Unauthorized
unfolding update_user find_first strip_prefix resolve shclop.Prelude.Dict.lookup trim_space
disabled_locked_out_example =
    disabled_locked_out (call "n" 8) (call "n" 9) "u1" none server "Bearer ta" "ta"
      {u = record alice { disabled = true; updated_at = 8 }} {cached = alice} refl refl refl refl
      refl
