-- ===== src/Tests/ConnectRuns.antt =====
-- internal/api/server.go: a connection is made, and an agent's integration is switched off.
use shclop.Tests.Data.{github_plugin, server, deps, plugins, writer_github, github}
use shclop.Api.Connect.Switched.{agent_integration_sound, IsSwitched}
use shclop.Api.Connect.Stored.{connect_integration_sound, IsConnected}
use shclop.Api.Connect.{
  shown_connection, shown_binding, handle_agent_integration, handle_connect_integration, toggle_as,
  connect_as, ConnectRequest,
}
use shclop.Api.Access.Authorized.{Authorized}
use shclop.Api.Access.{enforce_current_user, own_agent, require_user}
use shclop.Api.Server.{trim_activity, record_activity, of_binding, of_connection, go}
use shclop.Integrations.Summary.{build_summary}
use shclop.Integrations.Summary.Complete.{build_summary_complete, is_shown, has_connection, lists}
use shclop.Integrations.{toggle_agent_integration, connect}
use shclop.Store.Bindings.{upsert_agent_integration}
use shclop.Store.Connections.{get_integration_connection, upsert_integration_connection}
use shclop.Store.Agents.{get_agent}
use shclop.Store.Users.{get_user}
use shclop.Auth.{resolve}
use shclop.Prelude.Text.{trim_space, strip_prefix}
use shclop.Prelude.Dict.{insert, lookup}
use shclop.Prelude.Lists.{update_first, find_first}
use shclop.Domain.{AgentIntegration, IntegrationConnection, User}
use shclop.Prelude.{◌≡◌, refl, true, false, some, [], ◌∷◌}

abbrev request : ConnectRequest
request = record { token = "pat"; fields = [] }

abbrev connection : IntegrationConnection
connection = record github { revision = 4; updated_at = 1; secret = "sealed"; created_at = 1 }

connect_integration_sound_example :
    (u : User) × ((require_user (deps.at 0) "Bearer ta" server).0 ≡ go u)
    × (u.disabled ≡ false)
    × IsConnected plugins deps.at "github"
        (some request)
        u
        server
        (handle_connect_integration plugins deps.at "Bearer ta" "github" (some request) server).1
        (record { status = 200; body = of_connection (shown_connection connection) })
unfolding handle_connect_integration require_user strip_prefix trim_space resolve lookup
    enforce_current_user get_user find_first connect_as connect upsert_integration_connection insert
    record_activity trim_activity update_first
connect_integration_sound_example =
    connect_integration_sound plugins deps.at "Bearer ta" "github" (some request) server
      {r = record { status = 200; body = of_connection (shown_connection connection) }} refl refl

abbrev binding : AgentIntegration
binding = record writer_github {
  enabled = false;
  status = "disabled";
  revision = 4;
  updated_at = 3;
}

agent_integration_sound_example :
    (w : Authorized deps.at "Bearer ta" "a1" server (toggle_as deps.at "a1" "github" (some false)))
    × IsSwitched deps.at "a1" "github"
        (some false)
        w.agent
        server
        (handle_agent_integration deps.at "Bearer ta" "a1" "github" (some false) server).1
        (record { status = 200; body = of_binding (shown_binding binding) })
unfolding handle_agent_integration require_user strip_prefix trim_space resolve lookup
    enforce_current_user get_user find_first own_agent get_agent toggle_as
    get_integration_connection toggle_agent_integration upsert_agent_integration record_activity
    trim_activity update_first
agent_integration_sound_example =
    agent_integration_sound deps.at "Bearer ta" "a1" "github" (some false) server
      {r = record { status = 200; body = of_binding (shown_binding binding) }} refl refl

build_summary_complete_example :
    is_shown "github"
      (build_summary plugins (github_plugin ∷ []) (λ i. deps.at) (deps.at 0) "u1" server.store)
    ≡ true
unfolding has_connection lists
build_summary_complete_example =
    build_summary_complete plugins (github_plugin ∷ []) (λ i. deps.at) (deps.at 0) "u1" "github"
      server.store (λ i j. refl) refl (λ there. refl) refl
