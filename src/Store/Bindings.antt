-- ===== src/Store/Bindings.antt =====
-- internal/store/store.go: which integrations are switched on for which agent.
pub mod Lookup
use shclop.Prelude.{ℕ, String, Bool, ◌&&◌, Option, none, some, List, [], ◌∷◌, ◌++◌, ◌==◌}
use shclop.Prelude.Lists.{find_first, update_first, select}
use shclop.Domain.{AgentIntegration}
use shclop.Store.Memory.{ok, Call, Method, with_ctx}
use shclop.Store.Users.{found}
use shclop.Store.Connections.{next_revision}

abbrev pub binding_of : String → String → AgentIntegration → Bool
binding_of agent_id provider_id ai = ai.agent_id == agent_id && ai.provider_id == provider_id

abbrev pub edit_binding : ℕ → Bool → ℕ → String → AgentIntegration → AgentIntegration
edit_binding now enabled revision status ai = record ai {
  enabled = enabled;
  revision = next_revision revision ai.revision;
  status = status;
  updated_at = now;
}

abbrev pub new_binding : ℕ → String → String → Bool → String → AgentIntegration
new_binding now agent_id provider_id enabled status = record {
  agent_id = agent_id;
  provider_id = provider_id;
  enabled = enabled;
  revision = 1;
  status = status;
  updated_at = now;
  created_at = now;
}

abbrev store_binding :
    ℕ → String → String → Bool → ℕ → String → Option AgentIntegration → Method AgentIntegration
store_binding now agent_id provider_id enabled revision status none m =
    let ai = new_binding now agent_id provider_id enabled status in
    (ok ai, record m { agent_integrations = m.agent_integrations ++ ai ∷ [] })
store_binding now agent_id provider_id enabled revision status (some old) m = (
  ok (edit_binding now enabled revision status old),
  record m {
    agent_integrations =
        update_first (binding_of agent_id provider_id) (edit_binding now enabled revision status)
          m.agent_integrations;
  },
)

unfoldable pub upsert_agent_integration :
    Call → String → String → Bool → ℕ → String → Method AgentIntegration
upsert_agent_integration c agent_id provider_id enabled revision status = with_ctx c λ m.
    store_binding c.now agent_id provider_id enabled revision status
      (find_first (binding_of agent_id provider_id) m.agent_integrations) m

abbrev pub of_agent : String → AgentIntegration → Bool
of_agent agent_id ai = ai.agent_id == agent_id

unfoldable pub list_agent_integrations : Call → String → Method (List AgentIntegration)
list_agent_integrations c agent_id =
    with_ctx c λ m. (ok (select (of_agent agent_id) m.agent_integrations), m)

unfoldable pub get_agent_integration : Call → String → String → Method AgentIntegration
get_agent_integration c agent_id provider_id =
    with_ctx c λ m. (found (find_first (binding_of agent_id provider_id) m.agent_integrations), m)
