-- ===== src/Store/Agents.antt =====
-- internal/store/store.go: agents. Removing an agent removes its integrations too.
pub mod Removal
use shclop.Prelude.{Bool, ℕ, String, not, Option, none, some, List, [], ◌∷◌, ◌++◌, ◌==◌}
use shclop.Prelude.Lists.{find_first, update_first, remove_first, select}
use shclop.Domain.{Agent, AgentIntegration}
use shclop.Store.Memory.{not_found, Result, ok, err, Call, Method, with_ctx}
use shclop.Store.Users.{found}

abbrev pub agent_with_id : String → Agent → Bool
agent_with_id agent_id a = a.id == agent_id

abbrev pub owned_by : String → Agent → Bool
owned_by owner_user_id a = a.owner_user_id == owner_user_id

-- The arguments of `CreateAgent` that describe the agent.
pub record AgentArgs : Type 0 where
  pub owner_user_id : String
  pub name : String
  pub description : String
  pub runtime : String
  pub model : String
  pub system_prompt : String

abbrev pub new_agent : String → AgentArgs → ℕ → Agent
new_agent id args now = record {
  id = id;
  owner_user_id = args.owner_user_id;
  name = args.name;
  description = args.description;
  runtime = args.runtime;
  model = args.model;
  system_prompt = args.system_prompt;
  state = "idle";
  last_error = "";
  created_at = now;
  updated_at = now;
}

abbrev add_agent : Call → AgentArgs → Result String → Method Agent
add_agent c args (err e) m = (err e, m)
add_agent c args (ok id) m =
    let agent = new_agent id args c.now in (ok agent, record m { agents = m.agents ++ agent ∷ [] })

unfoldable pub create_agent : Call → AgentArgs → Method Agent
create_agent c args = with_ctx c (add_agent c args c.new_id)

unfoldable pub get_agent : Call → String → Method Agent
get_agent c agent_id = with_ctx c λ m. (found (find_first (agent_with_id agent_id) m.agents), m)

unfoldable pub list_agents : Call → String → Method (List Agent)
list_agents c owner_user_id = with_ctx c λ m. (ok (select (owned_by owner_user_id) m.agents), m)

abbrev pub set_state : String → ℕ → Agent → Agent
set_state state now a = record a { state = state; updated_at = now }

abbrev pub set_error : String → ℕ → Agent → Agent
set_error last_error now a = record a { last_error = last_error; updated_at = now }

abbrev edit_agent : String → (Agent → Agent) → Option Agent → Method Agent
edit_agent agent_id f none m = (err not_found, m)
edit_agent agent_id f (some a) m =
    (ok (f a), record m { agents = update_first (agent_with_id agent_id) f m.agents })

unfoldable pub update_agent_state : Call → String → String → Method Agent
update_agent_state c agent_id state = with_ctx c λ m.
    edit_agent agent_id (set_state state c.now) (find_first (agent_with_id agent_id) m.agents) m

unfoldable pub update_agent_error : Call → String → String → Method Agent
update_agent_error c agent_id last_error = with_ctx c λ m.
    edit_agent agent_id (set_error last_error c.now) (find_first (agent_with_id agent_id) m.agents)
      m

abbrev pub of_another_agent : String → AgentIntegration → Bool
of_another_agent agent_id ai = not (ai.agent_id == agent_id)

abbrev drop_agent : String → Option Agent → Method (Unit {0})
drop_agent agent_id none m = (err not_found, m)
drop_agent agent_id (some a) m = (
  ok tt,
  record m {
    agents = remove_first (agent_with_id agent_id) m.agents;
    agent_integrations = select (of_another_agent agent_id) m.agent_integrations;
  },
)

unfoldable pub delete_agent : Call → String → Method (Unit {0})
delete_agent c agent_id =
    with_ctx c λ m. drop_agent agent_id (find_first (agent_with_id agent_id) m.agents) m
