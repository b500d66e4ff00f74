-- ===== src/Store/Agents/Removal.antt =====
-- internal/store/store.go: what is left when an agent is deleted.
use shclop.Prelude.{
  String, ◌≡◌, Bool, ◌&&◌, none, List, arith, ◌==◌, eq_iff, map, if◌then◌else◌, Bool-cases, inl,
  inr,
}
use shclop.Prelude.Lists.{
  find_first, remove_first, select, find_first-select, find_first-select_kept,
  find_first-remove_first_other,
}
use shclop.Prelude.Keys.{IsDistinct, find_first-remove_first}
use shclop.Domain.{Agent, AgentIntegration}
use shclop.Store.Memory.{not_found, ok, err, Call, Memory}
use shclop.Store.Agents.{agent_with_id, of_another_agent, get_agent, delete_agent}
use shclop.Store.Bindings.{get_agent_integration}

abbrev pub agent_id_of : Agent → String
agent_id_of a = a.id

abbrev of_binding : String → String → AgentIntegration → Bool
of_binding agent_id provider_id ai = ai.agent_id == agent_id && ai.provider_id == provider_id

find_first-delete :
    (id id' : String) (xs : List Agent)
    → IsDistinct (map agent_id_of xs)
    → find_first (agent_with_id id') (remove_first (agent_with_id id) xs)
      ≡ (if id == id' then none else find_first (agent_with_id id') xs)
find_first-delete id id' xs d = elim (Bool-cases (id == id')) [
  | inl same ↦
      let e : id ≡ id' = ground (arith, eq_iff id id') in
      rw same (
        rw (← e) (
          find_first-remove_first agent_id_of (agent_with_id id) id xs
            (λ x h. ground (arith, eq_iff x.id id)) d))
  | inr other ↦ rw other (
      find_first-remove_first_other (agent_with_id id) (agent_with_id id') xs
        (λ x h. ground (arith, eq_iff x.id id, eq_iff x.id id', eq_iff id id')))
]

find_first-of_agent :
    (id id' p : String) (xs : List AgentIntegration)
    → find_first (of_binding id' p) (select (of_another_agent id) xs)
      ≡ (if id == id' then none else find_first (of_binding id' p) xs)
find_first-of_agent id id' p xs = elim (Bool-cases (id == id')) [
  | inl same ↦ rw same (
      find_first-select (of_another_agent id) (of_binding id' p) xs
        (λ x h. ground (arith, eq_iff id id', eq_iff x.agent_id id, eq_iff x.agent_id id')))
  | inr other ↦ rw other (
      find_first-select_kept (of_another_agent id) (of_binding id' p) xs
        (λ x h. ground (arith, eq_iff id id', eq_iff x.agent_id id, eq_iff x.agent_id id')))
]

-- Where agents have different ids and the later context has not ended: a deleted agent is not found any more and no integration of it is
-- left, and every other agent and its integrations are found as before.
pub get_agent-delete :
    (c c' : Call) (agent_id id p : String) (m : Memory)
    → IsDistinct (map agent_id_of m.agents)
    → (delete_agent c agent_id m).0 ≡ ok tt
    → c'.ctx_err ≡ none
    → let m' = (delete_agent c agent_id m).1 in
      ((get_agent c' id m').0 ≡ (if agent_id == id then err not_found else (get_agent c' id m).0))
      × ((get_agent_integration c' id p m').0
          ≡ (if agent_id == id then err not_found else (get_agent_integration c' id p m).0))
unfolding get_agent delete_agent get_agent_integration
get_agent-delete c c' agent_id id p m distinct done live = (
  ground (arith, find_first-delete agent_id id m.agents distinct),
  ground (arith, find_first-of_agent agent_id id p m.agent_integrations),
)
