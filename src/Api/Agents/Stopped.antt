-- ===== src/Api/Agents/Stopped.antt =====
-- internal/api/server.go: what stopping and deleting an agent leave behind.
use shclop.Prelude.{
  subst, String, ◌≡◌, refl, false, some, arith, ◌==◌, eq_iff, if◌then◌else◌, Option-cases, inl, inr,
}
use shclop.Prelude.Dict.{lookup-remove}
use shclop.Store.Memory.{Result-cases}
use shclop.Domain.{User, Agent}
use shclop.Store.Agents.{delete_agent, set_state, agent_with_id, update_agent_state}
use shclop.Prelude.Lists.{find_first, find_first-update_first, find_first-holds}
use shclop.Api.Server.{Flow, Server, Response, done, valid_runtime_token, record_activity}
use shclop.Api.Access.Authorized.{IsAuthorized, authorized, Authorized-user}
use shclop.Api.Agents.{
  handle_delete_agent, remove_agent, delete_agent, remove_agent, handle_stop_agent, Deps,
  stop_agent,
}

stop_agent_revokes :
    (d : Deps) (agent_id : String) (u : User) (a : Agent) (s : Server) {r : Response}
    → (stop_agent d agent_id u a s).0 ≡ done r
    → r.status ≡ 200
    → ((id secret : String)
        → valid_runtime_token id secret (stop_agent d agent_id u a s).1
          ≡ (if agent_id == id then false else valid_runtime_token id secret s))
      × ((b : Agent) × (find_first
              (agent_with_id agent_id)
              (stop_agent d agent_id u a s).1.store.agents
            ≡ some b)
          × (b.state ≡ "stopped"))
unfolding stop_agent update_agent_state record_activity valid_runtime_token
stop_agent_revokes d agent_id u a s {r} h status =
    elim (Option-cases (find_first (agent_with_id agent_id) s.store.agents)) [
      | inl absent ↦ absurd (ground arith)
      | inr (b, there) ↦ elim (Result-cases (d.stop agent_id)) [
        | inr (e, failed) ↦ absurd (ground arith)
        | inl (x, stopped) ↦ elim (Option-cases (d.at 2).ctx_err) [
          | inr (e, ended) ↦ absurd (ground arith)
          | inl live ↦ (
            λ id secret.
                rw (stopped, live, there)
                  (ground (arith, lookup-remove agent_id id s.tokens, eq_iff agent_id id)),
            (
              record b { state = "stopped"; updated_at = (d.at 2).now },
              rw (stopped, live, there)
                  (find_first-update_first (agent_with_id agent_id)
                    (set_state "stopped" (d.at 2).now) s.store.agents {a = b} there
                    (find_first-holds (agent_with_id agent_id) s.store.agents there)),
              refl,
            ),
          )
        ]
      ]
    ]

-- When a stop is answered with 200: the caller owns the agent or is an administrator, no secret of the
-- agent's runtime is accepted any more, those of other agents are accepted as before, and the store has
-- the agent as stopped.
pub stop_revokes :
    (d : Deps) (authorization agent_id : String) (s : Server) {r : Response}
    → (handle_stop_agent d authorization agent_id s).0 ≡ done r
    → r.status ≡ 200
    → IsAuthorized d.at authorization agent_id s
      × ((id secret : String)
          → valid_runtime_token id secret (handle_stop_agent d authorization agent_id s).1
            ≡ (if agent_id == id then false else valid_runtime_token id secret s))
      × ((b : Agent) × (find_first
              (agent_with_id agent_id)
              (handle_stop_agent d authorization agent_id s).1.store.agents
            ≡ some b)
          × (b.state ≡ "stopped"))
unfolding handle_stop_agent
stop_revokes d authorization agent_id s {r} h status =
    let w =
      authorized d.at authorization agent_id s (stop_agent d agent_id)
        (λ r' e. ground (arith, e, h, status)) in
    let (tokens, state) =
      stop_agent_revokes d agent_id w.user w.agent s {r = r}
        (subst (λ (p : Flow (Unit {0}) × Server). p.0 ≡ done r) w.rest h) status in
    (Authorized-user w, rw w.rest tokens, rw w.rest state)

remove_agent_revokes :
    (d : Deps) (agent_id : String) (u : User) (a : Agent) (s : Server) (id secret : String)
    → valid_runtime_token id secret (remove_agent d agent_id u a s).1
      ≡ (if agent_id == id then false else valid_runtime_token id secret s)
unfolding remove_agent delete_agent record_activity valid_runtime_token
remove_agent_revokes d agent_id u a s id secret =
    elim (Option-cases (find_first (agent_with_id agent_id) s.store.agents)) [
      | inl absent ↦ elim (Option-cases (d.at 2).ctx_err) [
        | inr (e, ended) ↦ ground (arith, lookup-remove agent_id id s.tokens, eq_iff agent_id id)
        | inl live ↦
            rw (live, absent)
              (ground (arith, lookup-remove agent_id id s.tokens, eq_iff agent_id id))
      ]
      | inr (b, there) ↦ elim (Option-cases (d.at 2).ctx_err) [
        | inr (e, ended) ↦ ground (arith, lookup-remove agent_id id s.tokens, eq_iff agent_id id)
        | inl live ↦
            rw (live, there)
              (ground (arith, lookup-remove agent_id id s.tokens, eq_iff agent_id id))
      ]
    ]

-- When a deletion is answered with 204, the caller owns the agent or is an administrator, no secret of
-- the agent's runtime is accepted any more, and those of other agents are accepted as before.
pub delete_revokes :
    (d : Deps) (authorization agent_id : String) (s : Server) {r : Response}
    → (handle_delete_agent d authorization agent_id s).0 ≡ done r
    → r.status ≡ 204
    → IsAuthorized d.at authorization agent_id s
      × ((id secret : String)
          → valid_runtime_token id secret (handle_delete_agent d authorization agent_id s).1
            ≡ (if agent_id == id then false else valid_runtime_token id secret s))
unfolding handle_delete_agent
delete_revokes d authorization agent_id s {r} h status =
    let w =
      authorized d.at authorization agent_id s (remove_agent d agent_id)
        (λ r' e. ground (arith, e, h, status)) in
    (Authorized-user w, rw w.rest (remove_agent_revokes d agent_id w.user w.agent s))
