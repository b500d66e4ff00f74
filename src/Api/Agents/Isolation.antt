-- ===== src/Api/Agents/Isolation.antt =====
-- internal/api/server.go: requests for an agent of somebody else.
use shclop.Prelude.{String, ◌≡◌, ◌≢◌, ◌⊎◌, arith, eq_iff, inl, inr}
use shclop.Domain.{User, Agent}
use shclop.Store.Memory.{not_found, ok, err, Call}
use shclop.Store.Agents.{get_agent}
use shclop.Api.Server.{Server, Response, go, done, plain}
use shclop.Api.Access.{require_user, own_agent}
use shclop.Api.Access.Current.{require_user_go}
use shclop.Api.Agents.{Deps, handle_get_agent, handle_stop_agent, handle_delete_agent}

abbrev pub Missing : Response
Missing = record { status = 404; body = plain "404 page not found" }

-- To this user there is no such agent: either the store has none, or it belongs to another user and
-- the user is no administrator.
abbrev pub Hidden : Call → User → String → Server → Type 0
Hidden c u agent_id s =
    ((get_agent c agent_id s.store).0 ≡ err not_found)
    ⊎ ((a : Agent) × ((get_agent c agent_id s.store).0 ≡ ok a)
        × (a.owner_user_id ≢ u.id)
        × (u.role ≢ "admin"))

pub own_agent-Hidden :
    (c : Call) (u : User) (agent_id : String) (s : Server)
    → Hidden c u agent_id s
    → own_agent c u agent_id s ≡ (done Missing, s)
unfolding own_agent get_agent
own_agent-Hidden c u agent_id s (inl e) = ground arith
own_agent-Hidden c u agent_id s (inr (a, e, owner, role)) =
    ground (arith, eq_iff a.owner_user_id u.id, eq_iff u.role "admin")

module _ (d : Deps) (authorization agent_id : String) (s : Server) {u : User} where
  -- A user who is neither the owner of an agent nor an administrator gets, from reading, stopping and
  -- deleting it, the same answer as for an agent that does not exist, and nothing has changed.
  pub foreign_agent-Hidden :
      (require_user (d.at 0) authorization s).0 ≡ go u
      → Hidden (d.at 1) u agent_id s
      → (handle_get_agent d.at authorization agent_id s ≡ (done Missing, s))
        × (handle_stop_agent d authorization agent_id s ≡ (done Missing, s))
        × (handle_delete_agent d authorization agent_id s ≡ (done Missing, s))
  unfolding handle_get_agent handle_stop_agent handle_delete_agent
  foreign_agent-Hidden h hidden =
      let who = require_user_go (d.at 0) authorization s h in
      let which = own_agent-Hidden (d.at 1) u agent_id s hidden in
      (rw (who, which), rw (who, which), rw (who, which))
