-- ===== src/Api/Access/Authorized.antt =====
-- internal/api/server.go: what an answer shows about who asked.
use shclop.Prelude.{ℕ, String, ◌≡◌, ◌≢◌, ◌⊎◌, inl, inr, arith}
use shclop.Domain.{User, Agent}
use shclop.Store.Memory.{ok, Call}
use shclop.Store.Agents.{get_agent}
use shclop.Api.Server.{Server, Response, Flow-cases, go, done, Handler, ◌>>=◌}
use shclop.Api.Access.{require_user, own_agent}
use shclop.Api.Access.Current.{
  require_user_go, require_user_status, own_agent_go, own_agent_status, own_agent_sound,
}

-- The beginning of a handler of one agent, and its rest.
abbrev pub with_agent {ℓ} :
    {A : Type ℓ} → (ℕ → Call) → String → String → (User → Agent → Handler A) → Handler A
with_agent at authorization agent_id k = do
  user ← require_user (at 0) authorization
  agent ← own_agent (at 1) user agent_id
  k user agent

-- The user and the agent with which the rest of the handler ran.
pub record Authorized {ℓ} {A : Type ℓ} (at : ℕ → Call) (authorization agent_id : String)
    (s : Server) (k : User → Agent → Handler A) : Type ℓ where
  pub user : User
  pub agent : Agent
  pub who : (require_user (at 0) authorization s).0 ≡ go user
  pub which : (get_agent (at 1) agent_id s.store).0 ≡ ok agent
  pub owner : (agent.owner_user_id ≡ user.id) ⊎ (user.role ≡ "admin")
  pub rest : with_agent at authorization agent_id k s ≡ k user agent s

-- An answer that is none of 401, 404 and 500 was given on behalf of an account that is not disabled, for
-- an agent that it owns or administers, and by the rest of the handler.
pub authorized {ℓ} :
    {A : Type ℓ} (at : ℕ → Call) (authorization agent_id : String) (s : Server)
    (k : User → Agent → Handler A)
    → ((r : Response)
        → (with_agent at authorization agent_id k s).0 ≡ done r
        → (r.status ≢ 401) × (r.status ≢ 404) × (r.status ≢ 500))
    → Authorized at authorization agent_id s k
authorized at authorization agent_id s k allowed =
    elim (Flow-cases (require_user (at 0) authorization s).0) [
      | inr (r, e) ↦
          absurd (ground (arith, allowed r (rw e), require_user_status (at 0) authorization s e))
      | inl (u, e) ↦
          let who = require_user_go (at 0) authorization s e in
          elim (Flow-cases (own_agent (at 1) u agent_id s).0) [
            | inr (r, f) ↦
                absurd
                  (ground (arith, allowed r (rw (who, f)), own_agent_status (at 1) u agent_id s f))
            | inl (a, f) ↦
                let (there, owner) = own_agent_sound (at 1) u agent_id s f in
                record {
                  user = u;
                  agent = a;
                  who = e;
                  which = there;
                  owner = owner;
                  rest = rw (who, own_agent_go (at 1) u agent_id s f);
                }
          ]
    ]

-- A request by an account that is not disabled, for an agent that it owns or administers.
abbrev pub IsAuthorized : (ℕ → Call) → String → String → Server → Type 0
IsAuthorized at authorization agent_id s =
    (user : User) × (agent : Agent) × ((require_user (at 0) authorization s).0 ≡ go user)
    × ((get_agent (at 1) agent_id s.store).0 ≡ ok agent)
    × ((agent.owner_user_id ≡ user.id) ⊎ (user.role ≡ "admin"))

pub Authorized-user {ℓ} :
    {A : Type ℓ} {at : ℕ → Call} {authorization agent_id : String} {s : Server}
    {k : User → Agent → Handler A}
    → Authorized at authorization agent_id s k
    → IsAuthorized at authorization agent_id s
Authorized-user w = (w.user, w.agent, w.who, w.which, w.owner)
