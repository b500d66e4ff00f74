-- ===== src/Api/Start/Failed.antt =====
-- internal/api/server.go: a sandbox that does not start.
use shclop.Api.Start.{launch, start_failed, start_request}
use shclop.Api.Agents.{Deps}
use shclop.Api.Server.{record_activity, plain, done, Server}
use shclop.Store.Agents.{
  update_agent_error, update_agent_state, set_error, set_state, agent_with_id,
}
use shclop.Store.Memory.{error_text, err, ok, Err}
use shclop.Domain.{LlmGatewaySettings, Agent, User}
use shclop.Prelude.Lists.{find_first-update_first, find_first-holds, update_first, find_first}
use shclop.Prelude.Dict.{Dict}
use shclop.Prelude.{String, ◌≡◌, some, none, refl}

-- When the sandbox refuses a runtime, and no context of the calls to the store has ended, the answer is
-- 500, and the agent is idle again, with the sandbox's error as its last error.
pub launch_refused :
    (d : Deps) (agent_id : String) (u : User) (settings : LlmGatewaySettings) (env : Dict String)
    (s : Server) {secret : String} {b : Agent} {e : Err}
    → d.random_secret ≡ ok secret
    → (d.at 6).ctx_err ≡ none
    → (d.at 8).ctx_err ≡ none
    → (d.at 9).ctx_err ≡ none
    → find_first (agent_with_id agent_id) s.store.agents ≡ some b
    → d.start (start_request u agent_id (set_state "starting" (d.at 6).now b) secret settings env)
      ≡ err e
    → let (answer, after) = launch d agent_id u (settings, env) s in
      (answer ≡ done (record { status = 500; body = plain "internal server error" }))
      × ((a : Agent) × (find_first (agent_with_id agent_id) after.store.agents ≡ some a)
          × (a.state ≡ "idle")
          × (a.last_error ≡ error_text e))
unfolding launch start_failed record_activity update_agent_state update_agent_error
launch_refused d agent_id u settings env s {secret} {b} {e} drawn live6 live8 live9 there refused =
    let p = agent_with_id agent_id in
    let here = find_first-holds p s.store.agents there in
    let f1 = set_state "starting" (d.at 6).now in
    let f2 = set_state "idle" (d.at 8).now in
    let f3 = set_error (error_text e) (d.at 9).now in
    let xs1 = update_first p f1 s.store.agents in
    let xs2 = update_first p f2 xs1 in
    let there1 = find_first-update_first p f1 s.store.agents {a = b} there here in
    let there2 = find_first-update_first p f2 xs1 {a = f1 b} there1 here in
    let there3 = find_first-update_first p f3 xs2 {a = f2 (f1 b)} there2 here in
    rw (drawn, live6, there, refused, live8, there1, live9, there2)
      (refl, (f3 (f2 (f1 b)), there3, refl, refl))
