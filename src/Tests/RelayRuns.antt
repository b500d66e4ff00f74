-- ===== src/Tests/RelayRuns.antt =====
-- internal/api/server.go: a task of a browser, and the runtime that takes it.
use shclop.Tests.Data.{call, server}
use shclop.Api.Relay.Routed.{handle_web_socket_sound, IsRouted}
use shclop.Api.Relay.Admitted.{handle_runtime_web_socket_sound}
use shclop.Api.Relay.{ChatRequest, handle_web_socket, handle_runtime_web_socket}
use shclop.Api.Access.{require_user_from_request}
use shclop.Api.Server.{Server, go}
use shclop.Store.Agents.{get_agent}
use shclop.Store.Memory.{Call, ok}
use shclop.Gateway.{Envelope}
use shclop.Domain.{User, Agent}
use shclop.Prelude.Text.{trim_space, strip_prefix}
use shclop.Prelude.Dict.{lookup}
use shclop.Prelude.Lists.{find_first}
use shclop.Prelude.{◌≡◌, ◌⊎◌, refl, ℕ, String, Bool, true, some, [], ◌∷◌}

abbrev at : ℕ → Call
at i = call "x" 50

abbrev message : ChatRequest
message = record { text = " hello "; session_id = ""; message_id = "m1"; payload = [] }

abbrev write : ℕ → Envelope → Bool
write conn task = true

abbrev task : Envelope
task = record {
  kind = "task.run";
  agent_id = "a1";
  session_id = "s1";
  message_id = "m1";
  seq = 0;
  payload = ("text", "hello") ∷ [];
}

handle_web_socket_sound_example :
    (user : User) × (agent : Agent) × ((require_user_from_request (at 0) (some "ta") "" server).0
      ≡ go user)
    × ((get_agent (at 1) "a1" server.store).0 ≡ ok agent)
    × ((agent.owner_user_id ≡ user.id) ⊎ (user.role ≡ "admin"))
    × IsRouted write "a1" 7 server.runtime
        (handle_web_socket at (some "ta") "" "a1" (some message) "s1" "m2" write server).1.runtime
        task
unfolding handle_web_socket require_user_from_request trim_space shclop.Auth.resolve lookup
    shclop.Store.Users.get_user find_first shclop.Api.Access.own_agent get_agent
    shclop.Api.Server.record_activity
handle_web_socket_sound_example =
    handle_web_socket_sound at (some "ta") "" "a1" (some message) "s1" "m2" write server {conn = 7}
      {task = task} refl

abbrev hello : Envelope
hello = record {
  kind = "runtime.hello";
  agent_id = "a1";
  session_id = "";
  message_id = "";
  seq = 0;
  payload = [];
}

handle_runtime_web_socket_sound_example :
    (greeting : Envelope) × (rest : String) × (some hello ≡ some greeting)
    × (strip_prefix "Bearer " "Bearer secret" ≡ some rest)
    × (lookup greeting.agent_id server.tokens ≡ some (trim_space rest))
    × ¬ (trim_space rest ≡ "")
    × (lookup greeting.agent_id
          (handle_runtime_web_socket at "Bearer secret" 9 "10.0.0.7"
            (some hello)
            server).1.runtime.runtimes
        ≡ some 9)
unfolding handle_runtime_web_socket strip_prefix trim_space shclop.Api.Server.valid_runtime_token
    lookup shclop.Gateway.register shclop.Gateway.failed_waiters shclop.Api.Server.record_activity
handle_runtime_web_socket_sound_example =
    handle_runtime_web_socket_sound at "Bearer secret" 9 "10.0.0.7" (some hello) server refl
