-- ===== src/Api/Relay.antt =====
-- internal/api/server.go: a browser's task on its way to a runtime, and the runtime's side. A message that cannot be
-- read, or an upgrade that fails, is `none`; whether a write to a connection succeeds is an argument.
pub mod Admitted
pub mod Routed
use shclop.Prelude.{
  ℕ, String, Bool, true, false, not, ◌||◌, Option, none, some, List, [], ◌∷◌, ◌==◌, if◌then◌else◌,
}
use shclop.Prelude.Text.{trim_space, strip_prefix}
use shclop.Prelude.Dict.{Dict, lookup}
use shclop.Domain.{User, Agent}
use shclop.Store.Memory.{Call}
use shclop.Store.Settings.{or_empty}
use shclop.Store.Agents.{update_agent_state}
use shclop.Gateway.{
  Envelope, RuntimeRegistry, Sent, not_connected, not_written, sent_to, send_task, register,
  is_last,
}
use shclop.Api.Server.{
  text, plain, go, done, Server, Handler, ◌>>=◌, ◌>>◌, pure, bad_request, unauthorized, when,
  call_store, record_activity, valid_runtime_token,
}
use shclop.Api.Access.{require_user_from_request, own_agent}

-- The payload has its values that are texts.
pub record ChatRequest : Type 0 where
  pub text : String
  pub session_id : String
  pub message_id : String
  pub payload : Dict String

-- What the browser's connection was told before the events of its task.
pub data Chat : Type 0 where
  chat_closed : Chat
  chat_error : String → Chat
  chat_routed : ℕ → Envelope → Chat

abbrev or_else : String → String → String
or_else value default = if value == "" then default else value

abbrev pub text_of : ChatRequest → String
text_of request =
    or_else (trim_space request.text) (trim_space (or_empty (lookup "text" request.payload)))

-- The random ids are arguments.
abbrev pub task_of : String → String → String → ChatRequest → Envelope
task_of session_id message_id agent_id request = record {
  kind = "task.run";
  agent_id = agent_id;
  session_id = or_else request.session_id session_id;
  message_id = or_else request.message_id message_id;
  seq = 0;
  payload = ("text", text_of request) ∷ [];
}

abbrev routed : Call → User → Envelope → Sent → Handler Chat
routed c user task not_connected = pure (chat_error "runtime not connected")
routed c user task not_written = pure chat_closed
routed c user task (sent_to conn written) = do
  record_activity c "task.routed" user.id task.agent_id "browser task routed to runtime"
      (("message_id", text task.message_id) ∷ [])
  pure (chat_routed conn written)

abbrev send : Envelope → (ℕ → Envelope → Bool) → Handler Sent
send task write s =
    let (r, runtime) = send_task task.agent_id task write s.runtime in
    (go r, record s { runtime = runtime })

abbrev pub chat_with :
    Call
    → User
    → String
    → String
    → String
    → (ℕ → Envelope → Bool)
    → Option ChatRequest
    → Handler Chat
chat_with c user agent_id session_id message_id write none = pure chat_closed
chat_with c user agent_id session_id message_id write (some request) =
    if text_of request == "" then pure (chat_error "message text is required") else (do
      r ← send (task_of session_id message_id agent_id request) write
      routed c user (task_of session_id message_id agent_id request) r)

-- `handleWebSocket` up to the events of the task.
unfoldable pub handle_web_socket :
    (ℕ → Call)
    → Option String
    → String
    → String
    → Option ChatRequest
    → String
    → String
    → (ℕ → Envelope → Bool)
    → Handler Chat
unfolding send_task
handle_web_socket at cookie authorization agent_query message session_id message_id write = do
  user ← require_user_from_request (at 0) cookie authorization
  when (trim_space agent_query == "") (bad_request "agent_id is required")
  agent ← own_agent (at 1) user (trim_space agent_query)
  chat_with (at 2) user (trim_space agent_query) session_id message_id write message

-- The fields that an event has for the browser: its type, its text or error, and whether it is the last.
pub record ChatEvent : Type 0 where
  pub kind : String
  pub text : Option String
  pub error : Option String
  pub done : Bool

abbrev set_text : String → Option String
set_text value = if value == "" then none else some value

unfoldable pub chat_event_response : Envelope → ChatEvent
chat_event_response event =
    let value = set_text (or_empty (lookup "text" event.payload)) in
    record {
      kind = event.kind;
      text = if event.kind == "message.error" then none else value;
      error = if event.kind == "message.error" then value else none;
      done = is_last event;
    }

-- What a runtime's connection was told; `hello_waits` is a `Register` that waits for a reader.
pub data Hello : Type 0 where
  hello_closed hello_rejected hello_waits hello_accepted : Hello

abbrev accepted : (ℕ → Call) → String → String → Handler Hello
accepted at agent_id remote_addr = do
  r ← call_store (update_agent_state (at 0) agent_id "running")
  record_activity (at 1) "runtime.connected" "" agent_id "runtime connected"
      (("remote_addr", text remote_addr) ∷ [])
  pure hello_accepted

abbrev entered : (ℕ → Call) → String → String → Option RuntimeRegistry → Handler Hello
entered at agent_id remote_addr none s = (go hello_waits, s)
entered at agent_id remote_addr (some runtime) s =
    accepted at agent_id remote_addr (record s { runtime = runtime })

abbrev pub greeted : (ℕ → Call) → String → ℕ → String → Option Envelope → Handler Hello
greeted at secret conn remote_addr none s = (go hello_closed, s)
greeted at secret conn remote_addr (some hello) s =
    if not (hello.kind == "runtime.hello")
      || trim_space hello.agent_id == ""
      || not (valid_runtime_token hello.agent_id secret s)
    then (go hello_rejected, s)
    else entered at hello.agent_id remote_addr (register hello.agent_id conn s.runtime) s

abbrev pub with_secret : Option String → Handler String
with_secret none = unauthorized
with_secret (some rest) = if trim_space rest == "" then unauthorized else pure (trim_space rest)

-- `handleRuntimeWebSocket` up to the events of the runtime, each of which is dispatched.
unfoldable pub handle_runtime_web_socket :
    (ℕ → Call) → String → ℕ → String → Option Envelope → Handler Hello
handle_runtime_web_socket at authorization conn remote_addr hello = do
  secret ← with_secret (strip_prefix "Bearer " authorization)
  greeted at secret conn remote_addr hello
