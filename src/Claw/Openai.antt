-- ===== src/Claw/Openai.antt =====
-- internal/claw/openai.go: the loop between a model and the shell. The gateway, JSON, and the shell are an
-- `OpenaiLibrary`; what they answer may differ from turn to turn and from call to call, by their numbers.
-- `post` is the request from its encoding to the last byte of the answer.
pub mod Ends
pub mod Answers
use Prim.Native.Char.{code}
use Prim.Native.String.{◌++◌ as append, [] as empty, ◌∷◌ as push}
use shclop.Prelude.{
  ℕ, zero, suc, ◌+◌, String, Bool, true, false, not, ◌&&◌, ◌||◌, Option, none, some, List, [], ◌∷◌,
  ◌++◌, ◌==◌, eqb, ltb, if◌then◌else◌,
}
use shclop.Prelude.Text.{trim_space}
use shclop.Store.Memory.{failure, error_text, Err, Result, ok, err}
use shclop.Claw.{Task, Event, started, delta, finished, failed, refused}
use shclop.Claw.Prompt.{system_prompt}

pub record ToolCall : Type 0 where
  pub id : String
  pub kind : String
  pub name : String
  pub arguments : String

pub record ChatMessage : Type 0 where
  pub role : String
  pub content : String
  pub tool_call_id : String
  pub tool_calls : List ToolCall
  pub name : String

-- An element of `choices`.
pub record Choice : Type 0 where
  pub finish_reason : String
  pub role : String
  pub content : String
  pub tool_calls : List ToolCall

pub record ChatRequest : Type 0 where
  pub url : String
  pub model : String
  pub authorization : Option String
  pub messages : List ChatMessage

pub record HttpAnswer : Type 0 where
  pub status : ℕ
  pub body : String

-- What a command wrote, and how it failed, if it did.
pub record Output : Type 0 where
  pub text : String
  pub exit_error : Option Err

-- Lengths and prefixes are in bytes.
pub record OpenaiLibrary : Type 0 where
  pub post : ℕ → ChatRequest → Result HttpAnswer
  pub parse_choices : String → Result (List Choice)
  pub parse_command : String → Result String
  pub exec : ℕ → ToolCall → String → Output
  pub byte_length : String → ℕ
  pub byte_prefix : ℕ → String → String
  pub show_number : ℕ → String

pub record Environment : Type 0 where
  pub base_url : String
  pub model : String
  pub api_key : String

-- `strings.TrimRight(s, "/")`: 47 is the slash.
unfoldable pub trim_slashes : String → String
trim_slashes empty = empty
trim_slashes (push ch rest) =
    let later = trim_slashes rest in if later == "" && eqb (code ch) 47 then "" else push ch later

abbrev missing_from : String → String → List String → List String
missing_from value name names = if value == "" then name ∷ names else names

unfoldable pub missing_variables : Environment → List String
unfolding trim_slashes
missing_variables env =
    missing_from (trim_slashes env.base_url) "LLM_GATEWAY_BASE_URL"
      (missing_from env.model "LLM_GATEWAY_MODEL" [])

-- `strings.Join(names, ", ")`
unfoldable pub join : List String → String
join [] = ""
join (name ∷ []) = name
join (name ∷ name' ∷ names) = append name (append ", " (join (name' ∷ names)))

abbrev said : String → String → ChatMessage
said role content = record {
  role = role;
  content = content;
  tool_call_id = "";
  tool_calls = [];
  name = "";
}

abbrev pub tool_message : ToolCall → String → String → ChatMessage
tool_message tc name content = record {
  role = "tool";
  content = content;
  tool_call_id = tc.id;
  tool_calls = [];
  name = name;
}

abbrev request_of : Environment → List ChatMessage → ChatRequest
request_of env messages = record {
  url = append (trim_slashes env.base_url) "/chat/completions";
  model = env.model;
  authorization = if env.api_key == "" then none else some (append "Bearer " env.api_key);
  messages = messages;
}

-- `runBash`: the output up to 8192 bytes.
unfoldable pub run_bash : OpenaiLibrary → ℕ → ToolCall → String → Output
run_bash lib turn tc command =
    let output = lib.exec turn tc command in
    if ltb 8192 (lib.byte_length output.text)
    then record output { text = append (lib.byte_prefix 8192 output.text) "\n...(truncated)" }
    else output

abbrev with_exit : Output → String
with_exit output = elim output.exit_error [
  | none ↦ output.text
  | some e ↦ append output.text (append "\nexit error: " (error_text e))
]

abbrev or_no_output : String → String
or_no_output result = if result == "" then "(no output)" else result

abbrev shown : Output → List Event
shown output =
    if output.text == "" then delta "```\n" ∷ [] else delta output.text ∷ delta "```\n" ∷ []

abbrev ran : ToolCall → String → Output → List Event × ChatMessage
ran tc command output = (
  delta (append "\n```bash\n$ " (append command "\n")) ∷ shown output,
  tool_message tc "bash" (or_no_output (with_exit output)),
)

abbrev commanded : OpenaiLibrary → ℕ → ToolCall → Result String → List Event × ChatMessage
commanded lib turn tc (err e) =
    ([], tool_message tc "bash" (append "error: invalid arguments: " (error_text e)))
commanded lib turn tc (ok command) = ran tc command (run_bash lib turn tc command)

-- One turn of the loop over the tool calls: its events, and the message it adds.
unfoldable pub call_tool : OpenaiLibrary → ℕ → ToolCall → List Event × ChatMessage
unfolding run_bash
call_tool lib turn tc =
    if not (tc.name == "bash")
    then ([], tool_message tc tc.name "error: unknown tool")
    else commanded lib turn tc (lib.parse_command tc.arguments)

unfoldable pub call_tools : OpenaiLibrary → ℕ → List ToolCall → List Event × List ChatMessage
unfolding call_tool
call_tools lib turn [] = ([], [])
call_tools lib turn (tc ∷ rest) =
    let (events, message) = call_tool lib turn tc in
    let (later, messages) = call_tools lib turn rest in (events ++ later, message ∷ messages)

-- A turn of the loop ends the run, or it goes on with the conversation so far.
pub data Turn : Type 0 where
  ended : List Event → Turn
  goes_on : List Event → List ChatMessage → Turn

abbrev pub is_no_call : List ToolCall → Bool
is_no_call [] = true
is_no_call (tc ∷ rest) = false

abbrev last_events : String → List Event
last_events content = if content == "" then finished ∷ [] else delta content ∷ finished ∷ []

abbrev pub assistant : Choice → ChatMessage
assistant choice = record {
  role = choice.role;
  content = choice.content;
  tool_call_id = "";
  tool_calls = choice.tool_calls;
  name = "";
}

abbrev called : OpenaiLibrary → ℕ → List ChatMessage → Choice → Turn
called lib turn messages choice =
    let (events, answers) = call_tools lib turn choice.tool_calls in
    goes_on events (messages ++ assistant choice ∷ answers)

abbrev pub chosen : OpenaiLibrary → ℕ → List ChatMessage → Result (List Choice) → Turn
chosen lib turn messages (err e) = ended (failed e ∷ [])
chosen lib turn messages (ok []) = ended (failed (failure "parse response") ∷ [])
chosen lib turn messages (ok (choice ∷ choices)) =
    if not (choice.finish_reason == "tool_calls") || is_no_call choice.tool_calls
    then ended (last_events choice.content)
    else called lib turn messages choice

abbrev status_event : OpenaiLibrary → HttpAnswer → Event
status_event lib answer = refused (
    append "API error: status="
      (append (lib.show_number answer.status) (append " body=" (trim_space answer.body))))

abbrev pub answered : OpenaiLibrary → ℕ → List ChatMessage → Result HttpAnswer → Turn
answered lib turn messages (err e) = ended (failed e ∷ [])
answered lib turn messages (ok answer) =
    if not (eqb answer.status 200)
    then ended (status_event lib answer ∷ [])
    else chosen lib turn messages (lib.parse_choices answer.body)

unfoldable pub take_turn : OpenaiLibrary → Environment → ℕ → List ChatMessage → Turn
unfolding call_tools trim_slashes
take_turn lib env turn messages =
    answered lib turn messages (lib.post turn (request_of env messages))

abbrev pub too_long : Event
too_long = refused "agent reached maximum tool-use iterations"

-- The loop from a turn on, with as many turns as are left.
unfoldable pub turns : OpenaiLibrary → Environment → ℕ → ℕ → List ChatMessage → List Event
unfolding take_turn
turns lib env turn zero messages = too_long ∷ []
turns lib env turn (suc left) messages = elim (take_turn lib env turn messages) [
  | ended events ↦ events
  | goes_on events messages' ↦ events ++ turns lib env (turn + 1) left messages'
]

abbrev max_turns : ℕ
max_turns = 10

abbrev pub opening : Task → List ChatMessage
opening task = said "system" system_prompt ∷ said "user" task.text ∷ []

abbrev pub run_with : OpenaiLibrary → Environment → Task → List String → Result (List Event)
run_with lib env task [] = ok (started ∷ turns lib env 0 max_turns (opening task))
run_with lib env task (name ∷ names) =
    err (failure (append "OpenAIAdapter: required env vars not set: " (join (name ∷ names))))

-- `OpenAIAdapter.Run`
unfoldable pub run : OpenaiLibrary → Environment → Task → Result (List Event)
unfolding turns missing_variables join
run lib env task = run_with lib env task (missing_variables env)
