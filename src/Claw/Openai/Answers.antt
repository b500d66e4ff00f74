-- ===== src/Claw/Openai/Answers.antt =====
-- internal/claw/openai.go: how many requests a run makes, and what its tool calls are answered.
use shclop.Prelude.{
  ◌≡◌, inl, inr, refl, sym, ap, ◌∙◌, ℕ, zero, suc, ◌+◌, ◌<◌, String, List, [], ◌∷◌, ◌++◌, arith,
}
use shclop.Store.Memory.{Result, ok, err, Result-cases}
use shclop.Claw.{started, Task, Event}
use shclop.Claw.Openai.{
  opening, Choice, chosen, answered, ToolCall, ChatMessage, ChatRequest, HttpAnswer, OpenaiLibrary,
  Environment, run_bash, call_tool, call_tools, Turn, ended, goes_on, take_turn, turns, run,
  run_with, missing_variables,
}

-- The message that answers a call.
abbrev pub Answers : List ChatMessage → List ToolCall → Type 0
Answers [] [] = Unit
Answers (m ∷ ms) (tc ∷ tcs) = (m.role ≡ "tool") × (m.tool_call_id ≡ tc.id) × Answers ms tcs
Answers _ _ = ⊥

call_tool-role :
    (lib : OpenaiLibrary) (turn : ℕ) (tc : ToolCall) → (call_tool lib turn tc).1.role ≡ "tool"
unfolding call_tool
call_tool-role lib turn tc = elim (Result-cases (lib.parse_command tc.arguments)) [
  | inr (e, failed) ↦ ground (arith, failed)
  | inl (command, parsed) ↦ ground (arith, parsed)
]

call_tool-id :
    (lib : OpenaiLibrary) (turn : ℕ) (tc : ToolCall)
    → (call_tool lib turn tc).1.tool_call_id ≡ tc.id
unfolding call_tool
call_tool-id lib turn tc = elim (Result-cases (lib.parse_command tc.arguments)) [
  | inr (e, failed) ↦ ground (arith, failed)
  | inl (command, parsed) ↦ ground (arith, parsed)
]

-- Every tool call of the model is answered, in the order of the calls, by exactly one message of the role "tool"
-- with the id of the call, whatever became of the call.
pub call_tools-Answers :
    (lib : OpenaiLibrary) (turn : ℕ) (tcs : List ToolCall) → Answers (call_tools lib turn tcs).1 tcs
unfolding call_tools
call_tools-Answers lib turn [] = tt
call_tools-Answers lib turn (tc ∷ tcs) =
    (call_tool-role lib turn tc, call_tool-id lib turn tc, call_tools-Answers lib turn tcs)

-- The same library at a gateway that answers otherwise.
abbrev pub at_gateway : (ℕ → ChatRequest → Result HttpAnswer) → OpenaiLibrary → OpenaiLibrary
at_gateway post lib = record lib { post = post }

call_tools-at_gateway :
    (lib : OpenaiLibrary) (post : ℕ → ChatRequest → Result HttpAnswer) (turn : ℕ)
    (tcs : List ToolCall)
    → call_tools (at_gateway post lib) turn tcs ≡ call_tools lib turn tcs
unfolding call_tools call_tool run_bash
call_tools-at_gateway lib post turn [] = refl
call_tools-at_gateway lib post turn (tc ∷ tcs) =
    ap (λ later. ((call_tool lib turn tc).0 ++ later.0, (call_tool lib turn tc).1 ∷ later.1))
      (call_tools-at_gateway lib post turn tcs)

chosen-at_gateway :
    (lib : OpenaiLibrary) (post : ℕ → ChatRequest → Result HttpAnswer) (turn : ℕ)
    (messages : List ChatMessage) (choices : Result (List Choice))
    → chosen (at_gateway post lib) turn messages choices ≡ chosen lib turn messages choices
chosen-at_gateway lib post turn messages (err e) = refl
chosen-at_gateway lib post turn messages (ok []) = refl
chosen-at_gateway lib post turn messages (ok (choice ∷ choices)) =
    rw (call_tools-at_gateway lib post turn choice.tool_calls) refl

answered-at_gateway :
    (lib : OpenaiLibrary) (post : ℕ → ChatRequest → Result HttpAnswer) (turn : ℕ)
    (messages : List ChatMessage) (answer : Result HttpAnswer)
    → answered (at_gateway post lib) turn messages answer ≡ answered lib turn messages answer
answered-at_gateway lib post turn messages (err e) = refl
answered-at_gateway lib post turn messages (ok answer) =
    rw (chosen-at_gateway lib post turn messages (lib.parse_choices answer.body)) refl

take_turn-at_gateway :
    (lib : OpenaiLibrary) (post : ℕ → ChatRequest → Result HttpAnswer) (env : Environment)
    (turn : ℕ) (messages : List ChatMessage)
    → ((request : ChatRequest) → lib.post turn request ≡ post turn request)
    → take_turn (at_gateway post lib) env turn messages ≡ take_turn lib env turn messages
unfolding take_turn
take_turn-at_gateway lib post env turn messages same =
    answered-at_gateway lib post turn messages (post turn _)
    ∙ ap (answered lib turn messages) (sym (same _))

abbrev after : OpenaiLibrary → Environment → ℕ → ℕ → Turn → List Event
after lib env turn left (ended events) = events
after lib env turn left (goes_on events messages) = events ++ turns lib env (turn + 1) left messages

after_same :
    (lib lib' : OpenaiLibrary) (env : Environment) (turn left : ℕ) (t : Turn)
    → ((messages : List ChatMessage)
        → turns lib' env (turn + 1) left messages ≡ turns lib env (turn + 1) left messages)
    → after lib' env turn left t ≡ after lib env turn left t
after_same lib lib' env turn left (ended events) same = refl
after_same lib lib' env turn left (goes_on events messages) same =
    ap (λ later. events ++ later) (same messages)

turns-at_gateway :
    (lib : OpenaiLibrary) (post : ℕ → ChatRequest → Result HttpAnswer) (env : Environment)
    (turn left : ℕ) (messages : List ChatMessage)
    → ((i : ℕ) (request : ChatRequest) → i < turn + left → lib.post i request ≡ post i request)
    → turns (at_gateway post lib) env turn left messages ≡ turns lib env turn left messages
unfolding turns
turns-at_gateway lib post env turn zero messages same = refl
turns-at_gateway lib post env turn (suc left) messages same =
    ap (after (at_gateway post lib) env turn left)
      (take_turn-at_gateway lib post env turn messages (λ request. same turn request (omega arith)))
    ∙ after_same lib (at_gateway post lib) env turn left (take_turn lib env turn messages)
        (λ messages'.
          turns-at_gateway lib post env (turn + 1) left messages'
            (λ i request below. same i request (omega arith)))

run_with-at_gateway :
    (lib : OpenaiLibrary) (post : ℕ → ChatRequest → Result HttpAnswer) (env : Environment)
    (task : Task) (missing : List String)
    → ((i : ℕ) (request : ChatRequest) → i < 10 → lib.post i request ≡ post i request)
    → run_with (at_gateway post lib) env task missing ≡ run_with lib env task missing
run_with-at_gateway lib post env task [] same =
    ap (λ events. ok (started ∷ events))
      (turns-at_gateway lib post env 0 10 (opening task)
        (λ i request below. same i request (omega arith)))
run_with-at_gateway lib post env task (name ∷ names) same = refl

-- A run makes at most ten requests, whatever is answered: two gateways that agree on the first ten requests give
-- the same run.
pub run-at_gateway :
    (lib : OpenaiLibrary) (post : ℕ → ChatRequest → Result HttpAnswer) (env : Environment)
    (task : Task)
    → ((i : ℕ) (request : ChatRequest) → i < 10 → lib.post i request ≡ post i request)
    → run (at_gateway post lib) env task ≡ run lib env task
unfolding run
run-at_gateway lib post env task same =
    run_with-at_gateway lib post env task (missing_variables env) same
