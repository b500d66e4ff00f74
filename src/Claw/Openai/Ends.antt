-- ===== src/Claw/Openai/Ends.antt =====
-- internal/claw/openai.go: how a run ends, and how many requests it makes.
use shclop.Prelude.{
  ◌≡◌, ◌⊎◌, inl, inr, refl, ap, ℕ, zero, suc, ◌+◌, String, not, ◌||◌, List, [], ◌∷◌, ◌++◌, ◌==◌,
  eqb, arith, Bool-cases,
}
use shclop.Prelude.All.{All, All-append}
use shclop.Store.Memory.{Result, ok, err, Result-cases}
use shclop.Claw.{Task, Event, event_delta, event_done, event_error, started, delta}
use shclop.Claw.Openai.{
  opening, run_with, answered, chosen, ToolCall, ChatMessage, Choice, HttpAnswer, OpenaiLibrary,
  Environment, run_bash, call_tool, call_tools, Turn, ended, goes_on, take_turn, turns, run,
  missing_variables, is_no_call,
}

abbrev pub IsDelta : Event → Type 0
IsDelta e = e.kind ≡ event_delta

abbrev pub IsLast : Event → Type 0
IsLast e = (e.kind ≡ event_done) ⊎ (e.kind ≡ event_error)

-- Deltas, and then one event that ends the run.
abbrev pub IsEnding : List Event → Type 0
IsEnding events =
    (middle : List Event) × (last : Event) × (events ≡ middle ++ last ∷ [])
    × All IsDelta middle
    × IsLast last

abbrev IsTurn : Turn → Type 0
IsTurn (ended events) = IsEnding events
IsTurn (goes_on events messages) = All IsDelta events

call_tool-IsDelta :
    (lib : OpenaiLibrary) (turn : ℕ) (tc : ToolCall) → All IsDelta (call_tool lib turn tc).0
unfolding call_tool
call_tool-IsDelta lib turn tc = elim (Bool-cases (tc.name == "bash")) [
  | inr other ↦ rw other tt
  | inl bash ↦ elim (Result-cases (lib.parse_command tc.arguments)) [
    | inr (e, failed) ↦ rw (bash, failed) tt
    | inl (command, parsed) ↦ elim (Bool-cases ((run_bash lib turn tc command).text == "")) [
      | inl nothing ↦ rw (bash, parsed, nothing) (refl, (refl, tt))
      | inr something ↦ rw (bash, parsed, something) (refl, (refl, (refl, tt)))
    ]
  ]
]

call_tools-IsDelta :
    (lib : OpenaiLibrary) (turn : ℕ) (tcs : List ToolCall) → All IsDelta (call_tools lib turn tcs).0
unfolding call_tools
call_tools-IsDelta lib turn [] = tt
call_tools-IsDelta lib turn (tc ∷ tcs) =
    All-append IsDelta (call_tool lib turn tc).0 (call_tools lib turn tcs).0
      (call_tool-IsDelta lib turn tc) (call_tools-IsDelta lib turn tcs)

chosen-IsTurn :
    (lib : OpenaiLibrary) (turn : ℕ) (messages : List ChatMessage) (choices : Result (List Choice))
    → IsTurn (chosen lib turn messages choices)
chosen-IsTurn lib turn messages (err e) = ([], _, refl, tt, inr refl)
chosen-IsTurn lib turn messages (ok []) = ([], _, refl, tt, inr refl)
chosen-IsTurn lib turn messages (ok (choice ∷ choices)) =
    elim (Bool-cases (not (choice.finish_reason == "tool_calls") || is_no_call choice.tool_calls)) [
      | inr calls ↦ rw calls (call_tools-IsDelta lib turn choice.tool_calls)
      | inl over ↦ elim (Bool-cases (choice.content == "")) [
        | inl nothing ↦ rw (over, nothing) ([], _, refl, tt, inl refl)
        | inr something ↦
            rw (over, something) (delta choice.content ∷ [], _, refl, (refl, tt), inl refl)
      ]
    ]

answered-IsTurn :
    (lib : OpenaiLibrary) (turn : ℕ) (messages : List ChatMessage) (answer : Result HttpAnswer)
    → IsTurn (answered lib turn messages answer)
answered-IsTurn lib turn messages (err e) = ([], _, refl, tt, inr refl)
answered-IsTurn lib turn messages (ok answer) = elim (Bool-cases (eqb answer.status 200)) [
  | inr other ↦ rw other ([], _, refl, tt, inr refl)
  | inl good ↦ rw good (chosen-IsTurn lib turn messages (lib.parse_choices answer.body))
]

take_turn-IsTurn :
    (lib : OpenaiLibrary) (env : Environment) (turn : ℕ) (messages : List ChatMessage)
    → IsTurn (take_turn lib env turn messages)
unfolding take_turn
take_turn-IsTurn lib env turn messages = answered-IsTurn lib turn messages (lib.post turn _)

append-IsEnding : (xs ys : List Event) → All IsDelta xs → IsEnding ys → IsEnding (xs ++ ys)
append-IsEnding [] ys h e = e
append-IsEnding (x ∷ xs) ys h e =
    let (middle, last, same, deltas, ends) = append-IsEnding xs ys h.1 e in
    (x ∷ middle, last, ap (λ zs. x ∷ zs) same, (h.0, deltas), ends)

turns-IsEnding :
    (lib : OpenaiLibrary) (env : Environment) (turn left : ℕ) (messages : List ChatMessage)
    → IsEnding (turns lib env turn left messages)
unfolding turns
turns-IsEnding lib env turn zero messages = ([], _, refl, tt, inr refl)
turns-IsEnding lib env turn (suc left) messages =
    elim (take_turn lib env turn messages)
        as (λ t.
          IsTurn t
          → IsEnding (elim t [
            | ended events ↦ events
            | goes_on events messages' ↦ events ++ turns lib env (turn + 1) left messages'
          ])) [
            | ended events ↦ λ h. h
            | goes_on events messages' ↦ λ h.
                append-IsEnding events (turns lib env (turn + 1) left messages') h
                  (turns-IsEnding lib env (turn + 1) left messages')
          ]
      (take_turn-IsTurn lib env turn messages)

run_with-IsEnding :
    (lib : OpenaiLibrary) (env : Environment) (task : Task) (missing : List String)
    {events : List Event}
    → run_with lib env task missing ≡ ok events
    → (rest : List Event) × (events ≡ started ∷ rest) × IsEnding rest
run_with-IsEnding lib env task [] {events} h = (
  turns lib env 0 10 (opening task),
  ground (arith, h),
  turns-IsEnding lib env 0 10 (opening task),
)
run_with-IsEnding lib env task (name ∷ names) h = absurd (ground (arith, h))

-- A run that starts comes to its end, whatever the gateway and the shell answer: it sends the event that it started,
-- then deltas, and then exactly one event that it is done or failed, as its last.
pub run-IsEnding :
    (lib : OpenaiLibrary) (env : Environment) (task : Task) {events : List Event}
    → run lib env task ≡ ok events
    → (rest : List Event) × (events ≡ started ∷ rest) × IsEnding rest
unfolding run
run-IsEnding lib env task {events} h = run_with-IsEnding lib env task (missing_variables env) h
