-- ===== src/Tests/ClawRuns.antt =====
-- internal/claw/openai.go: a task with one command, and the answer after it.
use shclop.Claw.Openai.Ends.{run-IsEnding, IsEnding}
use shclop.Claw.Openai.Answers.{run-at_gateway, call_tools-Answers, Answers, at_gateway}
use shclop.Claw.Openai.{
  ToolCall, Choice, ChatRequest, HttpAnswer, OpenaiLibrary, Environment, call_tools, run,
}
use shclop.Claw.{Task, Event, started, delta, finished}
use shclop.Store.Memory.{Result, ok, err, failure}
use shclop.Prelude.{◌≡◌, ◌<◌, refl, ℕ, none, List, [], ◌∷◌, ◌==◌, if◌then◌else◌, eqb, ltb, arith}

abbrev list_files : ToolCall
list_files = record { id = "t1"; kind = "function"; name = "bash"; arguments = "ls" }

abbrev asks : Choice
asks = record {
  finish_reason = "tool_calls";
  role = "assistant";
  content = "";
  tool_calls = list_files ∷ [];
}

abbrev says : Choice
says = record { finish_reason = "stop"; role = "assistant"; content = "One file."; tool_calls = [] }

abbrev lib : OpenaiLibrary
lib = record {
  post = λ turn request. ok (record { status = 200; body = if eqb turn 0 then "ask" else "say" });
  parse_choices = λ body. ok ((if body == "ask" then asks else says) ∷ []);
  parse_command = λ arguments. ok arguments;
  exec = λ turn tc command. record { text = "a.txt\n"; exit_error = none };
  byte_length = λ text. 6;
  byte_prefix = λ n text. text;
  show_number = λ n. "200";
}

abbrev env : Environment
env = record { base_url = "http://litellm/"; model = "gpt"; api_key = "" }

abbrev task : Task
task = record { text = "What is here?"; session_id = "s1" }

abbrev sent_events : List Event
sent_events =
    started
    ∷ delta "\n```bash\n$ ls\n"
    ∷ delta "a.txt\n"
    ∷ delta "```\n"
    ∷ delta "One file."
    ∷ finished
    ∷ []

run-IsEnding_example : (rest : List Event) × (sent_events ≡ started ∷ rest) × IsEnding rest
unfolding run
run-IsEnding_example = run-IsEnding lib env task {events = sent_events} refl

-- A gateway that is gone after the first ten requests.
abbrev ten_only : ℕ → ChatRequest → Result HttpAnswer
ten_only turn request = if ltb turn 10 then lib.post turn request else err (failure "gone")

ten_agree : (i : ℕ) (request : ChatRequest) → i < 10 → lib.post i request ≡ ten_only i request
ten_agree i request below = ground (arith, below)

run-at_gateway_example : run (at_gateway ten_only lib) env task ≡ run lib env task
run-at_gateway_example = run-at_gateway lib ten_only env task ten_agree

call_tools-Answers_example : Answers (call_tools lib 0 (list_files ∷ [])).1 (list_files ∷ [])
call_tools-Answers_example = call_tools-Answers lib 0 (list_files ∷ [])
