-- ===== src/Claw.antt =====
-- internal/claw/adapter.go: a task, and the events of its run. A run is the list of the events that it sends, in their
-- order, to a reader that takes them all.
pub mod Openai
pub mod Prompt
use Prim.Native.String.{◌++◌ as append}
use shclop.Prelude.{ℕ, String, Option, none, some, List, [], ◌∷◌, ◌==◌, if◌then◌else◌}
use shclop.Store.Memory.{Err}

pub record Task : Type 0 where
  pub text : String
  pub session_id : String

pub data EventType : Type 0 where
  event_started event_delta event_done event_error : EventType

pub record Event : Type 0 where
  pub kind : EventType
  pub text : String
  pub err : Option Err
  pub exit_code : ℕ

abbrev pub started : Event
started = record { kind = event_started; text = ""; err = none; exit_code = 0 }

abbrev pub delta : String → Event
delta text = record { kind = event_delta; text = text; err = none; exit_code = 0 }

abbrev pub finished : Event
finished = record { kind = event_done; text = ""; err = none; exit_code = 0 }

abbrev pub failed : Err → Event
failed e = record { kind = event_error; text = ""; err = some e; exit_code = 0 }

abbrev pub refused : String → Event
refused text = record { kind = event_error; text = text; err = none; exit_code = 0 }

abbrev flavor_of : String → String
flavor_of flavor = if flavor == "" then "nanoclaw" else flavor

-- `DemoAdapter.Run`
unfoldable pub run_demo : String → Task → List Event
run_demo flavor task =
    started
    ∷ delta (append (flavor_of flavor) (append " runtime received: " (append task.text "\n")))
    ∷ delta "workspace=/workspace memory=/memory\n"
    ∷ finished
    ∷ []
