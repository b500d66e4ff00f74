-- ===== src/Gateway.antt =====
-- internal/gateway: the connections of the agents' runtimes, and the waiters for the events of a task. A
-- connection is a number, and the channel of a waiter is the list of the events in it. A waiter that
-- has left the registry is kept under `closed`, where its reader still has it. An operation that waits for a
-- reader is `none`: it holds the registry's lock meanwhile. The look at the registry and the delivery of
-- `Dispatch` are one operation here.
pub mod Steps
pub mod Owned
pub mod Reached
pub mod Failed
use shclop.Prelude.{
  ℕ, String, Bool, true, false, not, ◌&&◌, ◌||◌, Option, none, some, List, [], ◌∷◌, ◌++◌, ◌==◌, ltb,
  eqb, if◌then◌else◌,
}
use shclop.Prelude.Lists.{length, find_first, select}
use shclop.Prelude.Dict.{Dict, lookup, insert, remove}

-- The values of a payload are their JSON texts.
pub record Envelope : Type 0 where
  pub kind : String
  pub agent_id : String
  pub session_id : String
  pub message_id : String
  pub seq : ℕ
  pub payload : Dict String

pub record WaiterKey : Type 0 where
  pub agent_id : String
  pub message_id : String

-- `done` is closed.
pub record Waiter : Type 0 where
  pub events : List Envelope
  pub cancelled : Bool

abbrev pub Waiters : Type 0
Waiters = List (WaiterKey × Waiter)

pub record RuntimeRegistry : Type 0 where
  pub runtimes : Dict ℕ
  pub waiters : Waiters
  pub closed : Waiters

abbrev pub new_waiter : Waiter
new_waiter = record { events = []; cancelled = false }

abbrev pub cancel : Waiter → Waiter
cancel w = record w { cancelled = true }

abbrev pub with_event : Envelope → Waiter → Waiter
with_event event w = record w { events = w.events ++ event ∷ [] }

-- The channel holds 16 events.
abbrev pub has_room : Waiter → Bool
has_room w = ltb (length w.events) 16

-- Go picks at random where a waiter is cancelled and has room; here it counts as cancelled.
unfoldable pub deliver : Envelope → Waiter → Option (Bool × Waiter)
deliver event w =
    if w.cancelled
    then some (false, w)
    else if has_room w
    then some (true, with_event event w)
    else none

unfoldable pub fail : Envelope → Waiter → Option Waiter
fail event w =
    if w.cancelled then some w else if has_room w then some (cancel (with_event event w)) else none

unfoldable pub new_runtime_registry : RuntimeRegistry
new_runtime_registry = record { runtimes = []; waiters = []; closed = [] }

abbrev pub disconnect_event : String → WaiterKey → Envelope
disconnect_event reason key = record {
  kind = "message.error";
  agent_id = key.agent_id;
  session_id = "";
  message_id = key.message_id;
  seq = 0;
  payload = ("text", reason) ∷ [];
}

abbrev pub waits_for : String → WaiterKey × Waiter → Bool
waits_for agent_id e = e.0.agent_id == agent_id

abbrev with_failed : WaiterKey → Option Waiter → Waiters × Waiters → Option (Waiters × Waiters)
with_failed key none rest = none
with_failed key (some w) rest = some (rest.0, (key, w) ∷ rest.1)

abbrev failed_one :
    String → String → WaiterKey × Waiter → Option (Waiters × Waiters) → Option (Waiters × Waiters)
failed_one agent_id reason e none = none
failed_one agent_id reason e (some rest) =
    if waits_for agent_id e
    then with_failed e.0 (fail (disconnect_event reason e.0) e.1) rest
    else some (e ∷ rest.0, rest.1)

-- The loop of `failWaitersLocked`: the waiters that stay, and those that failed.
unfoldable pub failed_waiters : String → String → Waiters → Option (Waiters × Waiters)
unfolding fail
failed_waiters agent_id reason [] = some ([], [])
failed_waiters agent_id reason (e ∷ rest) =
    failed_one agent_id reason e (failed_waiters agent_id reason rest)

abbrev left_by : RuntimeRegistry → Option (Waiters × Waiters) → Option RuntimeRegistry
left_by r none = none
left_by r (some (kept, failed)) = some (record r { waiters = kept; closed = r.closed ++ failed })

unfoldable pub fail_waiters : String → String → RuntimeRegistry → Option RuntimeRegistry
fail_waiters agent_id reason r = left_by r (failed_waiters agent_id reason r.waiters)

abbrev pub is_conn : ℕ → Option ℕ → Bool
is_conn conn none = false
is_conn conn (some current) = eqb current conn

abbrev pub is_other : ℕ → Option ℕ → Bool
is_other conn none = false
is_other conn (some previous) = not (eqb previous conn)

-- The previous connection is closed.
unfoldable pub register : String → ℕ → RuntimeRegistry → Option RuntimeRegistry
unfolding fail_waiters
register agent_id conn r =
    let r' = record r { runtimes = insert agent_id conn r.runtimes } in
    if is_other conn (lookup agent_id r.runtimes)
    then fail_waiters agent_id "runtime connection replaced" r'
    else some r'

unfoldable pub unregister : String → ℕ → RuntimeRegistry → Option RuntimeRegistry
unfolding fail_waiters
unregister agent_id conn r =
    if is_conn conn (lookup agent_id r.runtimes)
    then fail_waiters agent_id "runtime disconnected"
        (record r { runtimes = remove agent_id r.runtimes })
    else some r

abbrev pub is_key : WaiterKey → WaiterKey × Waiter → Bool
is_key key e = e.0.agent_id == key.agent_id && e.0.message_id == key.message_id

abbrev pub is_other_key : WaiterKey → WaiterKey × Waiter → Bool
is_other_key key e = not (is_key key e)

abbrev closed_with : Option (WaiterKey × Waiter) → Waiters → Waiters
closed_with none closed = closed
closed_with (some e) closed = closed ++ (e.0, cancel e.1) ∷ []

unfoldable pub remove_waiter : WaiterKey → RuntimeRegistry → RuntimeRegistry
remove_waiter key r = record r {
  waiters = select (is_other_key key) r.waiters;
  closed = closed_with (find_first (is_key key) r.waiters) r.closed;
}

-- A waiter that the new one replaces is left to its reader as it is.
abbrev replaced : Option (WaiterKey × Waiter) → Waiters → Waiters
replaced none closed = closed
replaced (some e) closed = closed ++ e ∷ []

abbrev pub task_key : String → Envelope → WaiterKey
task_key agent_id task = record { agent_id = agent_id; message_id = task.message_id }

abbrev waiting_for : WaiterKey → Option ℕ → RuntimeRegistry → Option ℕ × RuntimeRegistry
waiting_for key none r = (none, r)
waiting_for key (some conn) r = (
  some conn,
  record r {
    waiters = (key, new_waiter) ∷ select (is_other_key key) r.waiters;
    closed = replaced (find_first (is_key key) r.waiters) r.closed;
  },
)

-- `SendTask` up to the write: the connection to write to, or `ErrRuntimeNotConnected`.
unfoldable pub open_task : String → Envelope → RuntimeRegistry → Option ℕ × RuntimeRegistry
open_task agent_id task r = waiting_for (task_key agent_id task) (lookup agent_id r.runtimes) r

pub data Sent : Type 0 where
  not_connected not_written : Sent
  sent_to : ℕ → Envelope → Sent

abbrev sent :
    WaiterKey
    → Envelope
    → (ℕ → Envelope → Bool)
    → Option ℕ × RuntimeRegistry
    → Sent × RuntimeRegistry
sent key task write (none, r) = (not_connected, r)
sent key task write (some conn, r) =
    if write conn task then (sent_to conn task, r) else (not_written, remove_waiter key r)

-- The whole of `SendTask`; `write` says whether a write of the task to a connection succeeds. What is kept
-- of a write is the connection and what was written to it.
unfoldable pub send_task :
    String → Envelope → (ℕ → Envelope → Bool) → RuntimeRegistry → Sent × RuntimeRegistry
unfolding open_task remove_waiter
send_task agent_id task write r =
    sent (task_key agent_id task) task write (open_task agent_id task r)

abbrev pub is_last : Envelope → Bool
is_last event = event.kind == "message.done" || event.kind == "message.error"

unfoldable pub set_waiter : WaiterKey → Waiter → Waiters → Waiters
set_waiter key w [] = []
set_waiter key w (e ∷ rest) = if is_key key e then (e.0, w) ∷ rest else e ∷ set_waiter key w rest

abbrev delivered :
    WaiterKey → Envelope → Option (Bool × Waiter) → RuntimeRegistry → Option RuntimeRegistry
delivered key event none r = none
delivered key event (some (false, w)) r = some r
delivered key event (some (true, w)) r =
    let r' = record r { waiters = set_waiter key w r.waiters } in
    if is_last event then some (remove_waiter key r') else some r'

abbrev pub event_key : Envelope → WaiterKey
event_key event = record { agent_id = event.agent_id; message_id = event.message_id }

abbrev dispatched :
    WaiterKey → Envelope → Option (WaiterKey × Waiter) → RuntimeRegistry → Option RuntimeRegistry
dispatched key event none r = some r
dispatched key event (some e) r = delivered key event (deliver event e.1) r

unfoldable pub dispatch : String → ℕ → Envelope → RuntimeRegistry → Option RuntimeRegistry
unfolding deliver set_waiter remove_waiter
dispatch agent_id conn event r =
    if event.agent_id == agent_id && is_conn conn (lookup agent_id r.runtimes)
    then dispatched (event_key event) event (find_first (is_key (event_key event)) r.waiters) r
    else some r
