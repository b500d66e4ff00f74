-- ===== src/Gateway/Steps.antt =====
-- internal/gateway/registry.go: the operations in any order, those that wait for a reader left out.
use shclop.Prelude.{◌≡◌, ℕ, String, some, List, ◌∷◌}
use shclop.Prelude.Lists.{find_first}
use shclop.Gateway.{
  Envelope, WaiterKey, Waiter, RuntimeRegistry, new_runtime_registry, register, unregister,
  open_task, remove_waiter, dispatch, set_waiter, is_key,
}

-- `open_task` is the first half of `SendTask`; `remove` its second half when the write failed, and
-- the caller's `cancel`; with `received` the reader of a waiter takes an event.
-- Reading what is left in a closed channel is no step.
pub data Step : RuntimeRegistry → RuntimeRegistry → Type 0 where
  registered :
      (agent_id : String) (conn : ℕ) {r r' : RuntimeRegistry}
      → register agent_id conn r ≡ some r'
      → Step r r'
  unregistered :
      (agent_id : String) (conn : ℕ) {r r' : RuntimeRegistry}
      → unregister agent_id conn r ≡ some r'
      → Step r r'
  opened :
      (agent_id : String) (task : Envelope) {r : RuntimeRegistry}
      → Step r (open_task agent_id task r).1
  removed : (key : WaiterKey) {r : RuntimeRegistry} → Step r (remove_waiter key r)
  dispatched :
      (agent_id : String) (conn : ℕ) (event : Envelope) {r r' : RuntimeRegistry}
      → dispatch agent_id conn event r ≡ some r'
      → Step r r'
  received :
      (key : WaiterKey) (w : Waiter) (event : Envelope) (events : List Envelope) {k : WaiterKey}
      {r : RuntimeRegistry}
      → find_first (is_key key) r.waiters ≡ some (k, w)
      → w.events ≡ event ∷ events
      → Step r (record r { waiters = set_waiter key (record w { events = events }) r.waiters })

pub data Reachable : RuntimeRegistry → Type 0 where
  start : Reachable new_runtime_registry
  step : {r r' : RuntimeRegistry} → Reachable r → Step r r' → Reachable r'
