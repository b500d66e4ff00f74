-- ===== src/Gateway/Reached.antt =====
-- internal/gateway/registry.go: what holds of the registry after any operations.
use shclop.Prelude.{
  ◌≡◌, refl, subst, sym, inl, inr, ℕ, ◌≤◌, String, true, ◌&&◌, some, ◌==◌, arith, Option-cases,
  Bool-cases,
}
use shclop.Prelude.Lists.{length, find_first, find_first-holds}
use shclop.Prelude.Dict.{lookup, insert, remove}
use shclop.Gateway.{
  Envelope, WaiterKey, Waiter, RuntimeRegistry, new_runtime_registry, register, unregister,
  remove_waiter, dispatch, set_waiter, is_key, deliver, has_room, with_event, is_conn, is_other,
  is_last, event_key,
}
use shclop.Gateway.Steps.{
  Step, registered, unregistered, opened, removed, dispatched, received, Reachable, start, step,
}
use shclop.Prelude.All.{All, All-found}
use shclop.Gateway.Owned.{
  IsOf, IsWaiting, IsOwned, All-set_waiter, with_event-IsOwn, same_key, fail_waiters-IsOwned,
  remove_waiter-IsOwned, open_task-IsOwned,
}

register-IsOwned :
    (agent_id : String) (conn : ℕ) (r : RuntimeRegistry) {r' : RuntimeRegistry}
    → IsOwned r
    → register agent_id conn r ≡ some r'
    → IsOwned r'
unfolding register
register-IsOwned agent_id conn r {r'} h done =
    elim (Bool-cases (is_other conn (lookup agent_id r.runtimes))) [
      | inl other ↦
          fail_waiters-IsOwned agent_id "runtime connection replaced"
            (record r { runtimes = insert agent_id conn r.runtimes }) {r' = r'} h
            (ground (arith, other, done))
      | inr same ↦
          subst IsOwned {x = record r { runtimes = insert agent_id conn r.runtimes }} {y = r'}
            (ground (arith, same, done)) h
    ]

unregister-IsOwned :
    (agent_id : String) (conn : ℕ) (r : RuntimeRegistry) {r' : RuntimeRegistry}
    → IsOwned r
    → unregister agent_id conn r ≡ some r'
    → IsOwned r'
unfolding unregister
unregister-IsOwned agent_id conn r {r'} h done =
    elim (Bool-cases (is_conn conn (lookup agent_id r.runtimes))) [
      | inl current ↦
          fail_waiters-IsOwned agent_id "runtime disconnected"
            (record r { runtimes = remove agent_id r.runtimes }) {r' = r'} h
            (ground (arith, current, done))
      | inr old ↦ subst IsOwned {x = r} {y = r'} (ground (arith, old, done)) h
    ]

-- A waiter of the registry in which the waiter for a key is another.
set_waiter-IsOwned :
    (key : WaiterKey) (w : Waiter) (r : RuntimeRegistry)
    → IsOwned r
    → IsWaiting (key, w)
    → IsOwned (record r { waiters = set_waiter key w r.waiters })
set_waiter-IsOwned key w r h new = (
  All-set_waiter IsWaiting key w r.waiters
      (λ k same. subst (λ k'. IsWaiting (k', w)) (sym same) new) h.0,
  h.1,
)

found-IsWaiting :
    (key : WaiterKey) (r : RuntimeRegistry) {e : WaiterKey × Waiter}
    → IsOwned r
    → find_first (is_key key) r.waiters ≡ some e
    → IsWaiting (key, e.1)
found-IsWaiting key r {e} h found =
    subst (λ k. IsWaiting (k, e.1)) (same_key key e (find_first-holds (is_key key) r.waiters found))
      (All-found IsWaiting (is_key key) r.waiters h.0 found)

delivered-IsOwned :
    (event : Envelope) (e : WaiterKey × Waiter) (r : RuntimeRegistry)
    → IsOwned r
    → find_first (is_key (event_key event)) r.waiters ≡ some e
    → has_room e.1 ≡ true
    → IsOwned (record r { waiters = set_waiter (event_key event) (with_event event e.1) r.waiters })
delivered-IsOwned event e r h found room =
    let waiting = found-IsWaiting (event_key event) r h found in
    let own =
      with_event-IsOwn (event_key event) e.1 event room (refl, refl) (waiting.1, waiting.2) in
    set_waiter-IsOwned (event_key event) (with_event event e.1) r h (waiting.0, own.0, own.1)

dispatch-IsOwned :
    (agent_id : String) (conn : ℕ) (event : Envelope) (r : RuntimeRegistry) {r' : RuntimeRegistry}
    → IsOwned r
    → dispatch agent_id conn event r ≡ some r'
    → IsOwned r'
unfolding dispatch deliver
dispatch-IsOwned agent_id conn event r {r'} h done =
    elim (Bool-cases (event.agent_id == agent_id && is_conn conn (lookup agent_id r.runtimes))) [
      | inr ignored ↦ subst IsOwned {x = r} {y = r'} (ground (arith, ignored, done)) h
      | inl its ↦ elim (Option-cases (find_first (is_key (event_key event)) r.waiters)) [
        | inl nobody ↦ subst IsOwned {x = r} {y = r'} (ground (arith, its, nobody, done)) h
        | inr (e, found) ↦ elim (Bool-cases (has_room e.1)) [
          | inr full ↦
              absurd (
                ground (arith, its, found, full, done, found-IsWaiting (event_key event) r h found))
          | inl room ↦
              let r1 : RuntimeRegistry = record r {
                waiters = set_waiter (event_key event) (with_event event e.1) r.waiters;
              } in
              let live = (found-IsWaiting (event_key event) r h found).0 in
              let owned = delivered-IsOwned event e r h found room in
              elim (Bool-cases (is_last event)) [
                | inr more ↦
                    subst IsOwned {x = r1} {y = r'}
                      (ground (arith, its, found, room, live, more, done)) owned
                | inl last ↦
                    subst IsOwned {x = remove_waiter (event_key event) r1} {y = r'}
                      (ground (arith, its, found, room, live, last, done))
                      (remove_waiter-IsOwned (event_key event) r1 owned)
              ]
        ]
      ]
    ]

Step-IsOwned : {r r' : RuntimeRegistry} → Step r r' → IsOwned r → IsOwned r'
Step-IsOwned (registered agent_id conn {r} done) h = register-IsOwned agent_id conn r h done
Step-IsOwned (unregistered agent_id conn {r} done) h = unregister-IsOwned agent_id conn r h done
Step-IsOwned (opened agent_id task {r}) h = open_task-IsOwned agent_id task r h
Step-IsOwned (removed key {r}) h = remove_waiter-IsOwned key r h
Step-IsOwned (dispatched agent_id conn event {r} done) h =
    dispatch-IsOwned agent_id conn event r h done
Step-IsOwned (received key w event events {k} {r} found e) h =
    let waiting = found-IsWaiting key r h found in
    let own = subst (λ xs. (length xs ≤ 16) × All (IsOf key) xs) e (waiting.1, waiting.2) in
    set_waiter-IsOwned key (record w { events = events }) r h
      (waiting.0, omega (arith, own.0), own.1.1)

-- After any operations, in any order: a waiter of the registry is not cancelled, and every waiter, those that have
-- left it too, holds at most 16 events, each of which is an event of its own agent and message.
pub Reachable-IsOwned : {r : RuntimeRegistry} → Reachable r → IsOwned r
unfolding new_runtime_registry
Reachable-IsOwned start = (tt, tt)
Reachable-IsOwned (step reached s) = Step-IsOwned s (Reachable-IsOwned reached)
