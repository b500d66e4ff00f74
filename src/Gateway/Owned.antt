-- ===== src/Gateway/Owned.antt =====
-- internal/gateway/registry.go: whose events a waiter holds, and how many.
use shclop.Prelude.{
  ◌≡◌, refl, subst, inl, inr, ◌+◌, ◌≤◌, String, true, false, some, List, [], ◌∷◌, ◌++◌, arith,
  eq_iff, Option-cases, Bool-cases,
}
use shclop.Prelude.Lists.{length, find_first}
use shclop.Prelude.Dict.{lookup}
use shclop.Prelude.All.{All, All-append, All-select, All-found}
use shclop.Gateway.{
  Envelope, WaiterKey, Waiter, Waiters, RuntimeRegistry, open_task, remove_waiter, set_waiter,
  is_key, is_other_key, failed_waiters, fail_waiters, fail, has_room, with_event, cancel,
  disconnect_event, waits_for,
}

-- An event of the task that the waiter is for.
abbrev pub IsOf : WaiterKey → Envelope → Type 0
IsOf key event = (event.agent_id ≡ key.agent_id) × (event.message_id ≡ key.message_id)

abbrev pub IsOwn : WaiterKey × Waiter → Type 0
IsOwn e = (length e.1.events ≤ 16) × All (IsOf e.0) e.1.events

abbrev pub IsWaiting : WaiterKey × Waiter → Type 0
IsWaiting e = (e.1.cancelled ≡ false) × (length e.1.events ≤ 16) × All (IsOf e.0) e.1.events

abbrev pub IsOwned : RuntimeRegistry → Type 0
IsOwned r = All IsWaiting r.waiters × All IsOwn r.closed

length-append_single {ℓ} :
    {A : Type ℓ} (xs : List A) (x : A) → length (xs ++ x ∷ []) ≡ length xs + 1
length-append_single [] x = omega arith
length-append_single (y ∷ ys) x = omega (arith, length-append_single ys x)

pub same_key : (key : WaiterKey) (e : WaiterKey × Waiter) → is_key key e ≡ true → e.0 ≡ key
same_key key e h =
    let a : e.0.agent_id ≡ key.agent_id = ground (arith, h, eq_iff e.0.agent_id key.agent_id) in
    let m : e.0.message_id ≡ key.message_id =
      ground (arith, h, eq_iff e.0.message_id key.message_id) in
    cc (a, m)

pub All-set_waiter :
    (P : WaiterKey × Waiter → Type 0) (key : WaiterKey) (w : Waiter) (ws : Waiters)
    → ((k : WaiterKey) → k ≡ key → P (k, w))
    → All P ws
    → All P (set_waiter key w ws)
unfolding set_waiter
All-set_waiter P key w [] new h = tt
All-set_waiter P key w (e ∷ ws) new h = elim (Bool-cases (is_key key e)) [
  | inl its ↦ rw its (new e.0 (same_key key e its), h.1)
  | inr other ↦ rw other (h.0, All-set_waiter P key w ws new h.1)
]

pub closed_IsOwn : (e : WaiterKey × Waiter) → IsWaiting e → IsOwn e
closed_IsOwn e h = (h.1, h.2)

-- An event of its own that found room.
pub with_event-IsOwn :
    (k : WaiterKey) (w : Waiter) (event : Envelope)
    → has_room w ≡ true
    → IsOf k event
    → IsOwn (k, w)
    → IsOwn (k, with_event event w)
with_event-IsOwn k w event room own h = (
  grind (arith, length-append_single w.events event, room),
  All-append (IsOf k) w.events (event ∷ []) h.1 (own, tt),
)

failed-IsOwn :
    (e : WaiterKey × Waiter) (reason : String) {w : Waiter}
    → IsWaiting e
    → fail (disconnect_event reason e.0) e.1 ≡ some w
    → IsOwn (e.0, w)
unfolding fail
failed-IsOwn e reason {w} h done = elim (Bool-cases (has_room e.1)) [
  | inr full ↦ absurd (ground (arith, full, done, h.0))
  | inl room ↦
      subst (λ v. IsOwn (e.0, v)) {x = cancel (with_event (disconnect_event reason e.0) e.1)}
        {y = w} (ground (arith, room, done, h.0))
        (with_event-IsOwn e.0 e.1 (disconnect_event reason e.0) room (refl, refl)
          (closed_IsOwn e h))
]

failed_waiters-IsOwn :
    (agent_id reason : String) (ws : Waiters) {kept failed : Waiters}
    → All IsWaiting ws
    → failed_waiters agent_id reason ws ≡ some (kept, failed)
    → All IsWaiting kept × All IsOwn failed
unfolding failed_waiters
failed_waiters-IsOwn agent_id reason [] {kept} {failed} h done = (
  subst (All IsWaiting) {x = []} {y = kept} (ground (arith, done)) tt,
  subst (All IsOwn) {x = []} {y = failed} (ground (arith, done)) tt,
)
failed_waiters-IsOwn agent_id reason (e ∷ ws) {kept} {failed} h done =
    elim (Option-cases (failed_waiters agent_id reason ws)) [
      | inl blocked ↦ absurd (ground (arith, blocked, done))
      | inr ((kept', failed'), later) ↦
          let (ih, ih') = failed_waiters-IsOwn agent_id reason ws h.1 later in
          elim (Bool-cases (waits_for agent_id e)) [
            | inr stays ↦ (
              subst (All IsWaiting) {x = e ∷ kept'} {y = kept} (ground (arith, later, stays, done))
                  (h.0, ih),
              subst (All IsOwn) {x = failed'} {y = failed} (ground (arith, later, stays, done)) ih',
            )
            | inl goes ↦ elim (Option-cases (fail (disconnect_event reason e.0) e.1)) [
              | inl blocked ↦ absurd (ground (arith, later, goes, blocked, done))
              | inr (w, fails) ↦ (
                subst (All IsWaiting) {x = kept'} {y = kept}
                    (ground (arith, later, goes, fails, done)) ih,
                subst (All IsOwn) {x = (e.0, w) ∷ failed'} {y = failed}
                    (ground (arith, later, goes, fails, done))
                    (failed-IsOwn e reason h.0 fails, ih'),
              )
            ]
          ]
    ]

pub fail_waiters-IsOwned :
    (agent_id reason : String) (r : RuntimeRegistry) {r' : RuntimeRegistry}
    → IsOwned r
    → fail_waiters agent_id reason r ≡ some r'
    → IsOwned r'
unfolding fail_waiters
fail_waiters-IsOwned agent_id reason r {r'} h done =
    elim (Option-cases (failed_waiters agent_id reason r.waiters)) [
      | inl blocked ↦ absurd (ground (arith, blocked, done))
      | inr ((kept, failed), went) ↦
          let (a, b) = failed_waiters-IsOwn agent_id reason r.waiters h.0 went in
          (
            subst (All IsWaiting) {x = kept} {y = r'.waiters} (ground (arith, went, done)) a,
            subst (All IsOwn) {x = r.closed ++ failed} {y = r'.closed} (ground (arith, went, done))
                (All-append IsOwn r.closed failed h.1 b),
          )
    ]

pub remove_waiter-IsOwned :
    (key : WaiterKey) (r : RuntimeRegistry) → IsOwned r → IsOwned (remove_waiter key r)
unfolding remove_waiter
remove_waiter-IsOwned key r h = (
  All-select IsWaiting (is_other_key key) r.waiters h.0,
  elim (Option-cases (find_first (is_key key) r.waiters)) [
    | inl absent ↦ rw absent h.1
    | inr (e, there) ↦ rw there (
        All-append IsOwn r.closed ((e.0, cancel e.1) ∷ []) h.1
          (closed_IsOwn e (All-found IsWaiting (is_key key) r.waiters h.0 there), tt))
  ],
)

pub open_task-IsOwned :
    (agent_id : String) (task : Envelope) (r : RuntimeRegistry)
    → IsOwned r
    → IsOwned (open_task agent_id task r).1
unfolding open_task
open_task-IsOwned agent_id task r h = elim (Option-cases (lookup agent_id r.runtimes)) [
  | inl away ↦ rw away h
  | inr (conn, there) ↦
      let key : WaiterKey = record { agent_id = agent_id; message_id = task.message_id } in
      rw there (
        ((refl, omega arith, tt), All-select IsWaiting (is_other_key key) r.waiters h.0),
        elim (Option-cases (find_first (is_key key) r.waiters)) [
          | inl absent ↦ rw absent h.1
          | inr (e, found) ↦ rw found (
              All-append IsOwn r.closed (e ∷ []) h.1
                (closed_IsOwn e (All-found IsWaiting (is_key key) r.waiters h.0 found), tt))
        ],
      )
]
