-- ===== src/Gateway/Failed.antt =====
-- internal/gateway/registry.go: what becomes of the waiters of an agent whose runtime went.
use shclop.Prelude.{
  ◌≡◌, refl, inl, inr, ℕ, String, Bool, true, false, not, some, [], ◌∷◌, ◌++◌, eqb, arith,
  Bool-cases,
}
use shclop.Prelude.Lists.{select}
use shclop.Prelude.Dict.{lookup, insert, remove}
use shclop.Gateway.{
  WaiterKey, Waiter, Waiters, RuntimeRegistry, register, unregister, fail, has_room, with_event,
  cancel, waits_for, disconnect_event, failed_waiters, fail_waiters,
}
use shclop.Gateway.Steps.{Reachable}
use shclop.Prelude.All.{All}
use shclop.Gateway.Owned.{IsWaiting}
use shclop.Gateway.Reached.{Reachable-IsOwned}

abbrev pub stays : String → WaiterKey × Waiter → Bool
stays agent_id e = not (waits_for agent_id e)

-- A waiter that got the reason as its last event, and takes no more.
abbrev pub ended : String → WaiterKey × Waiter → WaiterKey × Waiter
ended reason e = (e.0, cancel (with_event (disconnect_event reason e.0) e.1))

abbrev pub ended_all : String → Waiters → Waiters
ended_all reason [] = []
ended_all reason (e ∷ ws) = ended reason e ∷ ended_all reason ws

-- The readers of the agent are not 16 events behind.
abbrev pub AreRead : String → Waiters → Type 0
AreRead agent_id = All (λ e. waits_for agent_id e ≡ true → has_room e.1 ≡ true)

failed_waiters-All :
    (agent_id reason : String) (ws : Waiters)
    → All IsWaiting ws
    → AreRead agent_id ws
    → failed_waiters agent_id reason ws
      ≡ some (select (stays agent_id) ws, ended_all reason (select (waits_for agent_id) ws))
unfolding failed_waiters fail select
failed_waiters-All agent_id reason [] h read = refl
failed_waiters-All agent_id reason (e ∷ ws) h read =
    let ih = failed_waiters-All agent_id reason ws h.1 read.1 in
    elim (Bool-cases (waits_for agent_id e)) [
      | inr other ↦ ground (arith, ih, other)
      | inl its ↦ ground (arith, ih, its, h.0.0, read.0 its)
    ]

-- The registry after an agent's runtime went, for a reason.
abbrev pub without_waiters : String → String → RuntimeRegistry → RuntimeRegistry
without_waiters agent_id reason r = record r {
  waiters = select (stays agent_id) r.waiters;
  closed = r.closed ++ ended_all reason (select (waits_for agent_id) r.waiters);
}

-- When the current connection of an agent goes or another takes its place, and its readers are not 16 events
-- behind, the registry does not wait for them: each waiter of the agent gets the reason as its last event and leaves
-- the registry, and the waiters of the other agents stay as they are.
pub disconnect_ends :
    (agent_id : String) (conn next : ℕ) {r : RuntimeRegistry}
    → Reachable r
    → AreRead agent_id r.waiters
    → lookup agent_id r.runtimes ≡ some conn
    → eqb conn next ≡ false
    → (unregister agent_id conn r
        ≡ some (
            without_waiters agent_id "runtime disconnected"
              (record r { runtimes = remove agent_id r.runtimes })))
      × (register agent_id next r
          ≡ some (
              without_waiters agent_id "runtime connection replaced"
                (record r { runtimes = insert agent_id next r.runtimes })))
unfolding unregister register fail_waiters
disconnect_ends agent_id conn next {r} reached read current differs =
    let waiting = (Reachable-IsOwned reached).0 in
    (
      ground (
        arith,
        current,
        failed_waiters-All agent_id "runtime disconnected" r.waiters waiting read,
      ),
      ground (
        arith,
        current,
        differs,
        failed_waiters-All agent_id "runtime connection replaced" r.waiters waiting read,
      ),
    )
