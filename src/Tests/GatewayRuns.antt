-- ===== src/Tests/GatewayRuns.antt =====
-- internal/gateway/registry.go: a task that is waited for when its runtime goes.
use shclop.Gateway.Reached.{Reachable-IsOwned}
use shclop.Gateway.Failed.{disconnect_ends, without_waiters}
use shclop.Gateway.Owned.{IsOwned}
use shclop.Gateway.Steps.{Reachable, start, step, registered, opened}
use shclop.Gateway.{
  Envelope, RuntimeRegistry, new_runtime_registry, register, unregister, open_task,
}
use shclop.Prelude.Dict.{insert, lookup, remove}
use shclop.Prelude.{◌≡◌, refl, String, some, [], ◌∷◌}

abbrev task : Envelope
task = record {
  kind = "task.run";
  agent_id = "a1";
  session_id = "s1";
  message_id = "m1";
  seq = 0;
  payload = [];
}

abbrev connected : RuntimeRegistry
connected = record { runtimes = ("a1", 7) ∷ []; waiters = []; closed = [] }

abbrev waiting : RuntimeRegistry
waiting = (open_task "a1" task connected).1

waiting_reached : Reachable waiting
unfolding register new_runtime_registry insert lookup
waiting_reached =
    step (step start (registered "a1" 7 {r = new_runtime_registry} {r' = connected} refl))
      (opened "a1" task)

Reachable-IsOwned_example : IsOwned waiting
Reachable-IsOwned_example = Reachable-IsOwned waiting_reached

disconnect_ends_example :
    (unregister "a1" 7 waiting
      ≡ some (
          without_waiters "a1" "runtime disconnected"
            (record waiting { runtimes = remove "a1" waiting.runtimes })))
    × (register "a1" 8 waiting
        ≡ some (
            without_waiters "a1" "runtime connection replaced"
              (record waiting { runtimes = insert "a1" 8 waiting.runtimes })))
unfolding open_task shclop.Prelude.Dict.lookup shclop.Prelude.Lists.select
disconnect_ends_example = disconnect_ends "a1" 7 8 waiting_reached ((λ h. refl), tt) refl refl
