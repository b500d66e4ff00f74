-- ===== src/Tests/StartRuns.antt =====
-- internal/api/server.go: the sandbox refuses to start an agent.
use shclop.Tests.Data.{server, populated, writer, alice, deps}
use shclop.Api.Start.Failed.{launch_refused}
use shclop.Api.Start.{launch}
use shclop.Api.Agents.{Deps}
use shclop.Api.Server.{plain, done}
use shclop.Store.Models.{gateway_settings}
use shclop.Store.Agents.{agent_with_id}
use shclop.Store.Memory.{failure, err}
use shclop.Prelude.Lists.{find_first}
use shclop.Domain.{Agent}
use shclop.Prelude.{◌≡◌, refl, some, []}

abbrev broken : Deps
broken = record deps { start = λ request. err (failure "no room") }

launch_refused_example :
    ((launch broken "a1" alice (gateway_settings populated, []) server).0
      ≡ done (record { status = 500; body = plain "internal server error" }))
    × ((a : Agent) × (find_first
            (agent_with_id "a1")
            (launch broken "a1" alice (gateway_settings populated, []) server).1.store.agents
          ≡ some a)
        × (a.state ≡ "idle")
        × (a.last_error ≡ "no room"))
unfolding find_first
launch_refused_example =
    launch_refused broken "a1" alice (gateway_settings populated) [] server {secret = "fresh"}
      {b = writer} {e = failure "no room"} refl refl refl refl refl refl
