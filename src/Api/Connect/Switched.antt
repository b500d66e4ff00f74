-- ===== src/Api/Connect/Switched.antt =====
-- internal/api/server.go: what an accepted switch of an agent's integration shows.
use shclop.Api.Connect.{handle_agent_integration, toggle_as, shown_binding}
use shclop.Api.Access.Authorized.{authorized, Authorized}
use shclop.Api.Server.{plain, record_activity, of_binding, done, Response, Server, Flow}
use shclop.Integrations.{toggle_agent_integration}
use shclop.Store.Bindings.Lookup.{IsBound, upsert_agent_integration-IsBound}
use shclop.Store.Connections.{get_integration_connection}
use shclop.Store.Memory.{Memory, Result-cases, ok, Call}
use shclop.Domain.{AgentIntegration, IntegrationConnection, Agent, User}
use shclop.Prelude.{
  ℕ, String, ◌≡◌, refl, Option, some, none, arith, inl, inr, Bool, true, false, if◌then◌else◌,
  subst,
}

-- The owner has a connection of the provider; the store has the integration on or off as asked, and every other as before.
abbrev pub IsSwitched :
    (ℕ → Call) → String → String → Option Bool → Agent → Server → Server → Response → Type 0
IsSwitched at agent_id provider_id body a before after answer =
    (enabled : Bool) × (conn : IntegrationConnection) × (ai : AgentIntegration) × (body
      ≡ some enabled)
    × ((get_integration_connection (at 2) a.owner_user_id provider_id before.store).0 ≡ ok conn)
    × IsBound agent_id provider_id enabled (if enabled then "active" else "disabled") ai
        before.store after.store
    × (answer.body
        ≡ of_binding (record {
          agent_id = agent_id;
          provider_id = provider_id;
          enabled = enabled;
          status = if enabled then "active" else "disabled";
          revision = ai.revision;
        }))

toggle-IsBound :
    (c : Call) (agent_id provider_id : String) (enabled : Bool) (m : Memory) {ai : AgentIntegration}
    → (toggle_agent_integration c agent_id provider_id enabled m).0 ≡ ok ai
    → IsBound agent_id provider_id enabled
        (if enabled then "active" else "disabled")
        ai
        m
        (toggle_agent_integration c agent_id provider_id enabled m).1
unfolding toggle_agent_integration
toggle-IsBound c agent_id provider_id true m h =
    upsert_agent_integration-IsBound c agent_id provider_id true 0 "active" m h
toggle-IsBound c agent_id provider_id false m h =
    upsert_agent_integration-IsBound c agent_id provider_id false 0 "disabled" m h

get_integration_connection_reads :
    (c : Call) (user_id provider_id : String) (m : Memory)
    → (get_integration_connection c user_id provider_id m).1 ≡ m
unfolding get_integration_connection
get_integration_connection_reads c user_id provider_id m = ground arith

toggle_as_sound :
    (at : ℕ → Call) (agent_id provider_id : String) (body : Option Bool) (u : User) (a : Agent)
    (s : Server) {r : Response}
    → (toggle_as at agent_id provider_id body u a s).0 ≡ done r
    → r.status ≡ 200
    → IsSwitched at agent_id provider_id body a s (toggle_as at agent_id provider_id body u a s).1 r
unfolding toggle_as record_activity
toggle_as_sound at agent_id provider_id none u a s h status = absurd (ground (arith, h, status))
toggle_as_sound at agent_id provider_id (some enabled) u a s {r} h status =
    elim (Result-cases (get_integration_connection (at 2) a.owner_user_id provider_id s.store).0) [
      | inr (e, absent) ↦ absurd (ground (arith, absent, h, status))
      | inl (conn, there) ↦
          let reads = get_integration_connection_reads (at 2) a.owner_user_id provider_id s.store in
          elim (Result-cases
            (toggle_agent_integration (at 3) agent_id provider_id enabled s.store).0) [
              | inr (e, failed) ↦
                  let answered : ◌≡◌ {A = Flow (Unit {0})}
                      (done (record { status = 500; body = plain "internal server error" }))
                      (done r) =
                    rw (there, reads, failed) at h in
                  absurd (ground (arith, answered, status))
              | inl (ai, made) ↦
                  let answered : ◌≡◌ {A = Flow (Unit {0})}
                      (done (record { status = 200; body = of_binding (shown_binding ai) }))
                      (done r) =
                    rw (there, reads, made) at h in
                  let bound = toggle-IsBound (at 3) agent_id provider_id enabled s.store made in
                  (
                    enabled,
                    conn,
                    ai,
                    refl,
                    there,
                    rw (there, reads, made) bound,
                    ground (arith, answered, bound.0, bound.1, bound.2, bound.3),
                  )
            ]
    ]

-- When an agent's integration was switched and the answer is 200: the caller owns the agent or is an
-- administrator, it is the owner who has a connection of the provider, and from then on the
-- store has the integration enabled and active, or disabled, as the request asks, and every other integration
-- of an agent as before.
pub agent_integration_sound :
    (at : ℕ → Call) (authorization agent_id provider_id : String) (body : Option Bool) (s : Server)
    {r : Response}
    → (handle_agent_integration at authorization agent_id provider_id body s).0 ≡ done r
    → r.status ≡ 200
    → (w : Authorized at authorization agent_id s (toggle_as at agent_id provider_id body))
      × IsSwitched at agent_id provider_id body w.agent s
          (handle_agent_integration at authorization agent_id provider_id body s).1
          r
unfolding handle_agent_integration
agent_integration_sound at authorization agent_id provider_id body s {r} h status =
    let w =
      authorized at authorization agent_id s (toggle_as at agent_id provider_id body)
        (λ r' e. ground (arith, e, h, status)) in
    (
      w,
      rw w.rest (
          toggle_as_sound at agent_id provider_id body w.user w.agent s
            (subst (λ (p : Flow (Unit {0}) × Server). p.0 ≡ done r) w.rest h) status),
    )
