-- ===== src/Store/Bindings/Lookup.antt =====
-- internal/store/store.go: what is read after an integration of an agent was written.
use shclop.Prelude.{
  ap, [], ◌∷◌, ◌++◌, ◌≡◌, refl, inl, inr, ℕ, String, Bool, false, ◌&&◌, none, some, ◌==◌, arith,
  eq_iff, Option-cases,
}
use shclop.Prelude.Lists.{
  find_first, find_first-holds, find_first-update_first, find_first-update_first_other,
  find_first-append_single, update_first,
}
use shclop.Domain.{AgentIntegration}
use shclop.Store.Memory.{ok, Call, Memory}
use shclop.Store.Users.{found}
use shclop.Store.Bindings.{
  binding_of, edit_binding, new_binding, upsert_agent_integration, get_agent_integration,
}

-- The integration is written as asked and found under its key, and any other is found as before.
abbrev pub IsBound : String → String → Bool → String → AgentIntegration → Memory → Memory → Type 0
IsBound agent_id provider_id enabled status ai before after =
    (ai.agent_id ≡ agent_id)
    × (ai.provider_id ≡ provider_id)
    × (ai.enabled ≡ enabled)
    × (ai.status ≡ status)
    × ((c : Call)
        → c.ctx_err ≡ none
        → (get_agent_integration c agent_id provider_id after).0 ≡ ok ai)
    × ((c : Call) (agent_id' provider_id' : String)
        → (agent_id' == agent_id && provider_id' == provider_id) ≡ false
        → (get_agent_integration c agent_id' provider_id' after).0
          ≡ (get_agent_integration c agent_id' provider_id' before).0)

new_binding-IsBound :
    (now : ℕ) (agent_id provider_id : String) (enabled : Bool) (status : String) (m : Memory)
    → find_first (binding_of agent_id provider_id) m.agent_integrations ≡ none
    → let ai = new_binding now agent_id provider_id enabled status in
      IsBound agent_id provider_id enabled status ai m
        (record m { agent_integrations = m.agent_integrations ++ ai ∷ [] })
unfolding get_agent_integration
new_binding-IsBound now agent_id provider_id enabled status m absent =
    let ai = new_binding now agent_id provider_id enabled status in
    (
      refl,
      refl,
      refl,
      refl,
      (λ c live. ground (
        arith,
        live,
        absent,
        find_first-append_single (binding_of agent_id provider_id) m.agent_integrations ai,
        eq_iff agent_id agent_id,
        eq_iff provider_id provider_id,
      )),
      (λ c agent_id' provider_id' other. ground (
        arith,
        other,
        find_first-append_single (binding_of agent_id' provider_id') m.agent_integrations ai,
        Option-cases (find_first (binding_of agent_id' provider_id') m.agent_integrations),
        eq_iff agent_id' agent_id,
        eq_iff provider_id' provider_id,
        eq_iff agent_id agent_id',
        eq_iff provider_id provider_id',
      )),
    )

edit_binding-IsBound :
    (now : ℕ) (agent_id provider_id : String) (enabled : Bool) (revision : ℕ) (status : String)
    (m : Memory) {old : AgentIntegration}
    → find_first (binding_of agent_id provider_id) m.agent_integrations ≡ some old
    → IsBound agent_id provider_id enabled status
        (edit_binding now enabled revision status old)
        m
        (record m {
          agent_integrations =
              update_first
                (binding_of agent_id provider_id)
                (edit_binding now enabled revision status)
                m.agent_integrations;
        })
unfolding get_agent_integration
edit_binding-IsBound now agent_id provider_id enabled revision status m {old} there =
    let p = binding_of agent_id provider_id in
    let f = edit_binding now enabled revision status in
    let its = find_first-holds p m.agent_integrations there in
    let updated = find_first-update_first p f m.agent_integrations there its in
    (
      ground (arith, its, eq_iff old.agent_id agent_id),
      ground (arith, its, eq_iff old.provider_id provider_id),
      refl,
      refl,
      (λ c live. rw (live, updated) refl),
      (λ c agent_id' provider_id' other.
          let kept =
            find_first-update_first_other p (binding_of agent_id' provider_id') f
              m.agent_integrations
              (λ x h. ground (
                arith,
                other,
                eq_iff x.agent_id agent_id,
                eq_iff x.provider_id provider_id,
                eq_iff x.agent_id agent_id',
                eq_iff x.provider_id provider_id',
                eq_iff agent_id' agent_id,
                eq_iff provider_id' provider_id,
              ))
              (λ x h. ground (
                arith,
                other,
                eq_iff x.agent_id agent_id,
                eq_iff x.provider_id provider_id,
                eq_iff x.agent_id agent_id',
                eq_iff x.provider_id provider_id',
                eq_iff agent_id' agent_id,
                eq_iff provider_id' provider_id,
              )) in
          elim (Option-cases c.ctx_err) [
            | inl live ↦ rw live (ap found kept)
            | inr (e, ended) ↦ rw ended refl
          ]),
    )

pub upsert_agent_integration-IsBound :
    (c : Call) (agent_id provider_id : String) (enabled : Bool) (revision : ℕ) (status : String)
    (m : Memory) {ai : AgentIntegration}
    → (upsert_agent_integration c agent_id provider_id enabled revision status m).0 ≡ ok ai
    → IsBound agent_id provider_id enabled status ai m
        (upsert_agent_integration c agent_id provider_id enabled revision status m).1
unfolding upsert_agent_integration get_agent_integration
upsert_agent_integration-IsBound c agent_id provider_id enabled revision status m {ai} h =
    elim (Option-cases c.ctx_err) [
      | inr (e, ended) ↦ absurd (ground (arith, ended, h))
      | inl live ↦
          elim (Option-cases (find_first (binding_of agent_id provider_id) m.agent_integrations)) [
            | inl absent ↦
                let same : new_binding c.now agent_id provider_id enabled status ≡ ai =
                  ground (arith, live, absent, h) in
                rw (← same, live, absent)
                  (new_binding-IsBound c.now agent_id provider_id enabled status m absent)
            | inr (old, there) ↦
                let same : edit_binding c.now enabled revision status old ≡ ai =
                  ground (arith, live, there, h) in
                rw (← same, live, there)
                  (edit_binding-IsBound c.now agent_id provider_id enabled revision status m there)
          ]
    ]
