-- ===== src/Store/Connections/Lookup.antt =====
-- internal/store/store.go: the table of connections as a map from a user and a provider to a
-- connection with a revision that grows.
use shclop.Prelude.{
  ap, ◌∙◌, ap, ℕ, ◌+◌, ◌^◌, ◌<◌, String, ◌≡◌, refl, Bool, true, false, ◌&&◌, none, some, List, map,
  arith, ◌==◌, eq_iff, if◌then◌else◌, Option-cases, Bool-cases, inl, inr,
}
use shclop.Prelude.Int64.{lt_int64}
use shclop.Prelude.Lists.{
  select, find_first-holds, find_first, update_first, remove_first, find_first-update_first,
  find_first-update_first_other, find_first-append_single, find_first-select,
  find_first-select_kept, find_first-remove_first_other,
}
use shclop.Prelude.Keys.{IsDistinct, find_first-remove_first}
use shclop.Domain.{IntegrationConnection, AgentIntegration}
use shclop.Store.Memory.{not_found, ok, err, Call, Memory}
use shclop.Store.Users.{found}
use shclop.Store.Connections.{
  of_another_provider, connection_of, with_scope, merge_connection, fresh_connection, next_revision,
  upsert_integration_connection, get_integration_connection, delete_integration_connection,
}
use shclop.Store.Bindings.{binding_of, get_agent_integration}
use shclop.Store.Invariant.Links.{IsWellFormed, connection_key}

-- The search for one key after a write under another.
find_first-upsert :
    (u p u' p' : String) (f : IntegrationConnection → IntegrationConnection)
    (xs : List IntegrationConnection)
    → ((x : IntegrationConnection) → (f x).user_id ≡ x.user_id)
    → ((x : IntegrationConnection) → (f x).provider_id ≡ x.provider_id)
    → (u == u' && p == p') ≡ false
    → find_first (connection_of u' p') (update_first (connection_of u p) f xs)
      ≡ find_first (connection_of u' p') xs
find_first-upsert u p u' p' f xs fu fp ne =
    find_first-update_first_other (connection_of u p) (connection_of u' p') f xs
      (λ x h. ground (
        arith,
        eq_iff x.user_id u,
        eq_iff x.provider_id p,
        eq_iff x.user_id u',
        eq_iff x.provider_id p',
        eq_iff u u',
        eq_iff p p',
      ))
      (λ x h. ground (
        arith,
        fu x,
        fp x,
        eq_iff x.user_id u,
        eq_iff x.provider_id p,
        eq_iff x.user_id u',
        eq_iff x.provider_id p',
        eq_iff u u',
        eq_iff p p',
      ))

-- The search for the key that was written.
find_first-upsert_self :
    (u p u' p' : String) (f : IntegrationConnection → IntegrationConnection)
    (xs : List IntegrationConnection) {old : IntegrationConnection}
    → ((x : IntegrationConnection) → connection_of u p (f x) ≡ connection_of u p x)
    → (u == u' && p == p') ≡ true
    → find_first (connection_of u p) xs ≡ some old
    → find_first (connection_of u' p') (update_first (connection_of u p) f xs) ≡ some (f old)
find_first-upsert_self u p u' p' f xs {old} same e h =
    let same_user : u ≡ u' = ground (arith, eq_iff u u') in
    let same_provider : p ≡ p' = ground (arith, eq_iff p p') in
    rw (← same_user, ← same_provider)
      (find_first-update_first (connection_of u p) f xs h
        (same old ∙ find_first-holds (connection_of u p) xs h))

abbrev pub is_key : IntegrationConnection → String → String → Bool
is_key x user_id provider_id = x.user_id == user_id && x.provider_id == provider_id

-- While neither context has ended: after an upsert, a lookup under the key that was written returns
-- what the upsert returned, and a lookup under any other key what it returned before.
pub get-upsert :
    (c c' : Call) (x : IntegrationConnection) (user_id provider_id : String) (m : Memory)
    → c.ctx_err ≡ none
    → c'.ctx_err ≡ none
    → (get_integration_connection c' user_id provider_id (upsert_integration_connection c x m).1).0
      ≡ (if is_key x user_id provider_id
          then (upsert_integration_connection c x m).0
          else (get_integration_connection c' user_id provider_id m).0)
unfolding get_integration_connection upsert_integration_connection
get-upsert c c' x u p m live live' =
    let y = with_scope x in
    let q = connection_of x.user_id x.provider_id in
    rw (live, live')
      (elim (Option-cases (find_first q m.integrations)) [
        | inl free ↦ ground (
          arith,
          free,
          eq_iff x.user_id u,
          eq_iff x.provider_id p,
          find_first-append_single (connection_of u p) m.integrations (fresh_connection c.now y),
        )
        | inr (old, there) ↦ elim (Bool-cases (is_key x u p)) [
          | inr other ↦
              rw (there, other)
                (ap found (
                  find_first-upsert x.user_id x.provider_id u p (merge_connection c.now y)
                    m.integrations (λ z. refl) (λ z. refl) other))
          | inl same ↦
              rw (there, same)
                (ap found (
                  find_first-upsert_self x.user_id x.provider_id u p (merge_connection c.now y)
                    m.integrations (λ z. refl) same there))
        ]
      ])

next_revision-grows :
    (given old : ℕ) → old + 1 < 2 ^ 63 → lt_int64 old (next_revision given old) ≡ true
next_revision-grows given old h = ground arith

-- Below the largest int64, writing a connection that is there already gives it a larger revision
-- than it had, whatever revision the caller passes.
pub upsert-revision_grows :
    (c : Call) (x old new : IntegrationConnection) (m : Memory)
    → find_first (connection_of x.user_id x.provider_id) m.integrations ≡ some old
    → (upsert_integration_connection c x m).0 ≡ ok new
    → old.revision + 1 < 2 ^ 63
    → lt_int64 old.revision new.revision ≡ true
unfolding upsert_integration_connection
upsert-revision_grows c x old new m there stored room =
    ground (arith, next_revision-grows x.revision old.revision)

find_first-delete :
    (u p u' p' : String) (xs : List IntegrationConnection)
    → IsDistinct (map connection_key xs)
    → find_first (connection_of u' p') (remove_first (connection_of u p) xs)
      ≡ (if u == u' && p == p' then none else find_first (connection_of u' p') xs)
find_first-delete u p u' p' xs d = elim (Bool-cases (u == u' && p == p')) [
  | inl same ↦
      let same_user : u ≡ u' = ground (arith, eq_iff u u') in
      let same_provider : p ≡ p' = ground (arith, eq_iff p p') in
      rw same (
        rw (← same_user, ← same_provider)
          (find_first-remove_first connection_key (connection_of u p) (u, p) xs
            (λ x h. ground (arith, eq_iff x.user_id u, eq_iff x.provider_id p)) d))
  | inr other ↦ rw other (
      find_first-remove_first_other (connection_of u p) (connection_of u' p') xs (λ x h. ground (
        arith,
        eq_iff x.user_id u,
        eq_iff x.provider_id p,
        eq_iff x.user_id u',
        eq_iff x.provider_id p',
        eq_iff u u',
        eq_iff p p',
      )))
]

find_first-disconnect :
    (p agent_id p' : String) (xs : List AgentIntegration)
    → find_first (binding_of agent_id p') (select (of_another_provider p) xs)
      ≡ (if p == p' then none else find_first (binding_of agent_id p') xs)
find_first-disconnect p agent_id p' xs = elim (Bool-cases (p == p')) [
  | inl same ↦ rw same (
      find_first-select (of_another_provider p) (binding_of agent_id p') xs
        (λ x h. ground (arith, eq_iff p p', eq_iff x.provider_id p, eq_iff x.provider_id p')))
  | inr other ↦ rw other (
      find_first-select_kept (of_another_provider p) (binding_of agent_id p') xs
        (λ x h. ground (arith, eq_iff p p', eq_iff x.provider_id p, eq_iff x.provider_id p')))
]

-- In a well-formed store, while the later context has not ended, a connection that was deleted is not
-- found any more, and every other connection is found as before.
pub get-delete :
    (c c' : Call) (user_id provider_id u p : String) (m : Memory)
    → IsWellFormed m
    → (delete_integration_connection c user_id provider_id m).0 ≡ ok tt
    → c'.ctx_err ≡ none
    → (get_integration_connection c' u p
        (delete_integration_connection c user_id provider_id m).1).0
      ≡ (if user_id == u && provider_id == p
          then err not_found
          else (get_integration_connection c' u p m).0)
unfolding get_integration_connection delete_integration_connection
get-delete c c' user_id provider_id u p m w done live' =
    ground (arith, find_first-delete user_id provider_id u p m.integrations w.connections)

-- After a user has disconnected a provider, while the later context has not ended: no agent has an integration with that provider, whoever
-- owns the agent; integrations with other providers are found as before.
pub delete-all_bindings :
    (c c' : Call) (user_id provider_id agent_id p : String) (m : Memory)
    → (delete_integration_connection c user_id provider_id m).0 ≡ ok tt
    → c'.ctx_err ≡ none
    → (get_agent_integration c' agent_id p
        (delete_integration_connection c user_id provider_id m).1).0
      ≡ (if provider_id == p then err not_found else (get_agent_integration c' agent_id p m).0)
unfolding get_agent_integration delete_integration_connection
delete-all_bindings c c' user_id provider_id agent_id p m done live' =
    ground (arith, find_first-disconnect provider_id agent_id p m.agent_integrations)
