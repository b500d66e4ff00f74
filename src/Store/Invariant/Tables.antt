-- ===== src/Store/Invariant/Tables.antt =====
-- internal/store/store.go: the methods on agents, connections, bindings and manifests, and the
-- invariant.
use shclop.Prelude.{
  ℕ, String, ◌≡◌, refl, Bool, Option, none, some, List, [], ◌∷◌, ◌++◌, map, arith, Option-cases,
  inl, inr, eq_iff,
}
use shclop.Prelude.Lists.{find_first, update_first, remove_first, select}
use shclop.Prelude.Keys.{
  IsDistinct, IsDistinct-append, IsDistinct-update_first, IsDistinct-remove_first,
  IsDistinct-select, IsFresh-of_find_first,
}
use shclop.Prelude.Dict.{keys, Dict, lookup, insert, remove, IsDistinct-insert, IsDistinct-remove}
use shclop.Domain.{IntegrationConnection, AgentIntegration, PluginManifest}
use shclop.Store.Memory.{Call, Memory}
use shclop.Store.Agents.{agent_with_id, of_another_agent, delete_agent}
use shclop.Store.Connections.{
  connection_of, with_scope, merge_connection, fresh_connection, upsert_integration_connection,
  delete_integration_connection, of_another_provider,
}
use shclop.Store.Bindings.{binding_of, edit_binding, new_binding, upsert_agent_integration}
use shclop.Store.Manifests.{merge_manifest, upsert_plugin_manifest, delete_plugin_manifest}
use shclop.Store.Invariant.Links.{
  IsWellFormed-frame, AllKeyed, IsWellFormed, connection_key, binding_key, AllKeyed-insert,
  AllKeyed-remove, lookup_keyed,
}

-- Filtering the bindings keeps the invariant, whatever the test.
select_bindings-IsWellFormed :
    (m : Memory) (p : AgentIntegration → Bool)
    → IsWellFormed m
    → IsWellFormed (record m { agent_integrations = select p m.agent_integrations })
select_bindings-IsWellFormed m p w = record {
  usernames = w.usernames;
  identities = w.identities;
  linked = w.linked;
  connections = w.connections;
  bindings = IsDistinct-select binding_key p m.agent_integrations w.bindings;
  manifests = w.manifests;
  keyed = w.keyed;
}

set_connections-IsWellFormed :
    (m : Memory) (xs : List IntegrationConnection)
    → IsDistinct (map connection_key xs)
    → IsWellFormed m
    → IsWellFormed (record m { integrations = xs })
set_connections-IsWellFormed m xs d w = record {
  usernames = w.usernames;
  identities = w.identities;
  linked = w.linked;
  connections = d;
  bindings = w.bindings;
  manifests = w.manifests;
  keyed = w.keyed;
}

set_bindings-IsWellFormed :
    (m : Memory) (xs : List AgentIntegration)
    → IsDistinct (map binding_key xs)
    → IsWellFormed m
    → IsWellFormed (record m { agent_integrations = xs })
set_bindings-IsWellFormed m xs d w = record {
  usernames = w.usernames;
  identities = w.identities;
  linked = w.linked;
  connections = w.connections;
  bindings = d;
  manifests = w.manifests;
  keyed = w.keyed;
}

pub delete_agent-IsWellFormed :
    (c : Call) (agent_id : String) (m : Memory)
    → IsWellFormed m
    → IsWellFormed (delete_agent c agent_id m).1
unfolding delete_agent
delete_agent-IsWellFormed c agent_id m w = elim (Option-cases c.ctx_err) [
  | inr (e, ended) ↦ rw ended w
  | inl live ↦ rw live (elim (Option-cases (find_first (agent_with_id agent_id) m.agents)) [
    | inl missing ↦ rw missing w
    | inr (a, there) ↦ rw there (
        set_bindings-IsWellFormed
          (record m { agents = remove_first (agent_with_id agent_id) m.agents })
          (select (of_another_agent agent_id) m.agent_integrations)
          (IsDistinct-select binding_key (of_another_agent agent_id) m.agent_integrations
            w.bindings)
          (IsWellFormed-frame m
            (record m { agents = remove_first (agent_with_id agent_id) m.agents }) refl w))
  ])
]

IsDistinct-new_connection :
    (xs : List IntegrationConnection) (x : IntegrationConnection)
    → find_first (connection_of x.user_id x.provider_id) xs ≡ none
    → IsDistinct (map connection_key xs)
    → IsDistinct (map connection_key (xs ++ x ∷ []))
IsDistinct-new_connection xs x h d = IsDistinct-append connection_key xs x d (
    IsFresh-of_find_first connection_key (connection_of x.user_id x.provider_id) (connection_key x)
      xs (λ y e. ground (arith, eq_iff y.user_id x.user_id, eq_iff y.provider_id x.provider_id)) h)

IsDistinct-new_binding :
    (xs : List AgentIntegration) (x : AgentIntegration)
    → find_first (binding_of x.agent_id x.provider_id) xs ≡ none
    → IsDistinct (map binding_key xs)
    → IsDistinct (map binding_key (xs ++ x ∷ []))
IsDistinct-new_binding xs x h d = IsDistinct-append binding_key xs x d (
    IsFresh-of_find_first binding_key (binding_of x.agent_id x.provider_id) (binding_key x) xs
      (λ y e. ground (arith, eq_iff y.agent_id x.agent_id, eq_iff y.provider_id x.provider_id)) h)

pub upsert_integration_connection-IsWellFormed :
    (c : Call) (connection : IntegrationConnection) (m : Memory)
    → IsWellFormed m
    → IsWellFormed (upsert_integration_connection c connection m).1
unfolding upsert_integration_connection
upsert_integration_connection-IsWellFormed c connection m w =
    let x = with_scope connection in
    let p = connection_of x.user_id x.provider_id in
    elim (Option-cases c.ctx_err) [
      | inr (e, ended) ↦ rw ended w
      | inl live ↦ rw live (elim (Option-cases (find_first p m.integrations)) [
        | inl free ↦ rw free (
            set_connections-IsWellFormed m (m.integrations ++ fresh_connection c.now x ∷ [])
              (IsDistinct-new_connection m.integrations (fresh_connection c.now x) free
                w.connections)
              w)
        | inr (old, there) ↦ rw there (
            set_connections-IsWellFormed m
              (update_first p (merge_connection c.now x) m.integrations)
              (IsDistinct-update_first connection_key p (merge_connection c.now x) m.integrations
                (λ y. refl) w.connections)
              w)
      ])
    ]

pub delete_integration_connection-IsWellFormed :
    (c : Call) (user_id provider_id : String) (m : Memory)
    → IsWellFormed m
    → IsWellFormed (delete_integration_connection c user_id provider_id m).1
unfolding delete_integration_connection
delete_integration_connection-IsWellFormed c user_id provider_id m w =
    let p = connection_of user_id provider_id in
    elim (Option-cases c.ctx_err) [
      | inr (e, ended) ↦ rw ended w
      | inl live ↦ rw live (elim (Option-cases (find_first p m.integrations)) [
        | inl missing ↦ rw missing w
        | inr (x, there) ↦ rw there (
            select_bindings-IsWellFormed (record m { integrations = remove_first p m.integrations })
              (of_another_provider provider_id)
              (set_connections-IsWellFormed m (remove_first p m.integrations)
                (IsDistinct-remove_first connection_key p m.integrations w.connections) w))
      ])
    ]

pub upsert_agent_integration-IsWellFormed :
    (c : Call) (agent_id provider_id : String) (enabled : Bool) (revision : ℕ) (status : String)
    (m : Memory)
    → IsWellFormed m
    → IsWellFormed (upsert_agent_integration c agent_id provider_id enabled revision status m).1
unfolding upsert_agent_integration
upsert_agent_integration-IsWellFormed c agent_id provider_id enabled revision status m w =
    let p = binding_of agent_id provider_id in
    elim (Option-cases c.ctx_err) [
      | inr (e, ended) ↦ rw ended w
      | inl live ↦ rw live (elim (Option-cases (find_first p m.agent_integrations)) [
        | inl free ↦
            let ai = new_binding c.now agent_id provider_id enabled status in
            rw free (
              set_bindings-IsWellFormed m (m.agent_integrations ++ ai ∷ [])
                (IsDistinct-new_binding m.agent_integrations ai free w.bindings) w)
        | inr (old, there) ↦
            let f = edit_binding c.now enabled revision status in
            rw there (
              set_bindings-IsWellFormed m (update_first p f m.agent_integrations)
                (IsDistinct-update_first binding_key p f m.agent_integrations (λ y. refl)
                  w.bindings)
                w)
      ])
    ]

set_manifests-IsWellFormed :
    (m : Memory) (d : Dict PluginManifest)
    → IsDistinct (keys d)
    → AllKeyed d
    → IsWellFormed m
    → IsWellFormed (record m { plugin_manifests = d })
set_manifests-IsWellFormed m d distinct keyed w = record {
  usernames = w.usernames;
  identities = w.identities;
  linked = w.linked;
  connections = w.connections;
  bindings = w.bindings;
  manifests = distinct;
  keyed = keyed;
}

-- A manifest that is merged into the stored one keeps the stored id, which is its key.
merge_manifest-id :
    (now : ℕ) (x : PluginManifest) (d : Dict PluginManifest) (o : Option PluginManifest)
    → AllKeyed d
    → lookup x.id d ≡ o
    → (merge_manifest now x o).id ≡ x.id
merge_manifest-id now x d none h e = refl
merge_manifest-id now x d (some pm) h e = lookup_keyed x.id d h e

pub upsert_plugin_manifest-IsWellFormed :
    (c : Call) (x : PluginManifest) (m : Memory)
    → IsWellFormed m
    → IsWellFormed (upsert_plugin_manifest c x m).1
unfolding upsert_plugin_manifest
upsert_plugin_manifest-IsWellFormed c x m w =
    let old = lookup x.id m.plugin_manifests in
    let stored = merge_manifest c.now x old in
    elim (Option-cases c.ctx_err) [
      | inr (e, ended) ↦ rw ended w
      | inl live ↦ rw live (
          set_manifests-IsWellFormed m (insert x.id stored m.plugin_manifests)
            (IsDistinct-insert x.id stored m.plugin_manifests w.manifests)
            (AllKeyed-insert x.id stored m.plugin_manifests
              (merge_manifest-id c.now x m.plugin_manifests old w.keyed refl) w.keyed)
            w)
    ]

pub delete_plugin_manifest-IsWellFormed :
    (c : Call) (id : String) (m : Memory)
    → IsWellFormed m
    → IsWellFormed (delete_plugin_manifest c id m).1
unfolding delete_plugin_manifest
delete_plugin_manifest-IsWellFormed c id m w = elim (Option-cases c.ctx_err) [
  | inr (e, ended) ↦ rw ended w
  | inl live ↦ rw live (elim (Option-cases (lookup id m.plugin_manifests)) [
    | inl missing ↦ rw missing w
    | inr (pm, there) ↦ rw there (
        set_manifests-IsWellFormed m (remove id m.plugin_manifests)
          (IsDistinct-remove id m.plugin_manifests w.manifests)
          (AllKeyed-remove id m.plugin_manifests w.keyed) w)
  ])
]
