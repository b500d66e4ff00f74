-- ===== src/Store/Invariant/Reachable.antt =====
-- internal/store/store.go: the states that calls can lead to.
use shclop.Prelude.{List, [], ◌∷◌, arith}
use shclop.Store.Memory.{Call, Memory, new_memory}
use shclop.Store.Agents.{create_agent, update_agent_state, update_agent_error}
use shclop.Store.Models.{create_llm_model, update_llm_model, upsert_llm_gateway_settings}
use shclop.Store.Settings.{set_app_setting}
use shclop.Store.Commands.{
  Command, user_create, user_update, hash_set, admin_bootstrap, agent_delete, connection_upsert,
  connection_delete, binding_upsert, manifest_upsert, manifest_delete, identity_touch,
  identity_create, identity_link, identity_unlink, exec, run,
}
use shclop.Store.Invariant.Links.{IsWellFormed, IsWellFormed-frame}
use shclop.Store.Invariant.Users.{
  create_user-IsWellFormed, update_user-IsWellFormed, set_password_hash-IsWellFormed,
  bootstrap_admin-IsWellFormed,
}
use shclop.Store.Invariant.Identities.{
  touch_identity_login-IsWellFormed, create_user_and_identity-IsWellFormed,
  link_identity_to_user-IsWellFormed, unlink_identity-IsWellFormed,
}
use shclop.Store.Invariant.Tables.{
  delete_agent-IsWellFormed, upsert_integration_connection-IsWellFormed,
  delete_integration_connection-IsWellFormed, upsert_agent_integration-IsWellFormed,
  upsert_plugin_manifest-IsWellFormed, delete_plugin_manifest-IsWellFormed,
}

-- Every writing method, whatever it is called with and finds outside, keeps the store well formed:
-- usernames, identities, connections, bindings and manifests stay unique by their keys, an identity
-- belongs to a user of the store, and a manifest stands under its own id.
pub exec-IsWellFormed :
    (c : Call) (cmd : Command) (m : Memory) → IsWellFormed m → IsWellFormed (exec c cmd m).1
unfolding exec create_agent update_agent_state update_agent_error create_llm_model update_llm_model
    upsert_llm_gateway_settings set_app_setting
exec-IsWellFormed c (user_create u h r) m w = create_user-IsWellFormed c u h r m w
exec-IsWellFormed c (user_update id d r) m w = update_user-IsWellFormed c id d r m w
exec-IsWellFormed c (hash_set u h) m w = set_password_hash-IsWellFormed u h m w
exec-IsWellFormed c (admin_bootstrap u h) m w = bootstrap_admin-IsWellFormed c u h m w
exec-IsWellFormed c (agent_delete id) m w = delete_agent-IsWellFormed c id m w
exec-IsWellFormed c (connection_upsert x) m w = upsert_integration_connection-IsWellFormed c x m w
exec-IsWellFormed c (connection_delete u p) m w =
    delete_integration_connection-IsWellFormed c u p m w
exec-IsWellFormed c (binding_upsert a p e r s) m w =
    upsert_agent_integration-IsWellFormed c a p e r s m w
exec-IsWellFormed c (manifest_upsert x) m w = upsert_plugin_manifest-IsWellFormed c x m w
exec-IsWellFormed c (manifest_delete id) m w = delete_plugin_manifest-IsWellFormed c id m w
exec-IsWellFormed c (identity_touch p s) m w = touch_identity_login-IsWellFormed c p s m w
exec-IsWellFormed c (identity_create args) m w = create_user_and_identity-IsWellFormed c args m w
exec-IsWellFormed c (identity_link u p s e d) m w =
    link_identity_to_user-IsWellFormed c u p s e d m w
exec-IsWellFormed c (identity_unlink u p s) m w = unlink_identity-IsWellFormed c u p s m w
exec-IsWellFormed c cmd m w = IsWellFormed-frame m (exec c cmd m).1 (ground arith) w

IsWellFormed-new_memory : IsWellFormed new_memory
unfolding new_memory
IsWellFormed-new_memory = record {
  usernames = tt;
  identities = tt;
  linked = tt;
  connections = tt;
  bindings = tt;
  manifests = tt;
  keyed = tt;
}

-- From a well-formed store, any sequence of calls leads to one.
pub run-IsWellFormed :
    (calls : List (Call × Command)) (m : Memory) → IsWellFormed m → IsWellFormed (run calls m)
unfolding run
run-IsWellFormed [] m w = w
run-IsWellFormed ((c, cmd) ∷ rest) m w =
    run-IsWellFormed rest (exec c cmd m).1 (exec-IsWellFormed c cmd m w)

-- A store that starts empty is well formed after any sequence of calls of its writing methods: usernames,
-- identities, connections, bindings and manifests are unique by their keys, an identity belongs to a user
-- of the store, and a manifest stands under its own id.
pub run-new_memory-IsWellFormed :
    (calls : List (Call × Command)) → IsWellFormed (run calls new_memory)
run-new_memory-IsWellFormed calls = run-IsWellFormed calls new_memory IsWellFormed-new_memory
