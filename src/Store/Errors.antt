-- ===== src/Store/Errors.antt =====
-- internal/store/store.go: the state after a method that returned an error.
use shclop.Prelude.{◌≡◌, some, arith}
use shclop.Store.Memory.{Err, Call, Memory}
use shclop.Store.Commands.{Command, user_create, exec}
use shclop.Store.Users.{create_user, update_user, set_password_hash, bootstrap_admin}
use shclop.Store.Agents.{create_agent, update_agent_state, update_agent_error, delete_agent}
use shclop.Store.Models.{create_llm_model, update_llm_model, upsert_llm_gateway_settings}
use shclop.Store.Connections.{upsert_integration_connection, delete_integration_connection}
use shclop.Store.Bindings.{upsert_agent_integration}
use shclop.Store.Manifests.{upsert_plugin_manifest, delete_plugin_manifest}
use shclop.Store.Identities.{
  touch_identity_login, create_user_and_identity, link_identity_to_user, unlink_identity,
}
use shclop.Store.Settings.{set_app_setting}

-- Whatever a writing method is called with and finds outside, if it returns an error then the state
-- is the one that it was called on.
pub exec_error_unchanged :
    (c : Call) (cmd : Command) (m : Memory) {e : Err}
    → (exec c cmd m).0 ≡ some e
    → (exec c cmd m).1 ≡ m
unfolding exec create_user update_user set_password_hash bootstrap_admin create_agent
    update_agent_state update_agent_error delete_agent create_llm_model update_llm_model
    upsert_llm_gateway_settings upsert_integration_connection delete_integration_connection
    upsert_agent_integration upsert_plugin_manifest delete_plugin_manifest touch_identity_login
    create_user_and_identity link_identity_to_user unlink_identity set_app_setting
exec_error_unchanged c (user_create u h r) m e = ground arith
exec_error_unchanged c _ m e = ground arith
