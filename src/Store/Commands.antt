-- ===== src/Store/Commands.antt =====
-- internal/store/store.go: every method that writes, as one step of the state, and a run of such
-- steps as the lock orders them.
use shclop.Prelude.{ℕ, String, Bool, Option, none, some, List, [], ◌∷◌}
use shclop.Domain.{IntegrationConnection, PluginManifest}
use shclop.Store.Memory.{Err, Result, ok, err, Call, Memory}
use shclop.Store.Users.{create_user, update_user, set_password_hash, bootstrap_admin}
use shclop.Store.Agents.{
  AgentArgs, create_agent, update_agent_state, update_agent_error, delete_agent,
}
use shclop.Store.Models.{create_llm_model, update_llm_model, upsert_llm_gateway_settings}
use shclop.Store.Connections.{upsert_integration_connection, delete_integration_connection}
use shclop.Store.Bindings.{upsert_agent_integration}
use shclop.Store.Manifests.{upsert_plugin_manifest, delete_plugin_manifest}
use shclop.Store.Identities.{
  CreateUserAndIdentityArgs, touch_identity_login, create_user_and_identity, link_identity_to_user,
  unlink_identity,
}
use shclop.Store.Settings.{set_app_setting}

pub data Command : Type 0 where
  user_create : String → String → String → Command
  user_update : String → Option Bool → Option String → Command
  hash_set : String → String → Command
  admin_bootstrap : String → String → Command
  agent_create : AgentArgs → Command
  agent_state : String → String → Command
  agent_error : String → String → Command
  agent_delete : String → Command
  model_create : String → String → Bool → Command
  model_update : String → Option String → Option String → Option Bool → Command
  gateway_upsert : Bool → String → String → String → Command
  connection_upsert : IntegrationConnection → Command
  connection_delete : String → String → Command
  binding_upsert : String → String → Bool → ℕ → String → Command
  manifest_upsert : PluginManifest → Command
  manifest_delete : String → Command
  identity_touch : String → String → Command
  identity_create : CreateUserAndIdentityArgs → Command
  identity_link : String → String → String → String → String → Command
  identity_unlink : String → String → String → Command
  setting_set : String → String → Command

abbrev pub error_of {ℓ} : {A : Type ℓ} → Result A → Option Err
error_of (ok a) = none
error_of (err e) = some e

-- The error of a method and the state that it leaves.
abbrev pub outcome {ℓ} : {A : Type ℓ} → Result A × Memory → Option Err × Memory
outcome (r, m) = (error_of r, m)

unfoldable pub exec : Call → Command → Memory → Option Err × Memory
exec c (user_create u h r) m = outcome (create_user c u h r m)
exec c (user_update id d r) m = outcome (update_user c id d r m)
exec c (hash_set u h) m = outcome (set_password_hash u h m)
exec c (admin_bootstrap u h) m = outcome (bootstrap_admin c u h m)
exec c (agent_create args) m = outcome (create_agent c args m)
exec c (agent_state id s) m = outcome (update_agent_state c id s m)
exec c (agent_error id e) m = outcome (update_agent_error c id e m)
exec c (agent_delete id) m = outcome (delete_agent c id m)
exec c (model_create n p e) m = outcome (create_llm_model c n p e m)
exec c (model_update id n p e) m = outcome (update_llm_model c id n p e m)
exec c (gateway_upsert e b n k) m = outcome (upsert_llm_gateway_settings c e b n k m)
exec c (connection_upsert x) m = outcome (upsert_integration_connection c x m)
exec c (connection_delete u p) m = outcome (delete_integration_connection c u p m)
exec c (binding_upsert a p e r s) m = outcome (upsert_agent_integration c a p e r s m)
exec c (manifest_upsert x) m = outcome (upsert_plugin_manifest c x m)
exec c (manifest_delete id) m = outcome (delete_plugin_manifest c id m)
exec c (identity_touch p s) m = outcome (touch_identity_login c p s m)
exec c (identity_create args) m = outcome (create_user_and_identity c args m)
exec c (identity_link u p s e d) m = outcome (link_identity_to_user c u p s e d m)
exec c (identity_unlink u p s) m = outcome (unlink_identity c u p s m)
exec c (setting_set k v) m = outcome (set_app_setting c k v m)

unfoldable pub run : List (Call × Command) → Memory → Memory
run [] m = m
run ((c, cmd) ∷ rest) m = run rest (exec c cmd m).1
