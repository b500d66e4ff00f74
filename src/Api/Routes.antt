-- ===== src/Api/Routes.antt =====
-- internal/api/server.go: the routes of the administration, each with what its request carries.
pub mod Guarded
use shclop.Prelude.{ℕ, String, Bool, Option}
use shclop.Store.Memory.{Result, Call}
use shclop.Plugins.Manifest.{Manifest}
use shclop.Api.Server.{Handler}
use shclop.Api.Admin.{
  AdminRequest, CreateUserRequest, UpdateUserRequest, CreateModelRequest, UpdateModelRequest,
  GatewayRequest, handle_admin,
}
use shclop.Api.Plugins.{
  PluginRequest, handle_admin_list_plugins, handle_admin_upsert_plugin, handle_admin_delete_plugin,
}
use shclop.Api.Overview.{Config, handle_admin_overview}
use shclop.Api.Sso.Settings.{AuthPatch, handle_get_auth_settings, handle_patch_auth_settings}
use shclop.Api.Sso.Links.{
  LinkRequest, handle_admin_list_identities, handle_admin_link_identity,
  handle_admin_unlink_identity,
}

-- What the handlers find outside: `again` is for the settings that are read once more after they were
-- changed.
pub record AdminLibrary : Type 0 where
  pub hash_password : String → Result String
  pub unmarshal : String → Result Manifest
  pub template_ok : String → Bool
  pub config : Config
  pub at : ℕ → Call
  pub again : ℕ → Call

-- The requests under /api/admin.
pub data AdminRoute : Type 0 where
  of_admin : AdminRequest → AdminRoute
  get_identities : String → AdminRoute
  post_identity : String → Option LinkRequest → AdminRoute
  delete_identity : String → String → String → AdminRoute
  get_overview get_auth_settings get_plugins : AdminRoute
  patch_auth_settings : Option AuthPatch → AdminRoute
  post_plugin : Option PluginRequest → AdminRoute
  put_plugin : String → Option PluginRequest → AdminRoute
  delete_plugin : String → AdminRoute

unfoldable pub admin_routes : AdminLibrary → String → AdminRoute → Handler (Unit {0})
admin_routes lib authorization (of_admin request) =
    handle_admin lib.hash_password lib.at authorization request
admin_routes lib authorization (get_identities user_id) =
    handle_admin_list_identities lib.at authorization user_id
admin_routes lib authorization (post_identity user_id body) =
    handle_admin_link_identity lib.at authorization user_id body
admin_routes lib authorization (delete_identity user_id provider_name subject) =
    handle_admin_unlink_identity lib.at authorization user_id provider_name subject
admin_routes lib authorization get_overview =
    handle_admin_overview lib.config (lib.at 0) authorization
admin_routes lib authorization get_auth_settings = handle_get_auth_settings lib.at authorization
admin_routes lib authorization get_plugins = handle_admin_list_plugins lib.at authorization
admin_routes lib authorization (patch_auth_settings body) =
    handle_patch_auth_settings lib.at lib.again authorization body
admin_routes lib authorization (post_plugin body) =
    handle_admin_upsert_plugin lib.unmarshal lib.template_ok lib.at authorization "" body
admin_routes lib authorization (put_plugin path_id body) =
    handle_admin_upsert_plugin lib.unmarshal lib.template_ok lib.at authorization path_id body
admin_routes lib authorization (delete_plugin plugin_id) =
    handle_admin_delete_plugin lib.at authorization plugin_id
