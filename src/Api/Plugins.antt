-- ===== src/Api/Plugins.antt =====
-- internal/api/server.go: the administration of plugins. YAML and the check of a template are arguments; the text of
-- a refusal leaves out what is wrong with the manifest.
use shclop.Prelude.{
  ℕ, String, Bool, false, not, ◌&&◌, Option, none, some, [], ◌∷◌, ◌==◌, if◌then◌else◌,
}
use shclop.Domain.{User, PluginManifest}
use shclop.Store.Memory.{Result, ok, err, Call}
use shclop.Store.Manifests.{list_plugin_manifests, upsert_plugin_manifest, delete_plugin_manifest}
use shclop.Plugins.Manifest.{Manifest, Problem, validate}
use shclop.Api.Server.{
  text, flag, number, empty, of_manifest, of_manifests, Handler, ◌>>=◌, ◌>>◌, pure, respond,
  bad_request, when, call_store, or_store_error, or_missing, record_activity,
}
use shclop.Api.Access.{require_user, require_admin}
use shclop.Api.Agents.{decoded}

unfoldable pub list_plugins_as : (ℕ → Call) → User → Handler (Unit {0})
list_plugins_as at user = do
  r ← call_store (list_plugin_manifests (at 1) false)
  manifests ← or_store_error r
  respond 200 (of_manifests manifests)

unfoldable pub handle_admin_list_plugins : (ℕ → Call) → String → Handler (Unit {0})
unfolding list_plugins_as
handle_admin_list_plugins at authorization = do
  user ← require_user (at 0) authorization
  require_admin user
  list_plugins_as at user

pub record PluginRequest : Type 0 where
  pub id : String
  pub yaml : String
  pub enabled : Bool

abbrev sound_manifest : Option Problem × Manifest → Option Manifest
sound_manifest (none, m) = some m
sound_manifest (some problem, m) = none

abbrev pub valid_manifest : (String → Bool) → Result Manifest → Option Manifest
valid_manifest template_ok (err e) = none
valid_manifest template_ok (ok m) = sound_manifest (validate template_ok m)

-- `plugins.ParseManifest`
unfoldable pub parse_manifest :
    (String → Result Manifest) → (String → Bool) → String → Option Manifest
parse_manifest unmarshal template_ok yaml = valid_manifest template_ok (unmarshal yaml)

abbrev or_invalid : Option Manifest → Handler Manifest
or_invalid none = bad_request "invalid manifest"
or_invalid (some m) = pure m

abbrev pub first_set : String → String → String
first_set value default = if value == "" then default else value

abbrev pub new_manifest : String → PluginRequest → PluginManifest
new_manifest id request = record {
  id = id;
  yaml = request.yaml;
  enabled = request.enabled;
  revision = 0;
  created_at = 0;
  updated_at = 0;
}

unfoldable pub upsert_plugin_as :
    (String → Result Manifest)
    → (String → Bool)
    → (ℕ → Call)
    → String
    → Option PluginRequest
    → User
    → Handler (Unit {0})
unfolding parse_manifest
upsert_plugin_as unmarshal template_ok at path_id body user = do
  request ← decoded body
  m ← or_invalid (parse_manifest unmarshal template_ok request.yaml)
  when (not (request.id == "") && not (request.id == m.spec.id))
      (bad_request "body id does not match manifest spec.id")
  when (not (path_id == "") && not (path_id == m.spec.id))
      (bad_request "path id does not match manifest spec.id")
  r ← call_store (
      upsert_plugin_manifest (at 1)
        (new_manifest (first_set path_id (first_set request.id m.spec.id)) request))
  saved ← or_store_error r
  record_activity (at 2) "admin.plugin_upserted" user.id "" "plugin upserted" (
      ("id", text saved.id)
      ∷ ("enabled", flag saved.enabled)
      ∷ ("revision", number saved.revision)
      ∷ [])
  respond 200 (of_manifest saved)

unfoldable pub handle_admin_upsert_plugin :
    (String → Result Manifest)
    → (String → Bool)
    → (ℕ → Call)
    → String
    → String
    → Option PluginRequest
    → Handler (Unit {0})
unfolding upsert_plugin_as
handle_admin_upsert_plugin unmarshal template_ok at authorization path_id body = do
  user ← require_user (at 0) authorization
  require_admin user
  upsert_plugin_as unmarshal template_ok at path_id body user

unfoldable pub delete_plugin_as : (ℕ → Call) → String → User → Handler (Unit {0})
delete_plugin_as at plugin_id user = do
  r ← call_store (delete_plugin_manifest (at 1) plugin_id)
  or_missing r
  record_activity (at 2) "admin.plugin_deleted" user.id "" "plugin deleted"
      (("id", text plugin_id) ∷ [])
  respond 204 empty

unfoldable pub handle_admin_delete_plugin : (ℕ → Call) → String → String → Handler (Unit {0})
unfolding delete_plugin_as
handle_admin_delete_plugin at authorization plugin_id = do
  user ← require_user (at 0) authorization
  require_admin user
  delete_plugin_as at plugin_id user
