-- ===== src/Store/Manifests.antt =====
-- internal/store/store.go: the plugin manifests. The order in which Go walks the map is not fixed;
-- the lists here are in the order in which the keys were first stored.
use shclop.Prelude.{ℕ, String, Bool, not, ◌&&◌, Option, none, some, List, map}
use shclop.Prelude.Int64.{inc_int64}
use shclop.Prelude.Lists.{select}
use shclop.Prelude.Dict.{lookup, insert, remove}
use shclop.Domain.{PluginManifest}
use shclop.Store.Memory.{not_found, ok, err, Call, Method, with_ctx}
use shclop.Store.Users.{found}

abbrev pub is_listed : Bool → PluginManifest → Bool
is_listed enabled_only pm = not (enabled_only && not pm.enabled)

unfoldable pub list_plugin_manifests : Call → Bool → Method (List PluginManifest)
list_plugin_manifests c enabled_only =
    with_ctx c λ m. (ok (select (is_listed enabled_only) (map (λ e. e.1) m.plugin_manifests)), m)

unfoldable pub get_plugin_manifest : Call → String → Method PluginManifest
get_plugin_manifest c id = with_ctx c λ m. (found (lookup id m.plugin_manifests), m)

-- What `UpsertPluginManifest` stores, given the entry that the id has.
abbrev pub merge_manifest : ℕ → PluginManifest → Option PluginManifest → PluginManifest
merge_manifest now manifest none = record manifest {
  revision = 1;
  created_at = now;
  updated_at = now;
}
merge_manifest now manifest (some existing) = record existing {
  yaml = manifest.yaml;
  enabled = manifest.enabled;
  revision = inc_int64 existing.revision;
  updated_at = now;
}

unfoldable pub upsert_plugin_manifest : Call → PluginManifest → Method PluginManifest
upsert_plugin_manifest c manifest = with_ctx c λ m.
    let stored = merge_manifest c.now manifest (lookup manifest.id m.plugin_manifests) in
    (ok stored, record m { plugin_manifests = insert manifest.id stored m.plugin_manifests })

abbrev drop_manifest : String → Option PluginManifest → Method (Unit {0})
drop_manifest id none m = (err not_found, m)
drop_manifest id (some pm) m = (ok tt, record m { plugin_manifests = remove id m.plugin_manifests })

unfoldable pub delete_plugin_manifest : Call → String → Method (Unit {0})
delete_plugin_manifest c id = with_ctx c λ m. drop_manifest id (lookup id m.plugin_manifests) m
