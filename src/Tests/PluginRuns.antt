-- ===== src/Tests/PluginRuns.antt =====
-- internal/plugins/manifest.go, internal/integrations/service.go: a manifest is validated, and the
-- integrations of an agent are resolved.
use shclop.Plugins.Resolver.Named.{AreServers, resolve-AreServers}
use shclop.Plugins.Resolver.{McpResolver, ResolvedMcpServer}
use shclop.Prelude.Dict.{Dict}
use shclop.Plugins.Evaluator.Accepted.{validate_http_sound}
use shclop.Plugins.Evaluator.{
  result_of, has_status, method_of, render_all, Json, HttpReply, ValidationResult, no_member,
  member, json_other, json_object, TemplateContext, TemplateLibrary,
}
use shclop.Plugins.Merged.{Resolved, get, rebuild, new_merged}
use shclop.Plugins.Merged.Precedence.{first_source, rebuild-refines}
use shclop.Tests.Data.{github_plugin, every_template, populated, plugins, deps}
use shclop.Integrations.Runtime.{resolve_agent_runtime_sound, AllUsable}
use shclop.Integrations.{resolve_agent_runtime}
use shclop.Plugins.Manifest.Rules.{IsValid}
use shclop.Plugins.Manifest.Valid.{validate_iff}
use shclop.Plugins.Manifest.{McpRef, HttpValidate, ManifestSpec, with_scopes, validate}
use shclop.Store.Bindings.{list_agent_integrations}
use shclop.Store.Memory.{ok}
use shclop.Domain.{AgentIntegration}
use shclop.Prelude.{true, String, ◌≡◌, refl, none, some, ◌↔◌, List, [], ◌∷◌}

validate_iff_example :
    ((validate every_template github_plugin).0 ≡ none)
    ↔ IsValid every_template (with_scopes github_plugin)
validate_iff_example = validate_iff every_template github_plugin

resolve_agent_runtime_sound_example :
    (ais : List AgentIntegration) × ((list_agent_integrations (deps.at 0) "a1" populated).0
      ≡ ok ais)
    × AllUsable plugins deps.at 1 "u1" ais populated
unfolding resolve_agent_runtime list_agent_integrations shclop.Prelude.Lists.select
    shclop.Integrations.resolve_one shclop.Store.Connections.get_integration_connection
    shclop.Prelude.Lists.find_first shclop.Integrations.merge_env shclop.Prelude.Dict.insert
resolve_agent_runtime_sound_example =
    resolve_agent_runtime_sound plugins deps.at "u1" "a1" populated
      {r = record { env = ("GITHUB_TOKEN", "plain") ∷ []; mcp_servers = [] }} refl

abbrev github_from : String → Resolved
github_from source = record { manifest = github_plugin; source = source }

-- The database and the files both have the plugin.
abbrev both_sources : List (List Resolved)
both_sources = (github_from "db" ∷ []) ∷ (github_from "file" ∷ []) ∷ []

abbrev id_hash : ManifestSpec → String
id_hash spec = spec.id

rebuild-refines_example :
    get "github" (rebuild id_hash both_sources new_merged).1 ≡ first_source "github" both_sources
rebuild-refines_example = rebuild-refines id_hash both_sources new_merged "github"

abbrev library : TemplateLibrary
library = record {
  render = λ name text vars. ok text;
  timeout_ok = λ text. true;
  send = λ request. ok (record { status = 200; body = "{}" });
  unmarshal = λ text. ok (json_object text (member "login" (json_other "octocat") no_member));
  snippet = λ text. text;
}

abbrev vars : TemplateContext
vars = record { token = "t"; fields = [] }

abbrev octocat : ValidationResult
octocat = record { external_account_id = ""; external_login = "octocat"; account_type = "" }

validate_http_sound_example :
    (h : HttpValidate) × (url : String) × (headers : Dict String) × (reply : HttpReply)
    × (body : Json) × (github_plugin.spec.plugin_kind ≡ "http_template")
    × (github_plugin.spec.http ≡ some h)
    × (library.render "url" h.url vars ≡ ok url)
    × (render_all library "header:" vars h.headers ≡ ok headers)
    × (library.send (record { method = method_of h.method; url = url; headers = headers })
        ≡ ok reply)
    × (has_status reply.status h.success_status ≡ true)
    × (library.unmarshal reply.body ≡ ok body)
    × (octocat ≡ result_of h.extract body)
unfolding shclop.Plugins.Evaluator.validate_http shclop.Prelude.Text.strip_prefix
validate_http_sound_example = validate_http_sound library github_plugin vars {result = octocat} refl

abbrev cluster : McpResolver
cluster = record {
  lister = λ name. ok (record { name = name; port = 80; service_url = "http://files" });
  namespace = "agents";
  show_number = λ n. "80";
}

abbrev files_ref : McpRef
files_ref = record { name = "files"; ref = "files"; external = none; env_from = [] }

abbrev files_server : ResolvedMcpServer
files_server = record { name = "files"; url = "http://files"; headers = []; env = [] }

resolve-AreServers_example : AreServers cluster library vars (files_ref ∷ []) (files_server ∷ [])
unfolding shclop.Plugins.Resolver.resolve
resolve-AreServers_example =
    resolve-AreServers cluster library (files_ref ∷ []) vars {servers = files_server ∷ []} refl
