-- ===== src/Integrations.antt =====
-- internal/integrations/service.go: what an agent is started with, from the integrations that are
-- switched on for it. The registry, the decryption of a stored secret, the evaluation of a plugin
-- (templates or a sidecar over HTTP) and the lookup of servers in the cluster are a `Service`.
pub mod Runtime
pub mod Summary
use shclop.Prelude.{
  ℕ, suc, ◌+◌, String, Bool, true, false, Option, none, some, List, [], ◌∷◌, ◌++◌, ◌==◌,
  if◌then◌else◌,
}
use shclop.Prelude.Dict.{Dict, insert}
use shclop.Domain.{IntegrationConnection, AgentIntegration}
use shclop.Plugins.Manifest.{Manifest, McpRef}
use shclop.Plugins.Resolver.{ResolvedMcpServer}
use shclop.Plugins.Evaluator.{ValidationResult}
use shclop.Store.Memory.{Err, failure, Result, ok, err, ◌>>=◌, Call, Memory, Method}
use shclop.Store.Connections.{
  get_integration_connection, upsert_integration_connection, delete_integration_connection,
}
use shclop.Store.Bindings.{list_agent_integrations, upsert_agent_integration}

-- The calls that leave the service. `build_env` and `validate` serve both kinds of plugin, given the
-- token and the fields; `resolver` is nil without Kubernetes.
pub record Service : Type 0 where
  pub get : String → Option Manifest
  pub encrypt : String → Result String
  pub decrypt : String → Result String
  pub validate : Manifest → String → Dict String → Result ValidationResult
  pub build_env : Manifest → String → Dict String → Result (Dict String)
  pub resolver : Option (List McpRef → String → Dict String → Result (List ResolvedMcpServer))

pub record AgentRuntimeResolution : Type 0 where
  pub env : Dict String
  pub mcp_servers : List ResolvedMcpServer

-- The errors of the service, by the message's kind.
abbrev pub unregistered : Err
unregistered = failure "plugin unregistered"

abbrev pub no_connection : Err
no_connection = failure "no connection for plugin"

abbrev pub unsupported_kind : Err
unsupported_kind = failure "plugin: unsupported kind"

abbrev pub no_resolver : Err
no_resolver = failure "mcp resolver not configured"

-- An error of a callee is wrapped; only that it is an error is kept here.
abbrev pub or_fail {ℓ} : {A : Type ℓ} → String → Result A → Result A
or_fail text (ok a) = ok a
or_fail text (err e) = err (failure text)

abbrev pub registered : Option Manifest → Result Manifest
registered none = err unregistered
registered (some m) = ok m

-- `for k, v := range pluginEnv { env[k] = v }`
unfoldable pub merge_env : Dict String → Dict String → Dict String
merge_env env [] = env
merge_env env ((k, v) ∷ rest) = merge_env (insert k v env) rest

-- The `switch` on the kind of plugin: both cases evaluate, any other kind is an error.
abbrev pub supported {ℓ} : {A : Type ℓ} → Manifest → Result A → Result A
supported m r =
    if m.spec.plugin_kind == "http_template"
    then r
    else if m.spec.plugin_kind == "sidecar"
    then r
    else err unsupported_kind

abbrev pub mcp_servers :
    Service → Manifest → String → Dict String → List McpRef → Result (List ResolvedMcpServer)
mcp_servers svc m token vars [] = ok []
mcp_servers svc m token vars (r ∷ rs) = elim svc.resolver [
  | none ↦ err no_resolver
  | some resolve ↦ or_fail "resolve MCP servers" (resolve (r ∷ rs) token vars)
]

-- One turn of the loop, for an integration that is enabled.
unfoldable pub resolve_one :
    Service
    → Call
    → String
    → AgentIntegration
    → Memory
    → Result (Dict String × List ResolvedMcpServer)
resolve_one svc c user_id ai m = do
  manifest ← registered (svc.get ai.provider_id)
  conn ←
      or_fail "no connection for plugin" (get_integration_connection c user_id ai.provider_id m).0
  token ← or_fail "decrypt token" (svc.decrypt conn.secret)
  let vars = ("token", token) ∷ []
  env ← supported manifest (or_fail "build env" (svc.build_env manifest token vars))
  servers ← mcp_servers svc manifest token vars manifest.spec.contributions.mcp_servers
  ok (env, servers)

-- The loop, its i-th call of the store finding what `at i` says.
unfoldable pub resolve_all :
    Service
    → (ℕ → Call)
    → ℕ
    → String
    → List AgentIntegration
    → Memory
    → AgentRuntimeResolution
    → Result AgentRuntimeResolution
resolve_all svc at i user_id [] m acc = ok acc
resolve_all svc at i user_id (ai ∷ ais) m acc = elim ai.enabled [
  | false ↦ resolve_all svc at i user_id ais m acc
  | true ↦ elim (resolve_one svc (at i) user_id ai m) [
    | err e ↦ err e
    | ok (env, servers) ↦
        resolve_all svc at (suc i) user_id ais m
          (record { env = merge_env acc.env env; mcp_servers = acc.mcp_servers ++ servers })
  ]
]

unfoldable pub resolve_agent_runtime :
    Service → (ℕ → Call) → String → String → Memory → Result AgentRuntimeResolution
unfolding resolve_all
resolve_agent_runtime svc at user_id agent_id m = do
  ais ← or_fail "list agent integrations" (list_agent_integrations (at 0) agent_id m).0
  resolve_all svc at 1 user_id ais m (record { env = []; mcp_servers = [] })

-- `Connect`: the plugin validates the fields, and only then is the credential stored, encrypted.
abbrev new_connection : String → String → ValidationResult → String → IntegrationConnection
new_connection user_id provider_id result secret = record {
  provider_id = provider_id;
  user_id = user_id;
  scope = "";
  scope_id = "";
  external_account_id = result.external_account_id;
  external_login = result.external_login;
  account_type = result.account_type;
  status = "connected";
  secret = secret;
  revision = 0;
  updated_at = 0;
  created_at = 0;
}

abbrev pub prepare : Service → String → String → String → Dict String → Result IntegrationConnection
prepare svc user_id provider_id token fields = do
  manifest ← registered (svc.get provider_id)
  result ← supported manifest (or_fail "validation failed" (svc.validate manifest token fields))
  secret ← or_fail "encrypt token" (svc.encrypt token)
  ok (new_connection user_id provider_id result secret)

abbrev pub save_connection : Call → Result IntegrationConnection → Method IntegrationConnection
save_connection c (ok conn) m = upsert_integration_connection c conn m
save_connection c (err e) m = (err e, m)

-- `token` is `fields["token"]`.
unfoldable pub connect :
    Service → Call → String → String → String → Dict String → Method IntegrationConnection
connect svc c user_id provider_id token fields =
    save_connection c (prepare svc user_id provider_id token fields)

unfoldable pub disconnect : Call → String → String → Method (Unit {0})
disconnect c user_id provider_id m = delete_integration_connection c user_id provider_id m

abbrev status_of : Bool → String
status_of true = "active"
status_of false = "disabled"

unfoldable pub toggle_agent_integration : Call → String → String → Bool → Method AgentIntegration
toggle_agent_integration c agent_id provider_id enabled m =
    upsert_agent_integration c agent_id provider_id enabled 0 (status_of enabled) m
