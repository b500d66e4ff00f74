-- ===== src/Integrations/Summary.antt =====
-- internal/integrations/service.go: `BuildSummary`, what a user is shown of the providers. `manifests` is what the
-- registry lists and `svc.get` what it has under an id. The j-th call of the store for the i-th
-- manifest has its own `at i j`, and `last` is that of the call after the loop.
pub mod Complete
use shclop.Prelude.{
  ℕ, suc, String, Bool, true, false, Option, none, some, is_none, List, [], ◌∷◌, ◌++◌, map, ◌==◌,
  if◌then◌else◌,
}
use shclop.Domain.{
  Agent, IntegrationConnection, AgentIntegration, FormFieldSummary, McpServerSummary,
  ConnectionMetadata, AgentBindingSummary, ProviderSummary,
}
use shclop.Plugins.Manifest.{Manifest, ManifestSpec, FormField, McpRef}
use shclop.Store.Memory.{Result, ok, err, Call, Memory}
use shclop.Store.Agents.{list_agents}
use shclop.Store.Bindings.{get_agent_integration}
use shclop.Store.Connections.{get_integration_connection, list_user_integration_provider_ids}
use shclop.Integrations.{Service}

abbrev to_mcp_server_summary : McpRef → McpServerSummary
to_mcp_server_summary ref = record {
  name = ref.name;
  kind = if ref.ref == "" then "external" else "ref";
}

abbrev to_form_field_summary : FormField → FormFieldSummary
to_form_field_summary f = record {
  name = f.name;
  label = f.label;
  secret = f.secret;
  placeholder = f.placeholder;
  help_url = f.help_url;
}

abbrev metadata : IntegrationConnection → ConnectionMetadata
metadata conn = record {
  external_account_id = conn.external_account_id;
  external_login = conn.external_login;
  account_type = conn.account_type;
  status = conn.status;
  revision = conn.revision;
}

abbrev binding_summary : AgentIntegration → AgentBindingSummary
binding_summary ai = record {
  agent_id = ai.agent_id;
  enabled = ai.enabled;
  revision = ai.revision;
  status = ai.status;
}

abbrev or_skip : Result AgentIntegration → List AgentBindingSummary → List AgentBindingSummary
or_skip (ok ai) later = binding_summary ai ∷ later
or_skip (err e) later = later

unfoldable pub bindings_of :
    (ℕ → Call) → ℕ → String → List Agent → Memory → List AgentBindingSummary
bindings_of at j provider_id [] m = []
bindings_of at j provider_id (agent ∷ agents) m =
    or_skip (get_agent_integration (at j) agent.id provider_id m).0
      (bindings_of at (suc j) provider_id agents m)

abbrev bindings_of_all :
    (ℕ → Call) → String → Result (List Agent) → Memory → List AgentBindingSummary
bindings_of_all at provider_id (ok agents) m = bindings_of at 2 provider_id agents m
bindings_of_all at provider_id (err e) m = []

unfoldable pub build_agent_bindings :
    (ℕ → Call) → String → String → Memory → List AgentBindingSummary
unfolding bindings_of
build_agent_bindings at user_id provider_id m =
    bindings_of_all at provider_id (list_agents (at 1) user_id m).0 m

abbrev connection_of_result : Result IntegrationConnection → Option ConnectionMetadata
connection_of_result (ok conn) = some (metadata conn)
connection_of_result (err e) = none

abbrev pub is_ok : Result IntegrationConnection → Bool
is_ok (ok conn) = true
is_ok (err e) = false

unfoldable pub provider_summary : (ℕ → Call) → String → ManifestSpec → Memory → ProviderSummary
unfolding build_agent_bindings
provider_summary at user_id spec m =
    let conn = (get_integration_connection (at 0) user_id spec.id m).0 in
    record {
      provider_id = spec.id;
      name = spec.display_name;
      connected = is_ok conn;
      connection = connection_of_result conn;
      agent_bindings = build_agent_bindings at user_id spec.id m;
      auth_kind = spec.auth.kind;
      form_fields = map to_form_field_summary spec.auth.fields;
      mcp_servers = map to_mcp_server_summary spec.contributions.mcp_servers;
      description = spec.description;
    }

unfoldable pub summaries :
    (ℕ → ℕ → Call) → ℕ → String → List Manifest → Memory → List ProviderSummary
unfolding provider_summary
summaries at i user_id [] m = []
summaries at i user_id (manifest ∷ manifests) m =
    provider_summary (at i) user_id manifest.spec m ∷ summaries at (suc i) user_id manifests m

abbrev pub orphaned : String → ProviderSummary
orphaned provider_id = record {
  provider_id = provider_id;
  name = provider_id;
  connected = true;
  connection = none;
  agent_bindings = [];
  auth_kind = "unknown";
  form_fields = [];
  mcp_servers = [];
  description = "Provider is no longer registered. Disconnect available.";
}

-- Credentials of providers that the registry does not have any more.
unfoldable pub orphans : Service → List String → List ProviderSummary
orphans svc [] = []
orphans svc (provider_id ∷ rest) =
    if is_none (svc.get provider_id)
    then orphaned provider_id ∷ orphans svc rest
    else orphans svc rest

abbrev pub orphans_of : Service → Result (List String) → List ProviderSummary
orphans_of svc (ok provider_ids) = orphans svc provider_ids
orphans_of svc (err e) = []

-- It returns no error.
unfoldable pub build_summary :
    Service → List Manifest → (ℕ → ℕ → Call) → Call → String → Memory → List ProviderSummary
unfolding summaries orphans
build_summary svc manifests at last user_id m =
    summaries at 0 user_id manifests m
    ++ orphans_of svc (list_user_integration_provider_ids last user_id m).0
