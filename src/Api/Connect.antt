-- ===== src/Api/Connect.antt =====
-- internal/api/server.go: the handlers of a user's connections, and of the integrations of an agent.
pub mod Stored
pub mod Switched
use Prim.Native.String.{◌++◌ as append}
use shclop.Prelude.{
  ℕ, ◌+◌, String, Bool, true, false, not, ◌&&◌, Option, none, some, List, [], ◌∷◌, ◌==◌, is_none,
  if◌then◌else◌,
}
use shclop.Prelude.Dict.{Dict, lookup, insert}
use shclop.Domain.{User, Agent, IntegrationConnection, AgentIntegration}
use shclop.Store.Memory.{Result, ok, err, Call, error_text}
use shclop.Store.Settings.{or_empty}
use shclop.Store.Connections.{get_integration_connection}
use shclop.Integrations.Summary.{build_summary}
use shclop.Plugins.Manifest.{Manifest}
use shclop.Integrations.{Service, connect, disconnect, toggle_agent_integration}
use shclop.Api.Server.{
  ShownConnection, ShownBinding, text, flag, plain, status_text, of_connection, of_binding,
  of_summary, Handler, ◌>>=◌, ◌>>◌, pure, respond, bad_request, store_error, when, call_store,
  or_store_error, record_activity,
}
use shclop.Api.Access.{require_user, own_agent}
use shclop.Api.Agents.{decoded}

-- A `fields` that is missing from the body is the empty map.
pub record ConnectRequest : Type 0 where
  pub token : String
  pub fields : Dict String

-- The older form of the body has the token outside `fields`.
abbrev pub fields_of : ConnectRequest → Dict String
fields_of request =
    if not (request.token == "") && is_none (lookup "token" request.fields)
    then insert "token" request.token request.fields
    else request.fields

abbrev is_empty : Dict String → Bool
is_empty [] = true
is_empty (entry ∷ rest) = false

-- Metadata only, never the secret.
abbrev pub shown_connection : IntegrationConnection → ShownConnection
shown_connection conn = record {
  provider_id = conn.provider_id;
  external_account_id = conn.external_account_id;
  external_login = conn.external_login;
  account_type = conn.account_type;
  status = conn.status;
  revision = conn.revision;
}

abbrev pub shown_binding : AgentIntegration → ShownBinding
shown_binding ai = record {
  agent_id = ai.agent_id;
  provider_id = ai.provider_id;
  enabled = ai.enabled;
  status = ai.status;
  revision = ai.revision;
}

abbrev connected :
    (ℕ → Call) → User → String → Result IntegrationConnection → Handler IntegrationConnection
connected at user provider_id (ok conn) = pure conn
connected at user provider_id (err e) = do
  record_activity (at 2) "integration.connect_failed" user.id "" "integration connection failed"
      (("provider", text provider_id) ∷ ("error", text (error_text e)) ∷ [])
  bad_request (append "token validation failed: " (error_text e))

-- `BuildSummary` reads the store and returns no error.
unfoldable pub summarize :
    Service → List Manifest → (ℕ → ℕ → Call) → Call → User → Handler (Unit {0})
summarize svc manifests at last user s =
    respond 200 (of_summary (build_summary svc manifests at last user.id s.store)) s

unfoldable pub handle_list_integrations :
    Service → List Manifest → Call → (ℕ → ℕ → Call) → Call → String → Handler (Unit {0})
handle_list_integrations svc manifests first at last authorization = do
  user ← require_user first authorization
  summarize svc manifests at last user

unfoldable pub connect_as :
    Service → (ℕ → Call) → String → Option ConnectRequest → User → Handler (Unit {0})
connect_as svc at provider_id body user = do
  request ← decoded body
  let fields = fields_of request
  when (is_empty fields) (bad_request "fields or token is required")
  r ← call_store (connect svc (at 1) user.id provider_id (or_empty (lookup "token" fields)) fields)
  conn ← connected at user provider_id r
  record_activity (at 3) "integration.connected" user.id "" "integration connected"
      (("provider", text provider_id) ∷ ("external_login", text conn.external_login) ∷ [])
  respond 200 (of_connection (shown_connection conn))

unfoldable pub handle_connect_integration :
    Service → (ℕ → Call) → String → String → Option ConnectRequest → Handler (Unit {0})
handle_connect_integration svc at authorization provider_id body = do
  user ← require_user (at 0) authorization
  connect_as svc at provider_id body user

abbrev disconnected : (ℕ → Call) → User → String → Result (Unit {0}) → Handler (Unit {0})
disconnected at user provider_id (ok x) = pure tt
disconnected at user provider_id (err e) = do
  record_activity (at 2) "integration.disconnect_failed" user.id "" "integration disconnect failed"
      (("provider", text provider_id) ∷ ("error", text (error_text e)) ∷ [])
  store_error

unfoldable pub handle_disconnect_integration : (ℕ → Call) → String → String → Handler (Unit {0})
handle_disconnect_integration at authorization provider_id = do
  user ← require_user (at 0) authorization
  r ← call_store (disconnect (at 1) user.id provider_id)
  disconnected at user provider_id r
  record_activity (at 3) "integration.disconnected" user.id "" "integration disconnected"
      (("provider", text provider_id) ∷ [])
  respond 200 (status_text "disconnected")

abbrev or_not_connected : Result IntegrationConnection → Handler (Unit {0})
or_not_connected (ok conn) = pure tt
or_not_connected (err e) = bad_request "no connection for provider, connect first"

-- The owner of the agent must have a connection, whoever asks.
unfoldable pub toggle_as :
    (ℕ → Call) → String → String → Option Bool → User → Agent → Handler (Unit {0})
toggle_as at agent_id provider_id body user agent = do
  r ← call_store (get_integration_connection (at 2) agent.owner_user_id provider_id)
  or_not_connected r
  enabled ← decoded body
  q ← call_store (toggle_agent_integration (at 3) agent_id provider_id enabled)
  ai ← or_store_error q
  record_activity (at 4)
      (if enabled then "integration.agent_enabled" else "integration.agent_disabled") user.id
      agent_id (if enabled then "agent integration enabled" else "agent integration disabled")
      (("provider", text provider_id) ∷ ("enabled", flag enabled) ∷ [])
  respond 200 (of_binding (shown_binding ai))

unfoldable pub handle_agent_integration :
    (ℕ → Call) → String → String → String → Option Bool → Handler (Unit {0})
handle_agent_integration at authorization agent_id provider_id body = do
  user ← require_user (at 0) authorization
  agent ← own_agent (at 1) user agent_id
  toggle_as at agent_id provider_id body user agent
