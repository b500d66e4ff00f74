-- ===== src/Store/Connections.antt =====
-- internal/store/store.go: the connections of users to integration providers.
pub mod Lookup
use shclop.Prelude.{
  false, ℕ, String, Bool, not, ◌&&◌, ◌||◌, Option, none, some, List, [], ◌∷◌, ◌++◌, ◌==◌, eqb,
  if◌then◌else◌,
}
use shclop.Prelude.Int64.{inc_int64, lt_int64}
use shclop.Prelude.Lists.{find_first, update_first, remove_first, select}
use shclop.Domain.{IntegrationConnection, AgentIntegration}
use shclop.Store.Memory.{not_found, ok, err, Call, Method, with_ctx}
use shclop.Store.Users.{found}

abbrev pub connection_of : String → String → IntegrationConnection → Bool
connection_of user_id provider_id x = x.user_id == user_id && x.provider_id == provider_id

-- The defaults of `Scope` and `ScopeID`.
abbrev pub with_scope : IntegrationConnection → IntegrationConnection
with_scope x = record x {
  scope = if x.scope == "" then "user" else x.scope;
  scope_id = if x.scope_id == "" then x.user_id else x.scope_id;
}

-- One more than the stored revision, or the given one if that is larger.
abbrev pub next_revision : ℕ → ℕ → ℕ
next_revision given old = if lt_int64 (inc_int64 old) given then given else inc_int64 old

abbrev pub merge_connection :
    ℕ → IntegrationConnection → IntegrationConnection → IntegrationConnection
merge_connection now x old = record old {
  external_account_id = x.external_account_id;
  external_login = x.external_login;
  account_type = x.account_type;
  status = x.status;
  secret = x.secret;
  scope = x.scope;
  scope_id = x.scope_id;
  revision = next_revision x.revision old.revision;
  updated_at = now;
}

abbrev pub fresh_connection : ℕ → IntegrationConnection → IntegrationConnection
fresh_connection now x = record x {
  revision = if eqb x.revision 0 then 1 else x.revision;
  created_at = now;
  updated_at = now;
}

abbrev store_connection :
    ℕ → IntegrationConnection → Option IntegrationConnection → Method IntegrationConnection
store_connection now x none m =
    let conn = fresh_connection now x in
    (ok conn, record m { integrations = m.integrations ++ conn ∷ [] })
store_connection now x (some old) m = (
  ok (merge_connection now x old),
  record m {
    integrations =
        update_first (connection_of x.user_id x.provider_id) (merge_connection now x)
          m.integrations;
  },
)

unfoldable pub upsert_integration_connection :
    Call → IntegrationConnection → Method IntegrationConnection
upsert_integration_connection c connection = with_ctx c λ m.
    let x = with_scope connection in
    store_connection c.now x (find_first (connection_of x.user_id x.provider_id) m.integrations) m

unfoldable pub get_integration_connection : Call → String → String → Method IntegrationConnection
get_integration_connection c user_id provider_id =
    with_ctx c λ m. (found (find_first (connection_of user_id provider_id) m.integrations), m)

-- `seen` of the loop: a provider is listed once.
unfoldable pub contains : String → List String → Bool
contains k [] = false
contains k (j ∷ js) = j == k || contains k js

abbrev pub user_scoped : String → IntegrationConnection → Bool
user_scoped user_id x = x.user_id == user_id && (x.scope == "" || x.scope == "user")

unfoldable pub collect_provider_ids :
    String → List String → List IntegrationConnection → List String
collect_provider_ids user_id out [] = out
collect_provider_ids user_id out (x ∷ xs) =
    collect_provider_ids user_id
      (if user_scoped user_id x && not (contains x.provider_id out)
        then out ++ x.provider_id ∷ []
        else out)
      xs

unfoldable pub list_user_integration_provider_ids : Call → String → Method (List String)
unfolding contains collect_provider_ids
list_user_integration_provider_ids c user_id =
    with_ctx c λ m. (ok (collect_provider_ids user_id [] m.integrations), m)

abbrev pub of_another_provider : String → AgentIntegration → Bool
of_another_provider provider_id ai = not (ai.provider_id == provider_id)

abbrev drop_connection : String → String → Option IntegrationConnection → Method (Unit {0})
drop_connection user_id provider_id none m = (err not_found, m)
drop_connection user_id provider_id (some x) m = (
  ok tt,
  record m {
    integrations = remove_first (connection_of user_id provider_id) m.integrations;
    agent_integrations = select (of_another_provider provider_id) m.agent_integrations;
  },
)

unfoldable pub delete_integration_connection : Call → String → String → Method (Unit {0})
delete_integration_connection c user_id provider_id = with_ctx c λ m.
    drop_connection user_id provider_id
      (find_first (connection_of user_id provider_id) m.integrations) m
