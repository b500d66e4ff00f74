-- ===== src/Api/Server.antt =====
-- internal/api/server.go: the server's state, and a handler as an action that may answer early. The
-- i-th call of the store in a handler finds outside what `at i` says. Metrics and logs are left out.
use shclop.Prelude.{
  ◌≡◌, refl, ◌⊎◌, inl, inr, ℕ, String, Bool, true, false, ◌&&◌, not, Option, none, some, List, [],
  ◌∷◌, ◌++◌, ◌==◌, ◌-◌, ltb, if◌then◌else◌,
}
use shclop.Prelude.Lists.{length, drop}
use shclop.Prelude.Dict.{Dict, lookup, insert, remove}
use shclop.Domain.{
  UserIdentity, PluginManifest, IdpProviderSummary, AuthSettings, User, Agent, LlmModel,
  LlmGatewaySettings, ProviderSummary, AdminOverview,
}
use shclop.Store.Memory.{not_found, Result, ok, err, Call, Memory, Method}
use shclop.Auth.{Sessions}
use shclop.Identity.Registry.{IdpRegistry}
use shclop.Gateway.{RuntimeRegistry}

pub data Detail : Type 0 where
  text : String → Detail
  flag : Bool → Detail
  number : ℕ → Detail

pub record ActivityEntry : Type 0 where
  pub time : ℕ
  pub kind : String
  pub actor_id : String
  pub agent_id : String
  pub message : String
  pub details : Dict Detail

pub record Server : Type 0 where
  pub store : Memory
  pub sessions : Sessions
  pub tokens : Dict String
  pub activity : List ActivityEntry
  pub idp : IdpRegistry
  pub runtime : RuntimeRegistry
  pub bootstrapped : Bool

-- What an answer shows of a connection, and of an integration of an agent.
pub record ShownConnection : Type 0 where
  pub provider_id : String
  pub external_account_id : String
  pub external_login : String
  pub account_type : String
  pub status : String
  pub revision : ℕ

pub record ShownBinding : Type 0 where
  pub agent_id : String
  pub provider_id : String
  pub enabled : Bool
  pub status : String
  pub revision : ℕ

pub data Body : Type 0 where
  plain : String → Body
  json_error : String → Body
  of_user : User → Body
  of_users : List User → Body
  of_agent : Agent → Body
  of_agents : List Agent → Body
  of_model : LlmModel → Body
  of_models : List LlmModel → Body
  of_settings : LlmGatewaySettings → Body
  of_connection : ShownConnection → Body
  of_binding : ShownBinding → Body
  of_activity : List ActivityEntry → Body
  status_text : String → Body
  redirect : String → Dict String → Body
  of_session : User → String → Body
  of_identities : List UserIdentity → Body
  of_providers : List IdpProviderSummary → Body
  of_manifest : PluginManifest → Body
  of_manifests : List PluginManifest → Body
  of_auth_settings : AuthSettings → Body
  of_overview : AdminOverview → Body
  of_summary : List ProviderSummary → Body
  empty : Body

pub record Response : Type 0 where
  pub status : ℕ
  pub body : Body

-- A step of a handler goes on with a value, or has answered.
pub data Flow {ℓ} (A : Type ℓ) : Type ℓ where
  go : A → Flow A
  done : Response → Flow A

-- To split on a computed step and keep the equation.
pub Flow-cases {ℓ} :
    {A : Type ℓ} (f : Flow A) → ((a : A) × (f ≡ go a)) ⊎ ((r : Response) × (f ≡ done r))
Flow-cases (go a) = inl (a, refl)
Flow-cases (done r) = inr (r, refl)

abbrev pub Handler {ℓ} : Type ℓ → Type ℓ
Handler A = Server → Flow A × Server

abbrev pub continue {ℓ κ} : {A : Type ℓ} {B : Type κ} → Flow A → (A → Handler B) → Handler B
continue (go a) f s = f a s
continue (done r) f s = (done r, s)

infixl 5 ◌>>=◌ ◌>>◌
abbrev pub ◌>>=◌ {ℓ κ} : {A : Type ℓ} {B : Type κ} → Handler A → (A → Handler B) → Handler B
◌>>=◌ m f s = continue (m s).0 f (m s).1

abbrev pub ◌>>◌ {ℓ} : {B : Type ℓ} → Handler (Unit {0}) → Handler B → Handler B
m >> k = m >>= λ _. k

abbrev pub pure {ℓ} : {A : Type ℓ} → A → Handler A
pure a s = (go a, s)

-- `writeJSON` and `http.Error`
abbrev pub respond {ℓ} : {A : Type ℓ} → ℕ → Body → Handler A
respond status body s = (done (record { status = status; body = body }), s)

abbrev pub unauthorized {ℓ} : {A : Type ℓ} → Handler A
unauthorized = respond 401 (plain "unauthorized")

abbrev pub forbidden {ℓ} : {A : Type ℓ} → Handler A
forbidden = respond 403 (plain "forbidden")

-- `http.NotFound`
abbrev pub missing {ℓ} : {A : Type ℓ} → Handler A
missing = respond 404 (plain "404 page not found")

abbrev pub bad_request {ℓ} : {A : Type ℓ} → String → Handler A
bad_request message = respond 400 (plain message)

-- `writeStoreError`
abbrev pub store_error {ℓ} : {A : Type ℓ} → Handler A
store_error = respond 500 (plain "internal server error")

abbrev pub when : Bool → Handler (Unit {0}) → Handler (Unit {0})
when true k = k
when false k = pure tt

abbrev pub call_store {ℓ} : {A : Type ℓ} → Method A → Handler (Result A)
call_store f s = let (r, m) = f s.store in (go r, record s { store = m })

-- `if err != nil { s.writeStoreError(w, err); return }`
abbrev pub or_store_error {ℓ} : {A : Type ℓ} → Result A → Handler A
or_store_error (ok a) = pure a
or_store_error (err e) = store_error

-- The same, after `errors.Is(err, store.ErrNotFound)`.
abbrev pub or_missing {ℓ} : {A : Type ℓ} → Result A → Handler A
or_missing (ok a) = pure a
or_missing (err not_found) = missing
or_missing (err e) = store_error

-- The log of activity keeps its last 200 entries.
unfoldable pub trim_activity : List ActivityEntry → List ActivityEntry
trim_activity entries =
    if ltb 200 (length entries) then drop (length entries - 200) entries else entries

unfoldable pub record_activity :
    Call → String → String → String → String → Dict Detail → Handler (Unit {0})
record_activity c kind actor_id agent_id message details s =
    let entry : ActivityEntry = record {
      time = c.now;
      kind = kind;
      actor_id = actor_id;
      agent_id = agent_id;
      message = message;
      details = details;
    } in
    (go tt, record s { activity = trim_activity (s.activity ++ entry ∷ []) })

-- `s.tokens[agentID] = secret` and `delete(s.tokens, agentID)`
abbrev pub set_token : String → String → Handler (Unit {0})
set_token agent_id secret s = (go tt, record s { tokens = insert agent_id secret s.tokens })

abbrev pub drop_token : String → Handler (Unit {0})
drop_token agent_id s = (go tt, record s { tokens = remove agent_id s.tokens })

abbrev same_secret : String → Option String → Bool
same_secret secret none = false
same_secret secret (some stored) = not (stored == "") && stored == secret

unfoldable pub valid_runtime_token : String → String → Server → Bool
valid_runtime_token agent_id secret s = same_secret secret (lookup agent_id s.tokens)
