-- ===== src/Api/Login.antt =====
-- internal/api/server.go: the first administrator, the local login, and what any user may ask. Hashes and random
-- texts are arguments.
use Prim.Native.Char.{code}
use Prim.Native.String.{◌++◌ as append, [] as empty, ◌∷◌ as push}
use shclop.Prelude.{
  eqb, ℕ, String, Bool, true, false, not, ◌&&◌, ◌||◌, Option, List, [], ◌∷◌, ◌==◌, if◌then◌else◌,
}
use shclop.Prelude.Lists.{select}
use shclop.Domain.{User, LlmModel, LlmGatewaySettings}
use shclop.Store.Memory.{failure, Result, ok, err, Call, Memory}
use shclop.Store.Users.{bootstrap_admin, set_password_hash}
use shclop.Store.Models.{list_llm_models, get_llm_gateway_settings, upsert_llm_gateway_settings}
use shclop.Auth.{CompareHash, login}
use shclop.Api.Server.{
  text, plain, of_user, of_models, of_session, go, Handler, ◌>>=◌, ◌>>◌, pure, respond,
  unauthorized, when, call_store, or_store_error, record_activity,
}
use shclop.Api.Access.{require_user}
use shclop.Api.Agents.{decoded}

-- The password is that of the environment.
pub record BootstrapConfig : Type 0 where
  pub username : String
  pub password : String
  pub gateway_base_url : String
  pub gateway_secret_name : String
  pub gateway_secret_key : String

abbrev or_admin : String → String
or_admin value = if value == "" then "admin" else value

abbrev seed_gateway : BootstrapConfig → Call → Memory → Memory
seed_gateway cfg c m =
    if not (cfg.gateway_base_url == "")
      || not (cfg.gateway_secret_name == "")
      || not (cfg.gateway_secret_key == "")
    then (upsert_llm_gateway_settings c (not (cfg.gateway_base_url == "")) cfg.gateway_base_url
        cfg.gateway_secret_name cfg.gateway_secret_key m).1
    else m

abbrev admin_created :
    BootstrapConfig → Call → String → String → Result (Unit {0}) × Memory → Memory
admin_created cfg c username hash (err e, m) = m
admin_created cfg c username hash (ok u, m) =
    (set_password_hash username hash (seed_gateway cfg c m)).1

abbrev admin_hashed : BootstrapConfig → (ℕ → Call) → Result String → Memory → Memory
admin_hashed cfg at (err e) m = m
admin_hashed cfg at (ok hash) m =
    admin_created cfg (at 11) (or_admin cfg.username) hash
      (bootstrap_admin (at 10) (or_admin cfg.username) hash m)

-- Once: later calls, and those after one that failed, do nothing.
unfoldable pub bootstrap :
    (String → Result String) → BootstrapConfig → (ℕ → Call) → Handler (Unit {0})
bootstrap hash_password cfg at s = if s.bootstrapped then (go tt, s) else (
  go tt,
  record s {
    store = admin_hashed cfg at (hash_password (or_admin cfg.password)) s.store;
    bootstrapped = true;
  },
)

pub record LoginRequest : Type 0 where
  pub username : String
  pub password : String

abbrev logged_in : Call → LoginRequest → Result (User × String) → Handler (Unit {0})
logged_in c request (err e) = do
  record_activity c "auth.login_failed" "" "" "login failed"
      (("username", text request.username) ∷ [])
  unauthorized
logged_in c request (ok (user, token)) = do
  record_activity c "auth.login" user.id "" "login succeeded"
      (("username", text user.username) ∷ [])
  respond 200 (of_session user token)

abbrev log_in :
    CompareHash → (ℕ → Call) → LoginRequest → Result String → Handler (Result (User × String))
log_in compare_hash at request token s =
    let (r, sessions) =
      login compare_hash (at 0) request.username request.password token s.store s.sessions in
    (go r, record s { sessions = sessions })

-- The session's cookie has the token of the answer.
unfoldable pub login_local :
    CompareHash → (ℕ → Call) → Option LoginRequest → Result String → Handler (Unit {0})
login_local compare_hash at body token s =
    (do
      when (s.idp.mode == "sso") (respond 403 (plain "local login disabled"))
      request ← decoded body
      r ← log_in compare_hash at request token
      logged_in (at 1) request r)
      s

unfoldable pub handle_login :
    CompareHash
    → (String → Result String)
    → BootstrapConfig
    → (ℕ → Call)
    → Option LoginRequest
    → Result String
    → Handler (Unit {0})
unfolding bootstrap login_local
handle_login compare_hash hash_password cfg at body token = do
  bootstrap hash_password cfg at
  login_local compare_hash at body token

unfoldable pub handle_me : Call → String → Handler (Unit {0})
handle_me c authorization = do user ← require_user c authorization; respond 200 (of_user user)

abbrev is_on : LlmModel → Bool
is_on m = m.enabled

unfoldable pub is_among : String → List String → Bool
is_among id [] = false
is_among id (x ∷ xs) = id == x || is_among id xs

abbrev is_served : List String → LlmModel → Bool
is_served ids m = is_among m.provider_model ids

unfoldable pub ends_with : String → String → Bool
ends_with suffix empty = suffix == ""
ends_with suffix (push ch rest) =
    let later = ends_with suffix rest in push ch rest == suffix || later

-- `strings.TrimSuffix(url, "/")`: 47 is the slash.
unfoldable pub trim_slash : String → String
trim_slash empty = empty
trim_slash (push ch empty) = if eqb (code ch) 47 then empty else push ch empty
trim_slash (push ch (push ch' rest)) = push ch (trim_slash (push ch' rest))

unfoldable pub models_url : String → String
unfolding ends_with trim_slash
models_url base_url =
    let url = trim_slash base_url in
    if ends_with "/v1" url then append url "/models" else append url "/v1/models"

-- A reply's status and body.
pub record GatewayLibrary : Type 0 where
  pub get_models : String → String → Result (ℕ × String)
  pub decode_ids : String → Result (List String)

abbrev listed : GatewayLibrary → Result (ℕ × String) → Result (List String)
listed lib (err e) = err e
listed lib (ok (status, body)) =
    if not (eqb status 200) then err (failure "LiteLLM returned status") else lib.decode_ids body

unfoldable pub fetch_litellm_models : GatewayLibrary → String → String → Result (List String)
unfolding models_url
fetch_litellm_models lib base_url api_key =
    listed lib (lib.get_models (models_url base_url) api_key)

abbrev offered : List LlmModel → Result (List String) → Handler (List LlmModel)
offered models (err e) = respond 502 (plain "{\"error\":\"LLM gateway unavailable\"}")
offered models (ok ids) = pure (select (is_served ids) models)

-- The gateway is asked where its settings and the API key are there.
abbrev asked :
    GatewayLibrary → String → LlmGatewaySettings → List LlmModel → Handler (List LlmModel)
asked lib api_key settings models =
    if settings.enabled && not (settings.base_url == "") && not (api_key == "")
    then offered models (fetch_litellm_models lib settings.base_url api_key)
    else pure models

unfoldable pub handle_list_enabled_models :
    GatewayLibrary → String → (ℕ → Call) → String → Handler (Unit {0})
unfolding is_among fetch_litellm_models
handle_list_enabled_models lib api_key at authorization = do
  user ← require_user (at 0) authorization
  r ← call_store (list_llm_models (at 1))
  models ← or_store_error r
  r' ← call_store (get_llm_gateway_settings (at 2))
  settings ← or_store_error r'
  enabled ← asked lib api_key settings (select is_on models)
  respond 200 (of_models enabled)
