-- ===== src/Api/Admin.antt =====
-- internal/api/server.go: the administration of users, models and the gateway. The hash of a password
-- (bcrypt) is an argument.
pub mod Only
use shclop.Prelude.{
  ℕ, String, Bool, true, false, not, ◌&&◌, ◌||◌, Option, none, some, List, [], ◌∷◌, ◌==◌,
  if◌then◌else◌,
}
use shclop.Prelude.Text.{trim_space}
use shclop.Domain.{User, LlmModel, LlmGatewaySettings}
use shclop.Store.Memory.{not_found, conflict, Result, ok, err, Call}
use shclop.Store.Users.{list_users, create_user, update_user}
use shclop.Store.Models.{
  list_llm_models, create_llm_model, update_llm_model, get_llm_gateway_settings,
  upsert_llm_gateway_settings,
}
use shclop.Api.Server.{
  text, plain, of_user, of_users, of_model, of_models, of_settings, Handler, ◌>>=◌, ◌>>◌, pure,
  respond, bad_request, store_error, when, call_store, or_store_error, or_missing, record_activity,
}
use shclop.Api.Access.{require_user, require_admin}
use shclop.Api.Agents.{decoded}

pub record CreateUserRequest : Type 0 where
  pub username : String
  pub password : String
  pub role : String

pub record UpdateUserRequest : Type 0 where
  pub disabled : Option Bool
  pub role : Option String

pub record CreateModelRequest : Type 0 where
  pub display_name : String
  pub provider_model : String
  pub enabled : Bool

pub record UpdateModelRequest : Type 0 where
  pub display_name : Option String
  pub provider_model : Option String
  pub enabled : Option Bool

pub record GatewayRequest : Type 0 where
  pub enabled : Bool
  pub base_url : String
  pub secret_name : String
  pub secret_key : String

-- `errors.Is(err, store.ErrConflict)` before any other error.
abbrev or_taken : Result User → Handler User
or_taken (ok user) = pure user
or_taken (err conflict) = respond 409 (plain "username already exists")
or_taken (err e) = store_error

abbrev pub default_role : String → String
default_role role = if role == "" then "user" else role

abbrev pub is_role : String → Bool
is_role role = role == "admin" || role == "user"

unfoldable pub list_users_as : (ℕ → Call) → User → Handler (Unit {0})
list_users_as at user = do
  r ← call_store (list_users (at 1))
  users ← or_store_error r
  respond 200 (of_users users)

unfoldable pub handle_admin_list_users : (ℕ → Call) → String → Handler (Unit {0})
unfolding list_users_as
handle_admin_list_users at authorization = do
  user ← require_user (at 0) authorization
  require_admin user
  list_users_as at user

unfoldable pub create_user_as :
    (String → Result String) → (ℕ → Call) → Option CreateUserRequest → User → Handler (Unit {0})
create_user_as hash_password at body user = do
  request ← decoded body
  let username = trim_space request.username
  let role = default_role (trim_space request.role)
  when (username == "" || request.password == "") (bad_request "bad request")
  when (not (is_role role)) (bad_request "bad request: role must be admin or user")
  hash ← or_store_error (hash_password request.password)
  r ← call_store (create_user (at 1) username hash role)
  created ← or_taken r
  record_activity (at 2) "admin.user_created" user.id "" "user created"
      (("username", text created.username) ∷ ("role", text created.role) ∷ [])
  respond 201 (of_user created)

unfoldable pub handle_admin_create_user :
    (String → Result String) → (ℕ → Call) → String → Option CreateUserRequest → Handler (Unit {0})
unfolding create_user_as
handle_admin_create_user hash_password at authorization body = do
  user ← require_user (at 0) authorization
  require_admin user
  create_user_as hash_password at body user

abbrev trimmed : Option String → Option String
trimmed none = none
trimmed (some role) = some (trim_space role)

abbrev is_role_or_absent : Option String → Bool
is_role_or_absent none = true
is_role_or_absent (some role) = is_role role

unfoldable pub update_user_as :
    (ℕ → Call) → String → Option UpdateUserRequest → User → Handler (Unit {0})
update_user_as at target_user_id body user = do
  request ← decoded body
  when (not (is_role_or_absent (trimmed request.role)))
      (bad_request "bad request: role must be admin or user")
  r ← call_store (update_user (at 1) target_user_id request.disabled (trimmed request.role))
  updated ← or_missing r
  respond 200 (of_user updated)

unfoldable pub handle_admin_update_user :
    (ℕ → Call) → String → String → Option UpdateUserRequest → Handler (Unit {0})
unfolding update_user_as
handle_admin_update_user at authorization target_user_id body = do
  user ← require_user (at 0) authorization
  require_admin user
  update_user_as at target_user_id body user

unfoldable pub list_models_as : (ℕ → Call) → User → Handler (Unit {0})
list_models_as at user = do
  r ← call_store (list_llm_models (at 1))
  models ← or_store_error r
  respond 200 (of_models models)

unfoldable pub handle_admin_list_models : (ℕ → Call) → String → Handler (Unit {0})
unfolding list_models_as
handle_admin_list_models at authorization = do
  user ← require_user (at 0) authorization
  require_admin user
  list_models_as at user

unfoldable pub create_model_as : (ℕ → Call) → Option CreateModelRequest → User → Handler (Unit {0})
create_model_as at body user = do
  request ← decoded body
  let display_name = trim_space request.display_name
  let provider_model = trim_space request.provider_model
  when (display_name == "" || provider_model == "") (bad_request "bad request")
  r ← call_store (create_llm_model (at 1) display_name provider_model request.enabled)
  model ← or_store_error r
  respond 201 (of_model model)

unfoldable pub handle_admin_create_model :
    (ℕ → Call) → String → Option CreateModelRequest → Handler (Unit {0})
unfolding create_model_as
handle_admin_create_model at authorization body = do
  user ← require_user (at 0) authorization
  require_admin user
  create_model_as at body user

unfoldable pub update_model_as :
    (ℕ → Call) → String → Option UpdateModelRequest → User → Handler (Unit {0})
update_model_as at model_id body user = do
  request ← decoded body
  r ←
      call_store (
        update_llm_model (at 1) model_id request.display_name request.provider_model
          request.enabled)
  model ← or_missing r
  respond 200 (of_model model)

unfoldable pub handle_admin_update_model :
    (ℕ → Call) → String → String → Option UpdateModelRequest → Handler (Unit {0})
unfolding update_model_as
handle_admin_update_model at authorization model_id body = do
  user ← require_user (at 0) authorization
  require_admin user
  update_model_as at model_id body user

unfoldable pub get_gateway_as : (ℕ → Call) → User → Handler (Unit {0})
get_gateway_as at user = do
  r ← call_store (get_llm_gateway_settings (at 1))
  settings ← or_store_error r
  respond 200 (of_settings settings)

unfoldable pub handle_admin_get_llm_gateway : (ℕ → Call) → String → Handler (Unit {0})
unfolding get_gateway_as
handle_admin_get_llm_gateway at authorization = do
  user ← require_user (at 0) authorization
  require_admin user
  get_gateway_as at user

unfoldable pub update_gateway_as : (ℕ → Call) → Option GatewayRequest → User → Handler (Unit {0})
update_gateway_as at body user = do
  request ← decoded body
  r ← call_store (
      upsert_llm_gateway_settings (at 1) request.enabled request.base_url request.secret_name
        request.secret_key)
  settings ← or_store_error r
  respond 200 (of_settings settings)

unfoldable pub handle_admin_update_llm_gateway :
    (ℕ → Call) → String → Option GatewayRequest → Handler (Unit {0})
unfolding update_gateway_as
handle_admin_update_llm_gateway at authorization body = do
  user ← require_user (at 0) authorization
  require_admin user
  update_gateway_as at body user

-- The routes under /api/admin for users, models and the gateway, with what they carry.
pub data AdminRequest : Type 0 where
  get_users get_models get_gateway : AdminRequest
  post_user : Option CreateUserRequest → AdminRequest
  patch_user : String → Option UpdateUserRequest → AdminRequest
  post_model : Option CreateModelRequest → AdminRequest
  patch_model : String → Option UpdateModelRequest → AdminRequest
  patch_gateway : Option GatewayRequest → AdminRequest

unfoldable pub handle_admin :
    (String → Result String) → (ℕ → Call) → String → AdminRequest → Handler (Unit {0})
handle_admin hash_password at authorization get_users = handle_admin_list_users at authorization
handle_admin hash_password at authorization get_models = handle_admin_list_models at authorization
handle_admin hash_password at authorization get_gateway =
    handle_admin_get_llm_gateway at authorization
handle_admin hash_password at authorization (post_user body) =
    handle_admin_create_user hash_password at authorization body
handle_admin hash_password at authorization (patch_user id body) =
    handle_admin_update_user at authorization id body
handle_admin hash_password at authorization (post_model body) =
    handle_admin_create_model at authorization body
handle_admin hash_password at authorization (patch_model id body) =
    handle_admin_update_model at authorization id body
handle_admin hash_password at authorization (patch_gateway body) =
    handle_admin_update_llm_gateway at authorization body
