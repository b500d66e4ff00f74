-- ===== src/Api/Sso/Links.antt =====
-- internal/api/oidc.go: the administrators' view of the subjects that stand for an account.
use shclop.Prelude.{ℕ, String, ◌||◌, Option, ◌==◌}
use shclop.Domain.{User}
use shclop.Store.Memory.{not_found, conflict, Result, ok, err, Call}
use shclop.Store.Identities.{link_identity_to_user, list_user_identities, unlink_identity}
use shclop.Api.Server.{
  plain, empty, of_identities, Handler, ◌>>=◌, ◌>>◌, pure, respond, missing, bad_request,
  store_error, when, call_store, or_store_error, or_missing,
}
use shclop.Api.Access.{require_user, require_admin}
use shclop.Api.Agents.{decoded}

unfoldable pub list_identities_as : (ℕ → Call) → String → User → Handler (Unit {0})
list_identities_as at user_id caller = do
  r ← call_store (list_user_identities (at 1) user_id)
  identities ← or_missing r
  respond 200 (of_identities identities)

unfoldable pub handle_admin_list_identities : (ℕ → Call) → String → String → Handler (Unit {0})
unfolding list_identities_as
handle_admin_list_identities at authorization user_id = do
  user ← require_user (at 0) authorization
  require_admin user
  list_identities_as at user_id user

pub record LinkRequest : Type 0 where
  pub provider_name : String
  pub subject : String
  pub email : String
  pub display_name : String

abbrev or_linked : Result (Unit {0}) → Handler (Unit {0})
or_linked (ok u) = pure u
or_linked (err conflict) = respond 409 (plain "identity already linked")
or_linked (err not_found) = missing
or_linked (err e) = store_error

unfoldable pub link_identity_as :
    (ℕ → Call) → String → Option LinkRequest → User → Handler (Unit {0})
link_identity_as at user_id body caller = do
  request ← decoded body
  when (request.provider_name == "" || request.subject == "")
      (bad_request "bad request: provider_name and subject required")
  r ← call_store (
      link_identity_to_user (at 1) user_id request.provider_name request.subject request.email
        request.display_name)
  or_linked r
  r' ← call_store (list_user_identities (at 2) user_id)
  identities ← or_store_error r'
  respond 201 (of_identities identities)

unfoldable pub handle_admin_link_identity :
    (ℕ → Call) → String → String → Option LinkRequest → Handler (Unit {0})
unfolding link_identity_as
handle_admin_link_identity at authorization user_id body = do
  user ← require_user (at 0) authorization
  require_admin user
  link_identity_as at user_id body user

unfoldable pub unlink_identity_as :
    (ℕ → Call) → String → String → String → User → Handler (Unit {0})
unlink_identity_as at user_id provider_name subject caller = do
  r ← call_store (unlink_identity (at 1) user_id provider_name subject)
  or_missing r
  respond 204 empty

unfoldable pub handle_admin_unlink_identity :
    (ℕ → Call) → String → String → String → String → Handler (Unit {0})
unfolding unlink_identity_as
handle_admin_unlink_identity at authorization user_id provider_name subject = do
  user ← require_user (at 0) authorization
  require_admin user
  unlink_identity_as at user_id provider_name subject user
