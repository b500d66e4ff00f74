-- ===== src/Api/Sso/Accounts.antt =====
-- internal/api/oidc.go: the account that an external subject stands for, created at its first login.
pub mod Linked
use shclop.Prelude.{ℕ, String, Bool, true, false, not, ◌==◌, if◌then◌else◌}
use shclop.Domain.{User}
use shclop.Store.Memory.{failure, Result, ok, err, Call, Memory, Method}
use shclop.Store.Users.{get_user, get_user_by_username}
use shclop.Store.Identities.{
  CreateUserAndIdentityArgs, get_user_id_by_identity, touch_identity_login,
  create_user_and_identity,
}

-- What an ID token says of a person, by the provider that issued it.
pub record External : Type 0 where
  pub provider_name : String
  pub subject : String
  pub email : String
  pub display_name : String

abbrev enabled_user : Result User → Result User
enabled_user (err e) = err e
enabled_user (ok user) = if user.disabled then err (failure "account disabled") else ok user

-- The subject is known. That its login could not be noted is logged only.
unfoldable pub login_linked : (ℕ → Call) → External → String → Method User
login_linked at x user_id m =
    let noted = (touch_identity_login (at 1) x.provider_name x.subject m).1 in
    let (user, m') = get_user (at 2) user_id noted in (enabled_user user, m')

-- `err == nil && existingByEmail.ID != ""`
abbrev is_taken : Result User → Bool
is_taken (err e) = false
is_taken (ok user) = not (user.id == "")

abbrev pub account_args : External → CreateUserAndIdentityArgs
account_args x = record {
  username = x.email;
  role = "user";
  provider_name = x.provider_name;
  subject = x.subject;
  email = x.email;
  display_name = x.display_name;
}

-- A subject that is not known gets a new account under its email address.
unfoldable pub create_linked : (ℕ → Call) → External → Method User
create_linked at x m =
    let (existing, m') = get_user_by_username (at 3) x.email m in
    if is_taken existing
    then (err (failure "email already registered with a local account"), m')
    else create_user_and_identity (at 4) (account_args x) m'

abbrev pub by_link : Result (String × Bool) → (ℕ → Call) → External → Method User
by_link (err e) at x m = (err e, m)
by_link (ok (user_id, true)) at x m = login_linked at x user_id m
by_link (ok (user_id, false)) at x m = create_linked at x m

unfoldable pub link_or_create_user : (ℕ → Call) → External → Method User
unfolding login_linked create_linked
link_or_create_user at x m =
    let (linked, m') = get_user_id_by_identity (at 0) x.provider_name x.subject m in
    by_link linked at x m'
