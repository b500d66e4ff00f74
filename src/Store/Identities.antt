-- ===== src/Store/Identities.antt =====
-- internal/store/store.go: the links between users and the subjects of identity providers.
pub mod Ownership
use Prim.Native.String.{compare}
use text.Mathlib.Text.{is_lt}
use shclop.Prelude.{
  true, false, ℕ, String, Bool, ◌&&◌, Option, none, some, List, [], ◌∷◌, ◌++◌, ◌==◌, if◌then◌else◌,
  is_some,
}
use shclop.Prelude.Lists.{find_first, update_first, remove_first, select}
use shclop.Domain.{User, UserIdentity}
use shclop.Store.Memory.{not_found, conflict, Result, ok, err, Call, Method, with_ctx}
use shclop.Store.Users.{user_named, user_with_id, new_user}

pub record CreateUserAndIdentityArgs : Type 0 where
  pub username : String
  pub role : String
  pub provider_name : String
  pub subject : String
  pub email : String
  pub display_name : String

abbrev pub identity_of : String → String → UserIdentity → Bool
identity_of provider_name subject x = x.provider_name == provider_name && x.subject == subject

-- The user id and whether there is one, as the two results of the method.
abbrev pub owner_of : Option UserIdentity → String × Bool
owner_of none = ("", false)
owner_of (some x) = (x.user_id, true)

unfoldable pub get_user_id_by_identity : Call → String → String → Method (String × Bool)
get_user_id_by_identity c provider_name subject =
    with_ctx c
      λ m. (ok (owner_of (find_first (identity_of provider_name subject) m.user_identities)), m)

abbrev pub touch : ℕ → UserIdentity → UserIdentity
touch now x = record x { last_login_at = some now }

unfoldable pub touch_identity_login : Call → String → String → Method (Unit {0})
touch_identity_login c provider_name subject = with_ctx c λ m.
    if is_some (find_first (identity_of provider_name subject) m.user_identities)
    then (
      ok tt,
      record m {
        user_identities =
            update_first (identity_of provider_name subject) (touch c.now) m.user_identities;
      },
    )
    else (err not_found, m)

abbrev pub new_identity : String → String → String → String → String → ℕ → UserIdentity
new_identity provider_name subject user_id email display_name now = record {
  provider_name = provider_name;
  subject = subject;
  user_id = user_id;
  email = email;
  display_name = display_name;
  linked_at = now;
  last_login_at = none;
}

abbrev add_user_and_identity : Call → CreateUserAndIdentityArgs → Result String → Method User
add_user_and_identity c args (err e) m = (err e, m)
add_user_and_identity c args (ok user_id) m =
    let user = new_user user_id args.username args.role c.now in
    (
      ok user,
      record m {
        users = m.users ++ user ∷ [];
        user_identities =
            m.user_identities
            ++ new_identity args.provider_name args.subject user_id args.email args.display_name
                c.now
              ∷ [];
      },
    )

unfoldable pub create_user_and_identity : Call → CreateUserAndIdentityArgs → Method User
create_user_and_identity c args = with_ctx c λ m.
    if is_some (find_first (user_named args.username) m.users)
    then (err conflict, m)
    else if is_some (find_first (identity_of args.provider_name args.subject) m.user_identities)
    then (err conflict, m)
    else add_user_and_identity c args c.new_id m

unfoldable pub link_identity_to_user :
    Call → String → String → String → String → String → Method (Unit {0})
link_identity_to_user c user_id provider_name subject email display_name = with_ctx c λ m.
    if is_some (find_first (user_with_id user_id) m.users)
    then (if is_some (find_first (identity_of provider_name subject) m.user_identities)
        then (err conflict, m)
        else (
          ok tt,
          record m {
            user_identities =
                m.user_identities
                ++ new_identity provider_name subject user_id email display_name c.now ∷ [];
          },
        ))
    else (err not_found, m)

-- The order of `sort.Slice`: by provider, then by subject.
unfoldable pub identity_lt : UserIdentity → UserIdentity → Bool
identity_lt a b =
    if a.provider_name == b.provider_name
    then is_lt (compare a.subject b.subject)
    else is_lt (compare a.provider_name b.provider_name)

unfoldable pub insert_identity : UserIdentity → List UserIdentity → List UserIdentity
insert_identity x [] = x ∷ []
insert_identity x (y ∷ ys) = if identity_lt x y then x ∷ y ∷ ys else y ∷ insert_identity x ys

unfoldable pub sort_identities : List UserIdentity → List UserIdentity
unfolding insert_identity
sort_identities [] = []
sort_identities (x ∷ xs) = insert_identity x (sort_identities xs)

abbrev pub linked_to : String → UserIdentity → Bool
linked_to user_id x = x.user_id == user_id

unfoldable pub list_user_identities : Call → String → Method (List UserIdentity)
unfolding sort_identities
list_user_identities c user_id =
    with_ctx c λ m. (ok (sort_identities (select (linked_to user_id) m.user_identities)), m)

abbrev pub link_of : String → String → String → UserIdentity → Bool
link_of user_id provider_name subject x =
    x.user_id == user_id && x.provider_name == provider_name && x.subject == subject

unfoldable pub unlink_identity : Call → String → String → String → Method (Unit {0})
unlink_identity c user_id provider_name subject = with_ctx c λ m.
    if is_some (find_first (link_of user_id provider_name subject) m.user_identities)
    then (
      ok tt,
      record m {
        user_identities = remove_first (link_of user_id provider_name subject) m.user_identities;
      },
    )
    else (err not_found, m)
