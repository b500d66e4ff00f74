-- ===== src/Store/Users.antt =====
-- internal/store/store.go: users, password hashes, and the bootstrap of the administrator.
pub mod Names
use shclop.Prelude.{
  ℕ, String, Bool, false, Option, none, some, List, [], ◌∷◌, ◌++◌, ◌==◌, if◌then◌else◌, is_some,
}
use shclop.Prelude.Lists.{find_first, update_first}
use shclop.Prelude.Dict.{Dict, lookup, insert}
use shclop.Domain.{User}
use shclop.Store.Memory.{not_found, conflict, Result, ok, err, Call, Method, with_ctx}

abbrev pub user_named : String → User → Bool
user_named username u = u.username == username

abbrev pub user_with_id : String → User → Bool
user_with_id user_id u = u.id == user_id

-- A pointer argument changes its field when it is not nil.
abbrev pub override {ℓ} : {A : Type ℓ} → Option A → A → A
override none old = old
override (some new) old = new

-- `if passwordHash != "" { m.passwordHashes[username] = passwordHash }`
abbrev pub keep_hash : String → String → Dict String → Dict String
keep_hash username hash hashes = if hash == "" then hashes else insert username hash hashes

abbrev pub new_user : String → String → String → ℕ → User
new_user id username role now = record {
  id = id;
  username = username;
  role = role;
  disabled = false;
  created_at = now;
  updated_at = now;
}

abbrev add_user : Call → String → String → String → Result String → Method User
add_user c username password_hash role (err e) m = (err e, m)
add_user c username password_hash role (ok id) m =
    let user = new_user id username role c.now in
    (
      ok user,
      record m {
        users = m.users ++ user ∷ [];
        password_hashes = keep_hash username password_hash m.password_hashes;
      },
    )

unfoldable pub create_user : Call → String → String → String → Method User
unfolding find_first
create_user c username password_hash role = with_ctx c λ m.
    if is_some (find_first (user_named username) m.users)
    then (err conflict, m)
    else add_user c username password_hash role c.new_id m

abbrev pub found {ℓ} : {A : Type ℓ} → Option A → Result A
found none = err not_found
found (some a) = ok a

unfoldable pub get_user : Call → String → Method User
get_user c user_id = with_ctx c λ m. (found (find_first (user_with_id user_id) m.users), m)

unfoldable pub get_user_by_username : Call → String → Method User
get_user_by_username c username =
    with_ctx c λ m. (found (find_first (user_named username) m.users), m)

unfoldable pub list_users : Call → Method (List User)
list_users c = with_ctx c λ m. (ok m.users, m)

abbrev pub edit_user : ℕ → Option Bool → Option String → User → User
edit_user now disabled role u = record u {
  disabled = override disabled u.disabled;
  role = override role u.role;
  updated_at = now;
}

abbrev update_found_user : ℕ → String → Option Bool → Option String → Option User → Method User
update_found_user now user_id disabled role none m = (err not_found, m)
update_found_user now user_id disabled role (some u) m = (
  ok (edit_user now disabled role u),
  record m { users = update_first (user_with_id user_id) (edit_user now disabled role) m.users },
)

unfoldable pub update_user : Call → String → Option Bool → Option String → Method User
update_user c user_id disabled role =
    with_ctx c λ m.
      update_found_user c.now user_id disabled role (find_first (user_with_id user_id) m.users) m

-- These two take no notice of their context.
unfoldable pub get_password_hash : String → Method String
get_password_hash username m = (found (lookup username m.password_hashes), m)

unfoldable pub set_password_hash : String → String → Method (Unit {0})
set_password_hash username hash m =
    (ok tt, record m { password_hashes = insert username hash m.password_hashes })

abbrev pub make_admin : ℕ → User → User
make_admin now u = record u { disabled = false; role = "admin"; updated_at = now }

abbrev add_admin : Call → String → String → Result String → Method (Unit {0})
add_admin c username password_hash (err e) m = (err e, m)
add_admin c username password_hash (ok id) m = (
  ok tt,
  record m {
    users = m.users ++ new_user id username "admin" c.now ∷ [];
    password_hashes = keep_hash username password_hash m.password_hashes;
  },
)

unfoldable pub bootstrap_admin : Call → String → String → Method (Unit {0})
bootstrap_admin c username password_hash = with_ctx c λ m.
    if is_some (find_first (user_named username) m.users)
    then (
      ok tt,
      record m {
        users = update_first (user_named username) (make_admin c.now) m.users;
        password_hashes = keep_hash username password_hash m.password_hashes;
      },
    )
    else add_admin c username password_hash c.new_id m
