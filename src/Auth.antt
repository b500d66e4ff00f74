-- ===== src/Auth.antt =====
-- internal/auth/auth.go: local login and session tokens. `bcrypt` and the random token are arguments.
pub mod Sessions
pub mod Cookie
use shclop.Prelude.{String, Bool, true, false, Option, none, some, if◌then◌else◌, is_some}
use shclop.Prelude.Dict.{Dict, lookup, insert, remove}
use shclop.Domain.{User}
use shclop.Store.Memory.{Err, failure, Result, ok, err, Call, Memory}
use shclop.Store.Users.{get_user_by_username, get_password_hash}

-- `bcrypt.CompareHashAndPassword(hash, password) == nil`
abbrev pub CompareHash : Type 0
CompareHash = String → String → Bool

abbrev pub invalid_credentials : Err
invalid_credentials = failure "invalid credentials"

abbrev pub account_disabled : Err
account_disabled = failure "account disabled"

abbrev pub Sessions : Type 0
Sessions = Dict User

-- `tokenID()` succeeded or not; then the map of tokens is written.
abbrev pub start_session : User → Result String → Sessions → Result (User × String) × Sessions
start_session user (ok token) tokens = (ok (user, token), insert token user tokens)
start_session user (err e) tokens = (err e, tokens)

abbrev pub check_password :
    CompareHash
    → User
    → String
    → Result String
    → Result String
    → Sessions
    → Result (User × String) × Sessions
check_password compare_hash user password (err e) token tokens = (err invalid_credentials, tokens)
check_password compare_hash user password (ok hash) token tokens =
    if compare_hash hash password
    then start_session user token tokens
    else (err invalid_credentials, tokens)

abbrev pub login_as :
    CompareHash
    → String
    → String
    → Result String
    → Result User
    → Memory
    → Sessions
    → Result (User × String) × Sessions
login_as compare_hash username password token (err e) m tokens = (err invalid_credentials, tokens)
login_as compare_hash username password token (ok user) m tokens =
    if user.disabled
    then (err account_disabled, tokens)
    else check_password compare_hash user password (get_password_hash username m).0 token tokens

unfoldable pub login :
    CompareHash
    → Call
    → String
    → String
    → Result String
    → Memory
    → Sessions
    → Result (User × String) × Sessions
login compare_hash c username password token m tokens =
    login_as compare_hash username password token (get_user_by_username c username m).0 m tokens

unfoldable pub resolve : String → Sessions → Option User
resolve token tokens = lookup token tokens

unfoldable pub issue_token : User → Result String → Sessions → Result String × Sessions
issue_token user (err e) tokens = (err e, tokens)
issue_token user (ok token) tokens = (ok token, insert token user tokens)

unfoldable pub revoke : String → Sessions → Bool × Sessions
revoke token tokens =
    if is_some (lookup token tokens) then (true, remove token tokens) else (false, tokens)
