-- ===== src/Api/Access.antt =====
-- internal/api/server.go: who is asking. A session is only a way to the account: the account is read
-- from the store on every request.
pub mod Current
pub mod Authorized
use shclop.Prelude.{
  ◌||◌, ℕ, String, Bool, true, false, not, ◌&&◌, Option, none, some, ◌==◌, if◌then◌else◌,
}
use shclop.Prelude.Text.{trim_space, strip_prefix}
use shclop.Domain.{User, Agent}
use shclop.Store.Memory.{not_found, Result, ok, err, Call}
use shclop.Store.Users.{get_user}
use shclop.Store.Agents.{get_agent}
use shclop.Auth.{resolve}
use shclop.Api.Server.{
  Server, Handler, ◌>>=◌, ◌>>◌, pure, unauthorized, forbidden, missing, store_error, call_store,
  or_missing, when,
}

abbrev current_of : Result User → Handler User
current_of (ok current) = if current.disabled then unauthorized else pure current
current_of (err not_found) = unauthorized
current_of (err e) = store_error

unfoldable pub enforce_current_user : Call → User → Handler User
enforce_current_user c cached = do r ← call_store (get_user c cached.id); current_of r

abbrev resolved : Call → Option User → Handler User
resolved c none = unauthorized
resolved c (some cached) = enforce_current_user c cached

abbrev with_token : Call → String → Handler User
with_token c token s =
    if token == "" then unauthorized s else resolved c (resolve token s.sessions) s

abbrev with_header : Call → Option String → Handler User
with_header c none = unauthorized
with_header c (some rest) = with_token c (trim_space rest)

-- The argument is the request's `Authorization` header.
unfoldable pub require_user : Call → String → Handler User
unfolding enforce_current_user
require_user c authorization = with_header c (strip_prefix "Bearer " authorization)

abbrev bearer_token : Option String → String
bearer_token none = ""
bearer_token (some rest) = trim_space rest

abbrev cookie_token : Option String → String
cookie_token none = ""
cookie_token (some value) = trim_space value

-- The session cookie first, then the header.
unfoldable pub require_user_from_request : Call → Option String → String → Handler User
unfolding enforce_current_user
require_user_from_request c cookie authorization =
    let token = cookie_token cookie in
    with_token c
      (if token == "" then bearer_token (strip_prefix "Bearer " authorization) else token)

-- `if user.Role != "admin" { http.Error(w, "forbidden", ...) }`
unfoldable pub require_admin : User → Handler (Unit {0})
require_admin user = when (not (user.role == "admin")) forbidden

-- The agent by its id, for its owner or an administrator; to anyone else it does not exist.
unfoldable pub own_agent : Call → User → String → Handler Agent
own_agent c user agent_id = do
  r ← call_store (get_agent c agent_id)
  agent ← or_missing r
  when (not (agent.owner_user_id == user.id) && not (user.role == "admin")) missing
  pure agent
