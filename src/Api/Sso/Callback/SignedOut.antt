-- ===== src/Api/Sso/Callback/SignedOut.antt =====
-- internal/api/oidc.go: the end of a session.
use shclop.Prelude.{
  ◌≡◌, ◌≢◌, inl, inr, String, Option, none, some, ◌==◌, arith, eq_iff, Option-cases, Bool-cases,
}
use shclop.Prelude.Text.{trim_space, strip_prefix}
use shclop.Prelude.Dict.{lookup, lookup-remove}
use shclop.Store.Memory.{Call}
use shclop.Auth.{resolve, revoke}
use shclop.Api.Server.{Server, Response, plain, done}
use shclop.Api.Access.{require_user, require_user_from_request}
use shclop.Api.Sso.Callback.{logout_token, handle_logout}

abbrev pub unauthorized_answer : Response
unauthorized_answer = record { status = 401; body = plain "unauthorized" }

sessions-logout :
    (cookie : Option String) (authorization : String) (s : Server) (t : String)
    → t ≢ logout_token cookie authorization
    → resolve t (handle_logout cookie authorization s).1.sessions ≡ resolve t s.sessions
unfolding handle_logout resolve revoke
sessions-logout cookie authorization s t other =
    let token = logout_token cookie authorization in
    elim (Option-cases (lookup token s.sessions)) [
      | inl gone ↦ ground (arith, gone)
      | inr (u, there) ↦
          ground
            (arith, there, lookup-remove token t s.sessions, eq_iff token t, eq_iff t token, other)
    ]

logout_token-gone :
    (cookie : Option String) (authorization : String) (s : Server)
    → logout_token cookie authorization ≢ ""
    → resolve (logout_token cookie authorization) (handle_logout cookie authorization s).1.sessions
      ≡ none
unfolding handle_logout resolve revoke
logout_token-gone cookie authorization s given =
    let token = logout_token cookie authorization in
    elim (Option-cases (lookup token s.sessions)) [
      | inl gone ↦ ground (arith, gone)
      | inr (u, there) ↦ ground (
        arith,
        there,
        given,
        lookup-remove token token s.sessions,
        eq_iff token token,
        eq_iff token "",
      )
    ]

require_user_from_request-logout :
    (c : Call) (cookie : Option String) (authorization : String) (s : Server)
    → (require_user_from_request c cookie authorization (handle_logout cookie authorization s).1).0
      ≡ done unauthorized_answer
unfolding require_user_from_request handle_logout logout_token resolve revoke
require_user_from_request-logout c cookie authorization s =
    elim (Option-cases (lookup (logout_token cookie authorization) s.sessions)) [
      | inl gone ↦ ground (arith, gone)
      | inr (u, there) ↦ ground (
        arith,
        there,
        lookup-remove (logout_token cookie authorization) (logout_token cookie authorization)
            s.sessions,
        eq_iff (logout_token cookie authorization) (logout_token cookie authorization),
      )
    ]

-- After a logout, the token that it read, of the cookie or else of the header, is nobody's: the request to a
-- WebSocket with the same cookie and header is answered with 401, and so is every request to another handler
-- with this token in its header. Every other token stands for whom it did before, that of the header too
-- where the cookie has another.
pub handle_logout-require_user :
    (c : Call) (cookie : Option String) (authorization : String) (s : Server)
    → let after = (handle_logout cookie authorization s).1 in
      ((require_user_from_request c cookie authorization after).0 ≡ done unauthorized_answer)
      × ((header rest : String)
          → strip_prefix "Bearer " header ≡ some rest
          → trim_space rest ≡ logout_token cookie authorization
          → (require_user c header after).0 ≡ done unauthorized_answer)
      × ((token : String)
          → token ≢ logout_token cookie authorization
          → resolve token after.sessions ≡ resolve token s.sessions)
unfolding require_user
handle_logout-require_user c cookie authorization s = (
  require_user_from_request-logout c cookie authorization s,
  (λ header rest given its. elim (Bool-cases (logout_token cookie authorization == "")) [
    | inl blank ↦ rw (given, its) (ground (arith, blank))
    | inr some_token ↦
        rw (given, its)
          (ground (
            arith,
            some_token,
            logout_token-gone cookie authorization s
                (λ e. ground (arith, some_token, e, eq_iff (logout_token cookie authorization) "")),
          ))
  ]),
  sessions-logout cookie authorization s,
)
