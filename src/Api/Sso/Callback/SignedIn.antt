-- ===== src/Api/Sso/Callback/SignedIn.antt =====
-- internal/api/oidc.go: the login that a callback ends in.
use shclop.Prelude.{◌≡◌, inl, inr, ℕ, String, false, Option, some, arith, eq_iff}
use shclop.Prelude.Dict.{lookup-insert}
use shclop.Domain.{User}
use shclop.Store.Memory.{Result, ok, Result-cases, Call}
use shclop.Auth.{issue_token, resolve}
use shclop.Auth.Cookie.{OidcStateCookie}
use shclop.Identity.Provider.{Identity}
use shclop.Api.Server.{Server, Response, redirect, done, record_activity}
use shclop.Api.Sso.Accounts.{link_or_create_user}
use shclop.Api.Sso.Accounts.Linked.{link_or_create_user_sound}
use shclop.Api.Sso.Login.{SsoLibrary}
use shclop.Api.Sso.Callback.{
  CallbackQuery, verified, external, target, sso_cookies, handle_oidc_callback,
}
use shclop.Api.Sso.Callback.Verified.{Checked, verified_sound}

-- A callback that answers with a redirect (302): every check of it was made, from the state cookie to the
-- nonce of the ID token; the subject was linked to an account that is not disabled, or got a new one; and
-- the session cookie of the answer is a token that the server now resolves to this account.
pub handle_oidc_callback_sound :
    (lib : SsoLibrary) (at : ℕ → Call) (cookie : Option String) (query : CallbackQuery)
    (provider_name : String) (session : Result String) (s : Server) {r : Response}
    → (handle_oidc_callback lib at cookie query provider_name session s).0 ≡ done r
    → r.status ≡ 302
    → (state_cookie : OidcStateCookie) × (identity : Identity) × (user : User) × (token : String)
      × Checked lib (at 5).now cookie query provider_name s.idp state_cookie identity
      × ((link_or_create_user at (external provider_name identity) s.store).0 ≡ ok user)
      × (user.disabled ≡ false)
      × (r.body ≡ redirect (target state_cookie.return_to) (sso_cookies token))
      × (resolve token (handle_oidc_callback lib at cookie query provider_name session s).1.sessions
          ≡ some user)
unfolding handle_oidc_callback issue_token record_activity resolve
handle_oidc_callback_sound lib at cookie query provider_name session s {r} h found =
    elim (Result-cases (verified lib (at 5).now cookie query provider_name s.idp)) [
      | inr (e, failed) ↦ absurd (ground (arith, failed, h, found))
      | inl ((state_cookie, identity), good) ↦
          elim (Result-cases (link_or_create_user at (external provider_name identity) s.store).0) [
            | inr (e, failed) ↦ absurd (ground (arith, good, failed, h, found))
            | inl (user, linked) ↦ elim (Result-cases session) [
              | inr (e, failed) ↦ absurd (ground (arith, good, linked, failed, h, found))
              | inl (token, issued) ↦ (
                state_cookie,
                identity,
                user,
                token,
                verified_sound lib (at 5).now cookie query provider_name s.idp good,
                linked,
                (link_or_create_user_sound at (external provider_name identity) s.store linked).0,
                ground (arith, good, linked, issued, h, found),
                ground (
                  arith,
                  good,
                  linked,
                  issued,
                  lookup-insert token token user s.sessions,
                  eq_iff token token,
                ),
              )
            ]
          ]
    ]
