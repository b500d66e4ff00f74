-- ===== src/Api/Sso/Callback.antt =====
-- internal/api/oidc.go: the answer of a provider to a login, and the end of a session. A callback is
-- verified first, and each refusal up to there is a 400 with its text.
pub mod Verified
pub mod SignedIn
pub mod SignedOut
use Prim.Native.String.{◌++◌ as append}
use shclop.Prelude.{
  ℕ, String, Bool, true, false, not, Option, none, some, List, [], ◌∷◌, ◌==◌, if◌then◌else◌,
}
use shclop.Prelude.Text.{strip_prefix, trim_space}
use shclop.Domain.{User}
use shclop.Store.Memory.{failure, Err, error_text, Result, ok, err, Call, ◌>>=◌}
use shclop.Auth.{issue_token, revoke}
use shclop.Auth.Cookie.{OidcStateCookie, Decoded, accepted, expired, invalid, decode}
use shclop.Identity.Provider.{Identity, IdToken, OidcProvider, identity_from_id_token}
use shclop.Identity.Registry.{IdpRegistry}
use shclop.Api.Server.{
  text, plain, redirect, status_text, Handler, go, Server, record_activity, respond, bad_request,
  missing,
}
use shclop.Api.Sso.Accounts.{External, link_or_create_user}
use shclop.Api.Sso.Login.{SsoLibrary, available}

-- The parameters of the callback's URL.
pub record CallbackQuery : Type 0 where
  pub state : String
  pub error : String
  pub code : String

-- `if !b { http.Error(w, message, http.StatusBadRequest); return }`
abbrev pub expect : Bool → String → Result (Unit {0})
expect true message = ok tt
expect false message = err (failure message)

-- Any error of a step is answered with the step's own text.
abbrev pub or_refuse {ℓ} : {A : Type ℓ} → String → Result A → Result A
or_refuse message (ok a) = ok a
or_refuse message (err e) = err (failure message)

abbrev pub accepted_cookie : Decoded → Result OidcStateCookie
accepted_cookie (accepted state_cookie) = ok state_cookie
accepted_cookie (expired state_cookie) = err (failure "state cookie expired")
accepted_cookie invalid = err (failure "invalid state cookie")

abbrev pub state_cookie_of : SsoLibrary → ℕ → Option String → Result OidcStateCookie
state_cookie_of lib now none = err (failure "missing state cookie")
state_cookie_of lib now (some value) = accepted_cookie (decode lib.cookie now value)

abbrev pub id_token_of : Option String → Result String
id_token_of none = err (failure "missing id_token")
id_token_of (some raw) = if raw == "" then err (failure "missing id_token") else ok raw

-- The part of the callback that asks the provider.
unfoldable pub identified : SsoLibrary → OidcStateCookie → String → OidcProvider → Result Identity
identified lib state_cookie code p = do
  answer ←
      or_refuse "token exchange failed" (lib.oidc.exchange p.oauth code state_cookie.code_verifier)
  raw ← id_token_of answer
  token ←
      or_refuse "id token verification failed"
        (lib.oidc.verify p.config.issuer p.config.client_id raw)
  u ← expect (token.nonce == state_cookie.nonce) "nonce mismatch"
  or_refuse "identity extraction failed" (identity_from_id_token p token)

unfoldable pub verified :
    SsoLibrary
    → ℕ
    → Option String
    → CallbackQuery
    → String
    → IdpRegistry
    → Result (OidcStateCookie × Identity)
unfolding available identified
verified lib now cookie query provider_name r = do
  state_cookie ← state_cookie_of lib now cookie
  u1 ← expect (state_cookie.provider == provider_name) "provider mismatch"
  u2 ← expect (query.state == state_cookie.state) "state mismatch"
  u3 ← expect (query.error == "") (append "oidc error: " query.error)
  u4 ← expect (not (query.code == "")) "missing code"
  p ← available provider_name r
  identity ← identified lib state_cookie query.code p
  ok (state_cookie, identity)

abbrev pub external : String → Identity → External
external provider_name identity = record {
  provider_name = provider_name;
  subject = identity.subject;
  email = identity.email;
  display_name = identity.name;
}

abbrev pub target : String → String
target return_to = if return_to == "" then "/" else return_to

abbrev pub sso_cookies : String → List (String × String)
sso_cookies token = ("shclop_oidc_state", "") ∷ ("shclop_session", token) ∷ []

abbrev welcomed :
    Call → String → OidcStateCookie → Identity → User → Result String → Handler (Unit {0})
welcomed c provider_name state_cookie identity user (err e) s =
    respond 500 (plain "internal server error") s
welcomed c provider_name state_cookie identity user (ok token) s =
    let noted =
      (record_activity c "auth.sso_login" user.id "" "sso login succeeded"
        (("provider", text provider_name) ∷ ("subject", text identity.subject) ∷ []) s).1 in
    respond 302 (redirect (target state_cookie.return_to) (sso_cookies token)) noted

abbrev signed_in :
    Call → String → OidcStateCookie → Identity → Result String → Result User → Handler (Unit {0})
signed_in c provider_name state_cookie identity session (err e) s =
    respond 409 (plain (error_text e)) s
signed_in c provider_name state_cookie identity session (ok user) s =
    let (token, sessions) = issue_token user session s.sessions in
    welcomed c provider_name state_cookie identity user token (record s { sessions = sessions })

abbrev called_back :
    (ℕ → Call) → String → Result String → Result (OidcStateCookie × Identity) → Handler (Unit {0})
called_back at provider_name session (err e) s = bad_request (error_text e) s
called_back at provider_name session (ok (state_cookie, identity)) s =
    let (user, m) = link_or_create_user at (external provider_name identity) s.store in
    signed_in (at 5) provider_name state_cookie identity session user (record s { store = m })

-- The random text of the new session is an argument.
unfoldable pub handle_oidc_callback :
    SsoLibrary
    → (ℕ → Call)
    → Option String
    → CallbackQuery
    → String
    → Result String
    → Handler (Unit {0})
unfolding verified
handle_oidc_callback lib at cookie query provider_name session s =
    called_back at provider_name session (verified lib (at 5).now cookie query provider_name s.idp)
      s

abbrev bearer : Option String → String
bearer none = ""
bearer (some rest) = trim_space rest

abbrev cookie_text : Option String → String
cookie_text none = ""
cookie_text (some value) = trim_space value

-- The session cookie first, then the header.
unfoldable pub logout_token : Option String → String → String
logout_token cookie authorization =
    let token = cookie_text cookie in
    if token == "" then bearer (strip_prefix "Bearer " authorization) else token

abbrev signed_out : String → Server → Server
signed_out token s = if token == "" then s else record s { sessions = (revoke token s.sessions).1 }

unfoldable pub handle_logout : Option String → String → Handler (Unit {0})
unfolding logout_token
handle_logout cookie authorization s =
    respond 200 (status_text "ok") (signed_out (logout_token cookie authorization) s)
