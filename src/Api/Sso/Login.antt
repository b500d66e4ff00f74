-- ===== src/Api/Sso/Login.antt =====
-- internal/api/oidc.go: the start of a login through a provider. The libraries, `url.Parse` and the
-- challenge (SHA-256 in base64) are an `SsoLibrary`; a random text is an argument. Of the cookies that an
-- answer sets, those of a redirect are in its body.
use shclop.Prelude.{
  ℕ, ◌+◌, String, not, ◌&&◌, Option, none, some, [], ◌∷◌, ◌==◌, is_none, if◌then◌else◌,
}
use shclop.Prelude.Text.{strip_prefix}
use shclop.Store.Memory.{failure, Err, Result, ok, err, Call, ◌>>=◌}
use shclop.Auth.Cookie.{CookieLibrary, encode}
use shclop.Identity.Provider.{OidcLibrary, OidcProvider}
use shclop.Identity.Registry.{MaterializedProvider, IdpRegistry, get_provider, is_degraded}
use shclop.Api.Server.{Handler, plain, redirect, respond}

pub record SsoLibrary : Type 0 where
  pub oidc : OidcLibrary
  pub cookie : CookieLibrary
  pub parse_url : String → Option (String × String)
  pub challenge : String → String

-- The host and the path of a target, where it parses.
abbrev local_path : Option (String × String) → String
local_path none = ""
local_path (some (host, path)) =
    if not (host == "") then "" else if is_none (strip_prefix "/" path) then "" else path

unfoldable pub sanitize_return_to : (String → Option (String × String)) → String → String
sanitize_return_to parse_url return_to =
    if return_to == "" then "" else local_path (parse_url return_to)

abbrev unavailable : Err
unavailable = failure "provider not available"

-- A provider that is ready has its `Provider`.
abbrev available_entry : Option MaterializedProvider → Result OidcProvider
available_entry none = err unavailable
available_entry (some entry) =
    if entry.enabled && not (is_degraded entry.status)
    then (elim entry.provider [ none ↦ err unavailable | some p ↦ ok p ])
    else err unavailable

unfoldable pub available : String → IdpRegistry → Result OidcProvider
available provider_name r = available_entry (get_provider provider_name r)

-- Ten minutes in nanoseconds.
abbrev ten_minutes : ℕ
ten_minutes = 600000000000

-- What is made of the random texts before anything is answered: the cookie's value and the URL.
unfoldable pub login_redirect :
    SsoLibrary
    → ℕ
    → String
    → Result String
    → Result String
    → Result String
    → String
    → OidcProvider
    → Result (String × String)
login_redirect lib now provider_name state nonce code_verifier return_to p = do
  state ← state
  nonce ← nonce
  code_verifier ← code_verifier
  encoded ← encode lib.cookie (record {
    state = state;
    nonce = nonce;
    code_verifier = code_verifier;
    provider = provider_name;
    return_to = sanitize_return_to lib.parse_url return_to;
    expires_at = now + ten_minutes;
  })
  ok (encoded, lib.oidc.auth_code_url p.oauth state nonce (lib.challenge code_verifier))

abbrev sent : Result (String × String) → Handler (Unit {0})
sent (err e) = respond 500 (plain "internal server error")
sent (ok (encoded, url)) = respond 302 (redirect url (("shclop_oidc_state", encoded) ∷ []))

abbrev with_provider :
    Result OidcProvider → (OidcProvider → Handler (Unit {0})) → Handler (Unit {0})
with_provider (err e) k = respond 404 (plain "provider not available")
with_provider (ok p) k = k p

unfoldable pub handle_oidc_login :
    SsoLibrary
    → Call
    → String
    → Result String
    → Result String
    → Result String
    → String
    → Handler (Unit {0})
unfolding available login_redirect
handle_oidc_login lib c provider_name state nonce code_verifier return_to s =
    with_provider (available provider_name s.idp)
      (λ p. sent (login_redirect lib c.now provider_name state nonce code_verifier return_to p)) s
