-- ===== src/Tests/SsoRuns.antt =====
-- internal/api/oidc.go, internal/identity and internal/auth/cookiecodec.go: logins through a provider.
use Prim.Native.String.{◌++◌ as append}
use shclop.Tests.Data.{call, server, populated}
use shclop.Api.Sso.Callback.SignedIn.{handle_oidc_callback_sound}
use shclop.Api.Sso.Callback.SignedOut.{handle_logout-require_user, unauthorized_answer}
use shclop.Api.Sso.Callback.Verified.{Checked}
use shclop.Api.Sso.Callback.{
  CallbackQuery, external, target, sso_cookies, handle_oidc_callback, handle_logout, logout_token,
}
use shclop.Api.Sso.Accounts.Linked.{link_or_create_user_sound, WasLinked, IsNew}
use shclop.Api.Sso.Accounts.{link_or_create_user}
use shclop.Api.Sso.Login.{SsoLibrary}
use shclop.Api.Access.{require_user, require_user_from_request}
use shclop.Api.Server.{Server, redirect, done}
use shclop.Auth.Cookie.{
  OidcStateCookie, CookieLibrary, accepted, expired, encode, decode, decode-encode,
}
use shclop.Auth.{resolve}
use shclop.Identity.Provider.Carried.{identity_from_id_token_sound}
use shclop.Identity.Provider.{
  Claim, claim_text, IdToken, OidcLibrary, OidcProvider, OidcProviderConfig, Identity,
  identity_from_id_token,
}
use shclop.Identity.Registry.Overlay.{reload-IsSwitched, IsModeFor, AllPending, IsSwitched}
use shclop.Identity.Registry.Retry.{retry_degraded_heals, healed}
use shclop.Identity.Registry.{
  IdpRegistry, MaterializedProvider, status_ready, status_degraded, reload, retry_degraded,
  get_provider,
}
use shclop.Store.Identities.{get_user_id_by_identity}
use shclop.Store.Settings.{or_empty}
use shclop.Store.Memory.{Call, ok, err, failure}
use shclop.Domain.{User}
use shclop.Prelude.Text.{trim_space, strip_prefix}
use shclop.Prelude.Dict.{Dict, lookup}
use shclop.Prelude.Lists.{length}
use shclop.Prelude.{
  ◌≡◌, ◌≢◌, ◌⊎◌, refl, sym, inl, inr, arith, eq_iff, ℕ, String, Bool, true, false, not, ◌&&◌,
  Option, none, some, List, [], ◌∷◌, ◌==◌, eqb, ltb, if◌then◌else◌, Bool-cases,
}

abbrev corp_config : OidcProviderConfig
corp_config = record {
  name = "corp";
  display_name = "Corp";
  issuer = "https://idp";
  client_id = "shclop";
  client_secret = "hidden";
  redirect_uri = "https://here/cb";
  scopes = [];
  email_claim = "email";
  name_claim = "name";
  groups_claim = "groups";
}

abbrev corp : OidcProvider
corp = record {
  config = corp_config;
  oauth = record {
    client_id = "shclop";
    client_secret = "hidden";
    redirect_url = "https://here/cb";
    endpoint = "https://idp";
    scopes = [];
  };
}

abbrev eve_claims : Dict Claim
eve_claims = ("email", claim_text "eve@corp") ∷ []

abbrev eve_token : IdToken
eve_token = record { subject = "s9"; nonce = "n1"; claims = ok eve_claims }

abbrev eve_identity : Identity
eve_identity = record { subject = "s9"; email = "eve@corp"; name = ""; groups = [] }

abbrev oidc : OidcLibrary
oidc = record {
  new_provider = λ issuer. ok issuer;
  exchange = λ config code verifier. ok (some "raw");
  verify = λ issuer client_id raw. ok eve_token;
  auth_code_url = λ config state nonce challenge. "https://idp/auth";
}

abbrev state_cookie : OidcStateCookie
state_cookie = record {
  state = "s1";
  nonce = "n1";
  code_verifier = "v1";
  provider = "corp";
  return_to = "/agents";
  expires_at = 100;
}

abbrev is_state_cookie : OidcStateCookie → Bool
is_state_cookie p =
    p.state == "s1"
    && p.nonce == "n1"
    && p.code_verifier == "v1"
    && p.provider == "corp"
    && p.return_to == "/agents"
    && eqb p.expires_at 100

-- A codec that knows this one cookie.
abbrev cookie : CookieLibrary
cookie = record {
  gob_encode = λ p. if is_state_cookie p then ok "c1" else err (failure "gob");
  gob_decode = λ text. ok state_cookie;
  seal = λ text. ok text;
  open_sealed = λ text. ok text;
  base64_encode = λ text. text;
  base64_decode = λ text. ok text;
}

abbrev sso : SsoLibrary
sso = record {
  oidc = oidc;
  cookie = cookie;
  parse_url = λ url. some ("", url);
  challenge = λ verifier. verifier;
}

abbrev corp_entry : MaterializedProvider
corp_entry = record {
  config = corp_config;
  provider = some corp;
  status = status_ready;
  last_err = "";
  enabled = true;
}

abbrev down_entry : MaterializedProvider
down_entry = record {
  config = corp_config;
  provider = none;
  status = status_degraded;
  last_err = "oidc discovery";
  enabled = true;
}

abbrev corp_registry : IdpRegistry
corp_registry = record {
  snapshot = ("corp", corp_entry) ∷ [];
  mode = "both";
  subscribers = false ∷ [];
}

abbrev down_registry : IdpRegistry
down_registry = record {
  snapshot = ("corp", down_entry) ∷ [];
  mode = "both";
  subscribers = false ∷ [];
}

abbrev sso_server : Server
sso_server = record server { idp = corp_registry }

abbrev at : ℕ → Call
at i = call "u9" 50

abbrev query : CallbackQuery
query = record { state = "s1"; error = ""; code = "code" }

handle_oidc_callback_sound_example :
    (sc : OidcStateCookie) × (identity : Identity) × (user : User) × (token : String) × Checked sso
      50
      (some "c1")
      query
      "corp"
      corp_registry
      sc
      identity
    × ((link_or_create_user at (external "corp" identity) populated).0 ≡ ok user)
    × (user.disabled ≡ false)
    × (redirect "/agents" (sso_cookies "tok") ≡ redirect (target sc.return_to) (sso_cookies token))
    × (resolve token
          (handle_oidc_callback sso at (some "c1") query "corp" (ok "tok") sso_server).1.sessions
        ≡ some user)
unfolding handle_oidc_callback decode get_provider lookup identity_from_id_token
    shclop.Identity.Provider.string_claim link_or_create_user get_user_id_by_identity
    shclop.Prelude.Lists.find_first shclop.Store.Users.get_user_by_username
    shclop.Store.Identities.create_user_and_identity shclop.Auth.issue_token
handle_oidc_callback_sound_example =
    handle_oidc_callback_sound sso at (some "c1") query "corp" (ok "tok") sso_server
      {r = record { status = 302; body = redirect "/agents" (sso_cookies "tok") }} refl refl

abbrev eve : User
eve = record {
  id = "u9";
  username = "eve@corp";
  role = "user";
  disabled = false;
  created_at = 50;
  updated_at = 50;
}

link_or_create_user_sound_example :
    (false ≡ false)
    × (WasLinked at (external "corp" eve_identity) eve populated
        ⊎ IsNew at (external "corp" eve_identity) eve populated)
    × ((c : Call)
        → c.ctx_err ≡ none
        → (get_user_id_by_identity c "corp" "s9"
            (link_or_create_user at (external "corp" eve_identity) populated).1).0
          ≡ ok ("u9", true))
unfolding link_or_create_user get_user_id_by_identity shclop.Prelude.Lists.find_first
    shclop.Store.Users.get_user_by_username shclop.Store.Identities.create_user_and_identity
link_or_create_user_sound_example =
    link_or_create_user_sound at (external "corp" eve_identity) populated {u = eve} refl

handle_logout-require_user_example :
    let after = (handle_logout (some "ta") "Bearer tb" server).1 in
    ((require_user_from_request (call "" 1) (some "ta") "Bearer tb" after).0
      ≡ done unauthorized_answer)
    × ((header rest : String)
        → strip_prefix "Bearer " header ≡ some rest
        → trim_space rest ≡ logout_token (some "ta") "Bearer tb"
        → (require_user (call "" 1) header after).0 ≡ done unauthorized_answer)
    × ((token : String)
        → token ≢ logout_token (some "ta") "Bearer tb"
        → resolve token after.sessions ≡ resolve token server.sessions)
handle_logout-require_user_example =
    handle_logout-require_user (call "" 1) (some "ta") "Bearer tb" server

identity_from_id_token_sound_example :
    (eve_identity.subject ≡ eve_token.subject)
    × ¬ (eve_identity.subject ≡ "")
    × ¬ (eve_identity.email ≡ "")
    × ((raw : Dict Claim) × (eve_token.claims ≡ ok raw)
        × (lookup "email" raw ≡ some (claim_text "eve@corp")))
unfolding identity_from_id_token shclop.Identity.Provider.string_claim lookup
    shclop.Identity.Provider.coerce_groups
identity_from_id_token_sound_example =
    identity_from_id_token_sound corp eve_token {i = eve_identity} refl

reload-IsSwitched_example :
    let after = (reload (call "" 1) (call "" 2) populated corp_registry).1 in
    ((reload (call "" 1) (call "" 2) populated corp_registry).0 ≡ ok tt)
    × IsModeFor (or_empty (lookup "auth.mode" populated.app_settings)) after.mode
    × ((name : String)
        → IsSwitched
            (lookup (append "auth.idp." (append name ".enabled")) populated.app_settings)
            (get_provider name corp_registry)
            (get_provider name after))
    × AllPending after.subscribers
    × (length after.subscribers ≡ length corp_registry.subscribers)
reload-IsSwitched_example =
    reload-IsSwitched (call "" 1) (call "" 2) populated corp_registry refl refl

retry_degraded_heals_example :
    get_provider "corp" (retry_degraded oidc down_registry)
    ≡ healed oidc (get_provider "corp" down_registry)
retry_degraded_heals_example = retry_degraded_heals oidc "corp" down_registry

gob_reads_back :
    (p : OidcStateCookie) (t : String) → cookie.gob_encode p ≡ ok t → cookie.gob_decode t ≡ ok p
gob_reads_back p t h = elim (Bool-cases (is_state_cookie p)) [
  | inr other ↦ absurd (ground (arith, other, h))
  | inl same ↦
      let a : p.state ≡ "s1" = ground (arith, same, eq_iff p.state "s1") in
      let b : p.nonce ≡ "n1" = ground (arith, same, eq_iff p.nonce "n1") in
      let c : p.code_verifier ≡ "v1" = ground (arith, same, eq_iff p.code_verifier "v1") in
      let d : p.provider ≡ "corp" = ground (arith, same, eq_iff p.provider "corp") in
      let e : p.return_to ≡ "/agents" = ground (arith, same, eq_iff p.return_to "/agents") in
      let f : p.expires_at ≡ 100 = ground (arith, same) in cc (a, b, c, d, e, f)
]

decode-encode_example : decode cookie 50 "c1" ≡ (
    if not (eqb state_cookie.expires_at 0) && ltb state_cookie.expires_at 50
    then expired state_cookie
    else accepted state_cookie)
unfolding encode
decode-encode_example =
    decode-encode cookie 50 state_cookie {text = "c1"} gob_reads_back (λ p t h. sym h) (λ t. refl)
      refl
