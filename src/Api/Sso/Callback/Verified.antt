-- ===== src/Api/Sso/Callback/Verified.antt =====
-- internal/api/oidc.go: what a login through a provider was checked for.
use shclop.Prelude.{
  ◌≡◌, ◌≢◌, refl, ap, ◌∙◌, subst, inl, inr, ℕ, String, Bool, true, false, Option-cases, Option,
  none, some, arith, eq_iff, ◌==◌, Bool-cases,
}
use shclop.Store.Memory.{Result, ok, err, Result-cases}
use shclop.Auth.Cookie.{OidcStateCookie, Decoded, accepted, expired, invalid, decode}
use shclop.Identity.Provider.{Identity, IdToken, OidcProvider, identity_from_id_token}
use shclop.Identity.Registry.{IdpRegistry, MaterializedProvider, status_ready, get_provider}
use shclop.Api.Sso.Login.{SsoLibrary, available}
use shclop.Api.Sso.Callback.{
  CallbackQuery, expect, or_refuse, accepted_cookie, state_cookie_of, id_token_of, identified,
  verified,
}

-- The provider that answered: it is in the registry, switched on and ready.
pub record Answering (provider_name : String) (r : IdpRegistry) (p : OidcProvider) : Type 0 where
  entry : MaterializedProvider
  found : get_provider provider_name r ≡ some entry
  switched_on : entry.enabled ≡ true
  ready : entry.status ≡ status_ready
  its_provider : entry.provider ≡ some p

-- The identity that the provider vouched for: its code was exchanged with the cookie's verifier for an ID
-- token, which the provider's verifier took, and which has the cookie's nonce.
pub record Vouched (lib : SsoLibrary) (state_cookie : OidcStateCookie) (code : String)
    (p : OidcProvider) (identity : Identity) : Type 0 where
  raw : String
  token : IdToken
  given_token : raw ≢ ""
  exchanged : lib.oidc.exchange p.oauth code state_cookie.code_verifier ≡ ok (some raw)
  verified_token : lib.oidc.verify p.config.issuer p.config.client_id raw ≡ ok token
  same_nonce : token.nonce ≡ state_cookie.nonce
  carried : identity_from_id_token p token ≡ ok identity

-- Every check of a callback, of which the first is that the state cookie was sealed here and has not expired.
pub record Checked (lib : SsoLibrary) (now : ℕ) (cookie : Option String) (query : CallbackQuery)
    (provider_name : String) (r : IdpRegistry) (state_cookie : OidcStateCookie)
    (identity : Identity) : Type 0 where
  value : String
  p : OidcProvider
  sent : cookie ≡ some value
  sealed : decode lib.cookie now value ≡ accepted state_cookie
  same_provider : state_cookie.provider ≡ provider_name
  same_state : query.state ≡ state_cookie.state
  no_error : query.error ≡ ""
  given_code : query.code ≢ ""
  answering : Answering provider_name r p
  vouched : Vouched lib state_cookie query.code p identity

expect_sound : (b : Bool) (message : String) {u : Unit {0}} → expect b message ≡ ok u → b ≡ true
expect_sound true message h = refl
expect_sound false message h = absurd (ground (arith, h))

or_refuse_sound :
    {A : Type 0} (message : String) (r : Result A) {a : A} → or_refuse message r ≡ ok a → r ≡ ok a
or_refuse_sound message (ok a) h = h
or_refuse_sound message (err e) h = absurd (ground (arith, h))

accepted_cookie_sound :
    (d : Decoded) {state_cookie : OidcStateCookie}
    → accepted_cookie d ≡ ok state_cookie
    → d ≡ accepted state_cookie
accepted_cookie_sound (accepted x) h = ground (arith, h)
accepted_cookie_sound (expired x) h = absurd (ground (arith, h))
accepted_cookie_sound invalid h = absurd (ground (arith, h))

state_cookie_of_sound :
    (lib : SsoLibrary) (now : ℕ) (cookie : Option String) {state_cookie : OidcStateCookie}
    → state_cookie_of lib now cookie ≡ ok state_cookie
    → (value : String) × (cookie ≡ some value)
      × (decode lib.cookie now value ≡ accepted state_cookie)
state_cookie_of_sound lib now none h = absurd (ground (arith, h))
state_cookie_of_sound lib now (some value) h =
    (value, refl, accepted_cookie_sound (decode lib.cookie now value) h)

id_token_of_sound :
    (answer : Option String) {raw : String}
    → id_token_of answer ≡ ok raw
    → (answer ≡ some raw) × (raw ≢ "")
id_token_of_sound none h = absurd (ground (arith, h))
id_token_of_sound (some t) {raw} h = elim (Bool-cases (t == "")) [
  | inl blank ↦ absurd (ground (arith, blank, h))
  | inr given ↦
      let same : t ≡ raw = ground (arith, given, h) in
      (ap some same, λ nothing. ground (arith, given, eq_iff t "", same ∙ nothing))
]

available_sound :
    (provider_name : String) (r : IdpRegistry) {p : OidcProvider}
    → available provider_name r ≡ ok p
    → Answering provider_name r p
unfolding available
available_sound provider_name r {p} h = elim (Option-cases (get_provider provider_name r)) [
  | inl none_there ↦ absurd (ground (arith, none_there, h))
  | inr (entry, there) ↦ elim (Option-cases entry.provider) [
    | inl no_provider ↦ absurd (ground (arith, there, no_provider, h))
    | inr (q, its) ↦ record {
      entry = entry;
      found = there;
      switched_on = ground (arith, there, its, h);
      ready = ground (arith, there, its, h);
      its_provider = ground (arith, there, its, h);
    }
  ]
]

identified_sound :
    (lib : SsoLibrary) (state_cookie : OidcStateCookie) (code : String) (p : OidcProvider)
    {identity : Identity}
    → identified lib state_cookie code p ≡ ok identity
    → Vouched lib state_cookie code p identity
unfolding identified
identified_sound lib state_cookie code p {identity} h =
    elim (Result-cases (lib.oidc.exchange p.oauth code state_cookie.code_verifier)) [
      | inr (e, failed) ↦ absurd (ground (arith, failed, h))
      | inl (answer, exchanged) ↦ elim (Result-cases (id_token_of answer)) [
        | inr (e, failed) ↦ absurd (ground (arith, exchanged, failed, h))
        | inl (raw, got) ↦
            elim (Result-cases (lib.oidc.verify p.config.issuer p.config.client_id raw)) [
              | inr (e, failed) ↦ absurd (ground (arith, exchanged, got, failed, h))
              | inl (token, took) ↦ record {
                raw = raw;
                given_token = (id_token_of_sound answer got).1;
                token = token;
                exchanged = exchanged ∙ ap ok (id_token_of_sound answer got).0;
                verified_token = took;
                same_nonce =
                    ground (arith, exchanged, got, took, h, eq_iff token.nonce state_cookie.nonce);
                carried =
                    or_refuse_sound "identity extraction failed" (identity_from_id_token p token)
                      (ground (arith, exchanged, got, took, h));
              }
            ]
      ]
    ]

pub verified_sound :
    (lib : SsoLibrary) (now : ℕ) (cookie : Option String) (query : CallbackQuery)
    (provider_name : String) (r : IdpRegistry) {state_cookie : OidcStateCookie}
    {identity : Identity}
    → verified lib now cookie query provider_name r ≡ ok (state_cookie, identity)
    → Checked lib now cookie query provider_name r state_cookie identity
unfolding verified
verified_sound lib now cookie query provider_name r {state_cookie} {identity} h =
    elim (Result-cases (state_cookie_of lib now cookie)) [
      | inr (e, failed) ↦ absurd (ground (arith, failed, h))
      | inl (sc, read) ↦ elim (Result-cases (available provider_name r)) [
        | inr (e, failed) ↦ absurd (ground (arith, read, failed, h))
        | inl (p, ready) ↦ elim (Result-cases (identified lib sc query.code p)) [
          | inr (e, failed) ↦ absurd (ground (arith, read, ready, failed, h))
          | inl (i, known) ↦
              let same : sc ≡ state_cookie = ground (arith, read, ready, known, h) in
              let (value, sent, sealed) =
                state_cookie_of_sound lib now cookie (read ∙ ap ok same) in
              record {
                value = value;
                p = p;
                sent = sent;
                sealed = sealed;
                same_provider =
                    ground (arith, read, ready, known, h, eq_iff sc.provider provider_name, same);
                same_state =
                    ground (arith, read, ready, known, h, eq_iff query.state sc.state, same);
                no_error = ground (arith, read, ready, known, h, eq_iff query.error "");
                given_code = ground (arith, read, ready, known, h, eq_iff query.code "");
                answering = available_sound provider_name r ready;
                vouched = identified_sound lib state_cookie query.code p (
                    subst (λ z. identified lib z query.code p ≡ ok identity) same
                      (known ∙ ap ok (ground (arith, read, ready, known, h))));
              }
        ]
      ]
    ]
