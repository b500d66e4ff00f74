-- ===== src/Identity/Provider.antt =====
-- internal/identity/oidc.go: a provider, and the identity that a verified ID token carries. The
-- libraries go-oidc and oauth2 are an `OidcLibrary`.
pub mod Carried
use shclop.Prelude.{
  String, Bool, true, false, Option, none, some, List, [], ◌∷◌, ◌==◌, if◌then◌else◌,
}
use shclop.Prelude.Dict.{Dict, lookup}
use shclop.Store.Memory.{Err, failure, Result, ok, err, ◌>>=◌}

pub record OidcProviderConfig : Type 0 where
  pub name : String
  pub display_name : String
  pub issuer : String
  pub client_id : String
  pub client_secret : String
  pub redirect_uri : String
  pub scopes : List String
  pub email_claim : String
  pub name_claim : String
  pub groups_claim : String

-- An element of a list in a claim: text or anything else.
pub data Item : Type 0 where
  item_text : String → Item
  item_other : Item

-- The value of a claim, as `encoding/json` decodes it into an `any`.
pub data Claim : Type 0 where
  claim_null claim_other : Claim
  claim_text : String → Claim
  claim_list : List Item → Claim

-- `oidc.IDToken`: the claims decode into a map, or not.
pub record IdToken : Type 0 where
  pub subject : String
  pub nonce : String
  pub claims : Result (Dict Claim)

-- `oauth2.Config`
pub record OauthConfig : Type 0 where
  pub client_id : String
  pub client_secret : String
  pub redirect_url : String
  pub endpoint : String
  pub scopes : List String

-- `oidc.NewProvider` gives an endpoint; `Exchange` gives the token's `id_token`, if that is a text.
pub record OidcLibrary : Type 0 where
  pub new_provider : String → Result String
  pub exchange : OauthConfig → String → String → Result (Option String)
  pub verify : String → String → String → Result IdToken
  pub auth_code_url : OauthConfig → String → String → String → String

-- `Verifier` is that of the issuer for the client's id.
pub record OidcProvider : Type 0 where
  pub config : OidcProviderConfig
  pub oauth : OauthConfig

abbrev or_default : String → String → String
or_default value default = if value == "" then default else value

abbrev default_scopes : List String → List String
default_scopes [] = "openid" ∷ "email" ∷ "profile" ∷ []
default_scopes (scope ∷ rest) = scope ∷ rest

abbrev with_claims : OidcProviderConfig → OidcProviderConfig
with_claims cfg = record cfg {
  email_claim = or_default cfg.email_claim "email";
  name_claim = or_default cfg.name_claim "name";
  groups_claim = or_default cfg.groups_claim "groups";
}

abbrev discovered : OidcProviderConfig → Result String → Result OidcProvider
discovered cfg (err e) = err (failure "oidc discovery")
discovered cfg (ok endpoint) = ok (record {
  config = with_claims cfg;
  oauth = record {
    client_id = cfg.client_id;
    client_secret = cfg.client_secret;
    redirect_url = cfg.redirect_uri;
    endpoint = endpoint;
    scopes = default_scopes cfg.scopes;
  };
})

unfoldable pub new_oidc_provider : OidcLibrary → OidcProviderConfig → Result OidcProvider
new_oidc_provider lib cfg = discovered cfg (lib.new_provider cfg.issuer)

pub record Identity : Type 0 where
  pub subject : String
  pub email : String
  pub name : String
  pub groups : List String

abbrev pub text_of_claim : Option Claim → Result String
text_of_claim none = ok ""
text_of_claim (some (claim_text s)) = ok s
text_of_claim (some claim) = err (failure "claim is not a string")

unfoldable pub string_claim : Dict Claim → String → Result String
string_claim raw key = text_of_claim (lookup key raw)

unfoldable pub texts_of : List Item → List String
texts_of [] = []
texts_of (item_text s ∷ items) = s ∷ texts_of items
texts_of (item_other ∷ items) = texts_of items

unfoldable pub groups_of : Claim → List String
unfolding texts_of
groups_of (claim_text s) = s ∷ []
groups_of (claim_list items) = texts_of items
groups_of claim = []

-- The nil slice is the empty list.
unfoldable pub coerce_groups : Option Claim → List String
unfolding groups_of
coerce_groups none = []
coerce_groups (some claim) = groups_of claim

abbrev pub required : Result String → Result String
required (err e) = err e
required (ok email) =
    if email == "" then err (failure "id token missing required claim") else ok email

-- `name, _ := stringClaim(…)`
abbrev or_no_text : Result String → String
or_no_text (ok s) = s
or_no_text (err e) = ""

unfoldable pub identity_from_id_token : OidcProvider → IdToken → Result Identity
identity_from_id_token p token =
    if token.subject == "" then err (failure "id token missing required sub claim") else do
      raw ← token.claims
      email ← required (string_claim raw p.config.email_claim)
      ok (record {
        subject = token.subject;
        email = email;
        name = or_no_text (string_claim raw p.config.name_claim);
        groups = coerce_groups (lookup p.config.groups_claim raw);
      })
