-- ===== src/Plugins/Manifest.antt =====
-- internal/plugins/manifest.go: a plugin's manifest and its validation. A Go map is an association
-- list; the parser of `text/template` is the argument `parses`.
pub mod Rules
pub mod Checks
pub mod Valid
use Prim.Native.Char.{Char, code}
use Prim.Native.String.{[] as empty, ◌∷◌ as push}
use shclop.Prelude.{
  ℕ, String, Bool, true, false, not, ◌&&◌, ◌||◌, Option, none, some, List, [], ◌∷◌, ◌==◌, eqb, leb,
  if◌then◌else◌, is_none, is_some,
}
use shclop.Prelude.Dict.{Dict}

pub record FormField : Type 0 where
  pub name : String
  pub label : String
  pub secret : Bool
  pub placeholder : String
  pub help_url : String

pub record AuthSpec : Type 0 where
  pub kind : String
  pub fields : List FormField

pub record ExtractSpec : Type 0 where
  pub external_account_id : String
  pub external_login : String
  pub account_type : String

pub record HttpValidate : Type 0 where
  pub method : String
  pub url : String
  pub headers : Dict String
  pub success_status : List ℕ
  pub extract : ExtractSpec
  pub timeout : String

pub record SidecarSpec : Type 0 where
  pub url : String
  pub timeout : String

pub record ExternalMcp : Type 0 where
  pub url : String
  pub auth_header : String

pub record McpRef : Type 0 where
  pub name : String
  pub ref : String
  pub external : Option ExternalMcp
  pub env_from : Dict String

pub record Contributions : Type 0 where
  pub env : Dict String
  pub mcp_servers : List McpRef

pub record ManifestSpec : Type 0 where
  pub id : String
  pub display_name : String
  pub description : String
  pub plugin_kind : String
  pub scopes_supported : List String
  pub auth : AuthSpec
  pub http : Option HttpValidate
  pub sidecar : Option SidecarSpec
  pub contributions : Contributions

pub record Manifest : Type 0 where
  pub api_version : String
  pub kind : String
  pub name : String
  pub source : String
  pub spec : ManifestSpec

-- The errors of `Validate`, one for each message.
pub data Problem : Type 0 where
  bad_api_version bad_kind no_id bad_id bad_plugin_kind bad_scope bad_auth_type no_auth_fields :
      Problem
  no_field_name no_http bad_method no_url no_success_status no_sidecar no_sidecar_url : Problem
  no_mcp_name ref_and_external no_ref_or_external bad_template : Problem

-- `[a-z0-9]`
unfoldable pub is_id_start : Char → Bool
is_id_start ch = let c = code ch in leb 97 c && leb c 122 || leb 48 c && leb c 57

-- `[a-z0-9-]*$`
unfoldable pub all_id_chars : String → Bool
all_id_chars empty = true
all_id_chars (push c s) = (is_id_start c || eqb (code c) 45) && all_id_chars s

-- `^[a-z0-9][a-z0-9-]*$`
unfoldable pub id_matches : String → Bool
unfolding is_id_start all_id_chars
id_matches empty = false
id_matches (push c s) = is_id_start c && all_id_chars s

abbrev pub is_nil {ℓ} : {A : Type ℓ} → List A → Bool
is_nil [] = true
is_nil (x ∷ xs) = false

-- Each check returns the first problem that it meets.
infixr 25 ◌then_check◌
abbrev pub ◌then_check◌ : Option Problem → Option Problem → Option Problem
none then_check rest = rest
some p then_check rest = some p

abbrev pub reject_if : Bool → Problem → Option Problem
reject_if true p = some p
reject_if false p = none

unfoldable pub check_scopes : List String → Option Problem
check_scopes [] = none
check_scopes (sc ∷ scs) =
    reject_if (not (sc == "user") && not (sc == "org")) bad_scope then_check check_scopes scs

unfoldable pub check_fields : List FormField → Option Problem
check_fields [] = none
check_fields (f ∷ fs) = reject_if (f.name == "") no_field_name then_check check_fields fs

abbrev pub check_http : Option HttpValidate → Option Problem
check_http none = some no_http
check_http (some h) =
    reject_if (not (h.method == "GET") && not (h.method == "POST") && not (h.method == "HEAD"))
      bad_method
    then_check reject_if (h.url == "") no_url
    then_check reject_if (is_nil h.success_status) no_success_status

abbrev pub check_sidecar : Option SidecarSpec → Option Problem
check_sidecar none = some no_sidecar
check_sidecar (some sc) = reject_if (sc.url == "") no_sidecar_url

-- The `switch` on the kind of plugin.
abbrev pub check_kind : ManifestSpec → Option Problem
check_kind s =
    if s.plugin_kind == "http_template"
    then check_http s.http
    else if s.plugin_kind == "sidecar"
    then check_sidecar s.sidecar
    else none

-- `hasRef == hasExt` is an error, told apart by `hasRef`.
abbrev pub check_mcp_ref : McpRef → Option Problem
check_mcp_ref r =
    reject_if (r.name == "") no_mcp_name
    then_check (if not (r.ref == "")
        then reject_if (is_some r.external) ref_and_external
        else reject_if (is_none r.external) no_ref_or_external)

unfoldable pub check_mcp_refs : List McpRef → Option Problem
check_mcp_refs [] = none
check_mcp_refs (r ∷ rs) = check_mcp_ref r then_check check_mcp_refs rs

unfoldable pub check_texts : (String → Bool) → Dict String → Option Problem
check_texts parses [] = none
check_texts parses ((k, v) ∷ rest) =
    reject_if (not (parses v)) bad_template then_check check_texts parses rest

abbrev pub check_http_texts : (String → Bool) → Option HttpValidate → Option Problem
check_http_texts parses none = none
check_http_texts parses (some h) =
    reject_if (not (parses h.url)) bad_template then_check check_texts parses h.headers

abbrev pub check_external_texts : (String → Bool) → Option ExternalMcp → Option Problem
check_external_texts parses none = none
check_external_texts parses (some x) =
    reject_if (not (parses x.url)) bad_template
    then_check reject_if (not (parses x.auth_header)) bad_template

unfoldable pub check_mcp_texts : (String → Bool) → List McpRef → Option Problem
check_mcp_texts parses [] = none
check_mcp_texts parses (r ∷ rs) =
    check_external_texts parses r.external then_check check_mcp_texts parses rs

-- `validateTemplates`
abbrev pub validate_templates : (String → Bool) → ManifestSpec → Option Problem
validate_templates parses s =
    check_http_texts parses s.http
    then_check check_texts parses s.contributions.env
    then_check check_mcp_texts parses s.contributions.mcp_servers

abbrev pub default_scopes : List String → List String
default_scopes [] = "user" ∷ []
default_scopes (x ∷ xs) = x ∷ xs

-- The checks that come before the scopes are given their default.
unfoldable pub check_head : Manifest → Option Problem
check_head m =
    reject_if (not (m.api_version == "shclop.io/v1alpha1")) bad_api_version
    then_check reject_if (not (m.kind == "IntegrationPlugin")) bad_kind
    then_check reject_if (m.spec.id == "") no_id
    then_check reject_if (not (id_matches m.spec.id)) bad_id
    then_check reject_if
        (not (m.spec.plugin_kind == "http_template") && not (m.spec.plugin_kind == "sidecar"))
        bad_plugin_kind

unfoldable pub check_rest : (String → Bool) → ManifestSpec → Option Problem
check_rest parses s =
    check_scopes s.scopes_supported
    then_check reject_if (not (s.auth.kind == "pat_token")) bad_auth_type
    then_check reject_if (is_nil s.auth.fields) no_auth_fields
    then_check check_fields s.auth.fields
    then_check check_kind s
    then_check check_mcp_refs s.contributions.mcp_servers
    then_check validate_templates parses s

abbrev pub with_scopes : Manifest → Manifest
with_scopes m = record m {
  spec = record m.spec { scopes_supported = default_scopes m.spec.scopes_supported };
}

-- The error and the manifest as the call leaves it: an empty list of scopes was replaced, unless an
-- earlier check failed.
unfoldable pub validate : (String → Bool) → Manifest → Option Problem × Manifest
validate parses m = elim (check_head m) [
  | some p ↦ (some p, m)
  | none ↦ (check_rest parses (with_scopes m).spec, with_scopes m)
]
