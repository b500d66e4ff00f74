-- ===== src/Plugins/Evaluator.antt =====
-- internal/plugins/template.go: what a plugin of the kind http_template makes of a user's fields. Templates
-- (text/template), time-outs, HTTP and JSON are a `TemplateLibrary`.
pub mod Accepted
use Prim.Native.Char.{code}
use Prim.Native.String.{◌++◌ as append, [] as empty, ◌∷◌ as push}
use shclop.Prelude.{
  ℕ, String, Bool, false, not, ◌||◌, Option, none, some, List, [], ◌∷◌, ◌==◌, eqb, if◌then◌else◌,
}
use shclop.Prelude.Text.{split_on, trim_space, strip_prefix}
use shclop.Prelude.Dict.{Dict}
use shclop.Store.Memory.{failure, Result, ok, err, ◌>>=◌}
use shclop.Plugins.Manifest.{Manifest, HttpValidate, ExtractSpec}

pub record TemplateContext : Type 0 where
  pub token : String
  pub fields : Dict String

pub record ValidationResult : Type 0 where
  pub external_account_id : String
  pub external_login : String
  pub account_type : String

-- A JSON value as `encoding/json` decodes it: an object with its members, or anything else; with each
-- the text that `%v` gives.
mutual
  pub data Json : Type 0 where
    json_object : String → Members → Json
    json_other : String → Json

  pub data Members : Type 0 where
    no_member : Members
    member : String → Json → Members → Members

pub record HttpRequest : Type 0 where
  pub method : String
  pub url : String
  pub headers : Dict String

pub record HttpReply : Type 0 where
  pub status : ℕ
  pub body : String

pub record TemplateLibrary : Type 0 where
  pub render : String → String → TemplateContext → Result String
  pub timeout_ok : String → Bool
  pub send : HttpRequest → Result HttpReply
  pub unmarshal : String → Result Json
  pub snippet : String → String

-- `BuildEnv` and the loop over the headers: each value is rendered, under the name that it has.
unfoldable pub render_all :
    TemplateLibrary → String → TemplateContext → Dict String → Result (Dict String)
render_all lib prefix vars [] = ok []
render_all lib prefix vars ((key, value) ∷ rest) = do
  rendered ← lib.render (append prefix key) value vars
  later ← render_all lib prefix vars rest
  ok ((key, rendered) ∷ later)

unfoldable pub build_env : TemplateLibrary → Manifest → TemplateContext → Result (Dict String)
unfolding render_all
build_env lib m vars = render_all lib "env:" vars m.spec.contributions.env

unfoldable pub find_member : String → Members → Option Json
find_member key no_member = none
find_member key (member name value rest) = if name == key then some value else find_member key rest

abbrev pub shown : Json → String
shown (json_object text members) = text
shown (json_other text) = text

abbrev members_of : Json → Members
members_of (json_object text members) = members
members_of (json_other text) = no_member

unfoldable pub walk : List String → Json → String
unfolding find_member
walk [] cur = shown cur
walk (segment ∷ segments) cur = elim (find_member segment (members_of cur)) [
  | none ↦ ""
  | some value ↦ walk segments value
]

abbrev without_dot : String → String
without_dot path = elim (strip_prefix "." path) [ none ↦ path | some rest ↦ rest ]

-- 46 is the dot.
unfoldable pub json_path : Json → String → String
unfolding walk split_on
json_path root path =
    if without_dot path == "" then shown root else walk (split_on 46 (without_dot path)) root

abbrev extracted : Json → String → String
extracted body path = if path == "" then "" else json_path body path

unfoldable pub has_status : ℕ → List ℕ → Bool
has_status status [] = false
has_status status (s ∷ statuses) = eqb s status || has_status status statuses

abbrev pub method_of : String → String
method_of method = if method == "" then "GET" else method

abbrev pub result_of : ExtractSpec → Json → ValidationResult
result_of extract body = record {
  external_account_id = extracted body extract.external_account_id;
  external_login = extracted body extract.external_login;
  account_type = extracted body extract.account_type;
}

abbrev checked_reply : TemplateLibrary → HttpValidate → HttpReply → Result ValidationResult
checked_reply lib h reply =
    if not (has_status reply.status h.success_status)
    then err (failure (append "validate failed: " (trim_space (lib.snippet reply.body))))
    else (do body ← lib.unmarshal reply.body; ok (result_of h.extract body))

abbrev validated : TemplateLibrary → TemplateContext → HttpValidate → Result ValidationResult
validated lib vars h = if not (lib.timeout_ok h.timeout) then err (failure "parse timeout") else (do
  url ← lib.render "url" h.url vars
  headers ← render_all lib "header:" vars h.headers
  reply ← lib.send (record { method = method_of h.method; url = url; headers = headers })
  checked_reply lib h reply)

abbrev of_http : TemplateLibrary → TemplateContext → Option HttpValidate → Result ValidationResult
of_http lib vars none = err (failure "manifest is not http_template kind or missing http spec")
of_http lib vars (some h) = validated lib vars h

-- `HTTPEvaluator.Validate`
unfoldable pub validate_http :
    TemplateLibrary → Manifest → TemplateContext → Result ValidationResult
unfolding render_all json_path has_status
validate_http lib m vars =
    of_http lib vars (if m.spec.plugin_kind == "http_template" then m.spec.http else none)
