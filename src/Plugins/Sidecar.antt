-- ===== src/Plugins/Sidecar.antt =====
-- internal/plugins/sidecar.go: a plugin that another process evaluates. HTTP, JSON and time-outs are a
-- `SidecarLibrary`; `post` is the request from its encoding to the reply.
use Prim.Native.String.{◌++◌ as append}
use shclop.Prelude.{
  ℕ, String, Bool, not, ◌||◌, Option, none, some, [], ◌==◌, ltb, leb, if◌then◌else◌,
}
use shclop.Prelude.Dict.{Dict}
use shclop.Store.Memory.{failure, Result, ok, err, ◌>>=◌}
use shclop.Plugins.Manifest.{Manifest, SidecarSpec}
use shclop.Plugins.Evaluator.{TemplateContext, ValidationResult, HttpReply}

-- The body of a request: the fields, and the context's token where it is sent.
pub record SidecarRequest : Type 0 where
  pub fields : Dict String
  pub token : Option String

pub record SidecarAnswer : Type 0 where
  pub external_account_id : String
  pub external_login : String
  pub account_type : String
  pub status : String

-- An `env` that is missing or null is none.
pub record SidecarLibrary : Type 0 where
  pub timeout_ok : String → Bool
  pub post : String → SidecarRequest → Result HttpReply
  pub decode_answer : String → Result SidecarAnswer
  pub decode_env : String → Result (Option (Dict String))

abbrev is_success : ℕ → Bool
is_success status = not (ltb status 200 || leb 300 status)

abbrev replied : SidecarLibrary → String → SidecarRequest → String → SidecarSpec → Result HttpReply
replied lib path request failing s =
    if not (lib.timeout_ok s.timeout) then err (failure "invalid timeout") else (do
      reply ← lib.post (append s.url path) request
      if is_success reply.status then ok reply else err (failure failing))

abbrev of_spec {ℓ} : {A : Type ℓ} → (SidecarSpec → Result A) → Option SidecarSpec → Result A
of_spec k none = err (failure "sidecar spec is nil")
of_spec k (some s) = k s

abbrev sidecar_of {ℓ} : {A : Type ℓ} → (SidecarSpec → Result A) → Manifest → Result A
sidecar_of k m =
    if m.spec.plugin_kind == "sidecar"
    then of_spec k m.spec.sidecar
    else err (failure "expected kind sidecar")

abbrev connected : SidecarAnswer → Result ValidationResult
connected answer =
    if answer.status == "connected"
    then ok (record {
      external_account_id = answer.external_account_id;
      external_login = answer.external_login;
      account_type = answer.account_type;
    })
    else err (failure "validate status")

-- `SidecarClient.Validate`
unfoldable pub validate_sidecar :
    SidecarLibrary → Manifest → TemplateContext → Result ValidationResult
validate_sidecar lib m vars =
    sidecar_of
      (λ s. do
        reply ←
            replied lib "/validate" (record { fields = vars.fields; token = some vars.token })
              "validate returned" s
        answer ← lib.decode_answer reply.body
        connected answer)
      m

abbrev or_no_env : Option (Dict String) → Dict String
or_no_env none = []
or_no_env (some env) = env

-- `SidecarClient.BuildEnv`
unfoldable pub build_sidecar_env :
    SidecarLibrary → Manifest → TemplateContext → Result (Dict String)
build_sidecar_env lib m vars =
    sidecar_of
      (λ s. do
        reply ←
            replied lib "/runtime-env" (record { fields = vars.fields; token = none })
              "runtime-env returned" s
        env ← lib.decode_env reply.body
        ok (or_no_env env))
      m
