-- ===== src/Plugins/Evaluator/Accepted.antt =====
-- internal/plugins/template.go: when the credentials of a user are accepted.
use shclop.Prelude.{
  ◌≡◌, inl, inr, String, true, some, ◌==◌, eq_iff, arith, Option-cases, Bool-cases,
}
use shclop.Prelude.Dict.{Dict}
use shclop.Store.Memory.{ok, Result-cases}
use shclop.Plugins.Manifest.{Manifest, HttpValidate}
use shclop.Plugins.Evaluator.{
  TemplateContext, TemplateLibrary, ValidationResult, HttpReply, Json, render_all, has_status,
  validate_http, result_of, method_of,
}

-- Credentials are accepted only by a plugin of the kind http_template with a request to make, when the reply to the
-- request, with its URL and its headers rendered, has one of the plugin's statuses and a JSON body, from
-- which the account is taken.
pub validate_http_sound :
    (lib : TemplateLibrary) (m : Manifest) (vars : TemplateContext) {result : ValidationResult}
    → validate_http lib m vars ≡ ok result
    → (h : HttpValidate) × (url : String) × (headers : Dict String) × (reply : HttpReply)
      × (body : Json) × (m.spec.plugin_kind ≡ "http_template")
      × (m.spec.http ≡ some h)
      × (lib.render "url" h.url vars ≡ ok url)
      × (render_all lib "header:" vars h.headers ≡ ok headers)
      × (lib.send (record { method = method_of h.method; url = url; headers = headers }) ≡ ok reply)
      × (has_status reply.status h.success_status ≡ true)
      × (lib.unmarshal reply.body ≡ ok body)
      × (result ≡ result_of h.extract body)
unfolding validate_http
validate_http_sound lib m vars {result} e =
    elim (Bool-cases (m.spec.plugin_kind == "http_template")) [
      | inr other ↦ absurd (ground (arith, other, e))
      | inl kind ↦ elim (Option-cases m.spec.http) [
        | inl nothing ↦ absurd (ground (arith, kind, nothing, e))
        | inr (h, there) ↦ elim (Result-cases (lib.render "url" h.url vars)) [
          | inr (x, failed) ↦ absurd (ground (arith, kind, there, failed, e))
          | inl (url, at_url) ↦ elim (Result-cases (render_all lib "header:" vars h.headers)) [
            | inr (x, failed) ↦ absurd (ground (arith, kind, there, at_url, failed, e))
            | inl (headers, with_headers) ↦
                elim (Result-cases (
                  lib.send
                    (record { method = method_of h.method; url = url; headers = headers }))) [
                      | inr (x, failed) ↦
                          absurd (ground (arith, kind, there, at_url, with_headers, failed, e))
                      | inl (reply, replied) ↦ elim (Result-cases (lib.unmarshal reply.body)) [
                        | inr (x, failed) ↦
                            absurd (
                              ground (arith, kind, there, at_url, with_headers, replied, failed, e))
                        | inl (body, read) ↦ (
                          h,
                          url,
                          headers,
                          reply,
                          body,
                          ground (arith, kind, eq_iff m.spec.plugin_kind "http_template"),
                          there,
                          at_url,
                          with_headers,
                          replied,
                          ground (arith, kind, there, at_url, with_headers, replied, read, e),
                          read,
                          ground (arith, kind, there, at_url, with_headers, replied, read, e),
                        )
                      ]
                    ]
          ]
        ]
      ]
    ]
