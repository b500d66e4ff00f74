-- ===== src/Plugins/Manifest/Checks.antt =====
-- internal/plugins/manifest.go: each check of `Validate` and the rule that it tests.
use shclop.Prelude.{
  Bool-cases, subst, ◌==◌, String, ◌≡◌, ◌≢◌, refl, ◌↔◌, ◌⊎◌, inl, inr, Bool, true, Option, none,
  some, List, [], ◌∷◌, arith, eq_iff, Option-cases,
}
use shclop.Prelude.Dict.{Dict}
use shclop.Plugins.Manifest.{
  ◌then_check◌, false, default_scopes, Problem, with_scopes, check_head, check_kind, check_http,
  check_sidecar, FormField, HttpValidate, SidecarSpec, McpRef, ManifestSpec, Manifest, id_matches,
  check_scopes, check_fields, check_mcp_ref, check_mcp_refs, check_texts, check_http_texts,
  check_mcp_texts,
}
use shclop.Plugins.Manifest.Rules.{
  All, IsScope, IsHttpMethod, IsHttpPlugin, IsSidecarPlugin, IsMcpRef, Parses, HttpParses,
  ExternalParses,
}

kinds_differ : ◌≢◌ {A = String} "http_template" "sidecar"
kinds_differ = ground (arith, eq_iff "http_template" "sidecar")

module _ (parses : String → Bool) where
  pub check_texts_iff : (d : Dict String) → (check_texts parses d ≡ none) ↔ All (Parses parses) d
  unfolding check_texts
  check_texts_iff [] = ((λ h. tt), (λ h. refl))
  check_texts_iff ((k, v) ∷ rest) = (
    (λ h. (ground arith, (check_texts_iff rest).0 (ground arith))),
    (λ h. ground (arith, (check_texts_iff rest).1 h.1)),
  )

  pub check_http_texts_iff :
      (o : Option HttpValidate) → (check_http_texts parses o ≡ none) ↔ HttpParses parses o
  check_http_texts_iff none = ((λ h. tt), (λ h. refl))
  check_http_texts_iff (some x) = (
    (λ h. (ground arith, (check_texts_iff x.headers).0 (ground arith))),
    (λ h. ground (arith, (check_texts_iff x.headers).1 h.1)),
  )

  pub check_mcp_texts_iff :
      (rs : List McpRef)
      → (check_mcp_texts parses rs ≡ none) ↔ All (λ r. ExternalParses parses r.external) rs
  unfolding check_mcp_texts
  check_mcp_texts_iff [] = ((λ h. tt), (λ h. refl))
  check_mcp_texts_iff (r ∷ rs) = elim (Option-cases r.external) [
    | inl e ↦
        rw e ((λ h. (tt, (check_mcp_texts_iff rs).0 h)), (λ h. (check_mcp_texts_iff rs).1 h.1))
    | inr (x, e) ↦ rw e (
      (λ h. ((ground arith, ground arith), (check_mcp_texts_iff rs).0 (ground arith))),
      (λ h. ground (arith, (check_mcp_texts_iff rs).1 h.1)),
    )
  ]

pub check_scopes_iff : (scs : List String) → (check_scopes scs ≡ none) ↔ All IsScope scs
unfolding check_scopes
check_scopes_iff [] = ((λ h. tt), (λ h. refl))
check_scopes_iff (sc ∷ scs) = (
  (λ h.
      (ground (arith, eq_iff sc "user", eq_iff sc "org"), (check_scopes_iff scs).0 (ground arith))),
  (λ h. ground (arith, eq_iff sc "user", eq_iff sc "org", (check_scopes_iff scs).1 h.1)),
)

pub check_fields_iff : (fs : List FormField) → (check_fields fs ≡ none) ↔ All (λ f. f.name ≢ "") fs
unfolding check_fields
check_fields_iff [] = ((λ h. tt), (λ h. refl))
check_fields_iff (f ∷ fs) = (
  (λ h. (ground (arith, eq_iff f.name ""), (check_fields_iff fs).0 (ground arith))),
  (λ h. ground (arith, eq_iff f.name "", (check_fields_iff fs).1 h.1)),
)

pub check_mcp_ref_iff : (r : McpRef) → (check_mcp_ref r ≡ none) ↔ IsMcpRef r
check_mcp_ref_iff r = (
  (λ h. ground (arith, eq_iff r.name "", eq_iff r.ref "")),
  (λ h. ground (arith, eq_iff r.name "", eq_iff r.ref "")),
)

pub check_mcp_refs_iff : (rs : List McpRef) → (check_mcp_refs rs ≡ none) ↔ All IsMcpRef rs
unfolding check_mcp_refs
check_mcp_refs_iff [] = ((λ h. tt), (λ h. refl))
check_mcp_refs_iff (r ∷ rs) = (
  (λ h. ((check_mcp_ref_iff r).0 (ground arith), (check_mcp_refs_iff rs).0 (ground arith))),
  (λ h. ground (arith, (check_mcp_ref_iff r).1 h.0, (check_mcp_refs_iff rs).1 h.1)),
)

pub http_of_check :
    (o : Option HttpValidate)
    → check_http o ≡ none
    → (h : HttpValidate) × (o ≡ some h)
      × IsHttpMethod h.method
      × (h.url ≢ "")
      × (h.success_status ≢ [])
http_of_check none e = absurd (ground arith)
http_of_check (some h) e = (
  h,
  refl,
  ground (arith, eq_iff h.method "GET", eq_iff h.method "POST", eq_iff h.method "HEAD"),
  ground (arith, eq_iff h.url ""),
  ground arith,
)

pub check_of_http :
    (h : HttpValidate)
    → IsHttpMethod h.method
    → h.url ≢ ""
    → h.success_status ≢ []
    → check_http (some h) ≡ none
check_of_http h method url status =
    ground (
      arith,
      eq_iff h.method "GET",
      eq_iff h.method "POST",
      eq_iff h.method "HEAD",
      eq_iff h.url "",
    )

pub sidecar_of_check :
    (o : Option SidecarSpec)
    → check_sidecar o ≡ none
    → (sc : SidecarSpec) × (o ≡ some sc) × (sc.url ≢ "")
sidecar_of_check none e = absurd (ground arith)
sidecar_of_check (some sc) e = (sc, refl, ground (arith, eq_iff sc.url ""))

pub plugin_of_check :
    (s : ManifestSpec)
    → (s.plugin_kind ≡ "http_template") ⊎ (s.plugin_kind ≡ "sidecar")
    → check_kind s ≡ none
    → IsHttpPlugin s ⊎ IsSidecarPlugin s
plugin_of_check s (inl k) e =
    inl (k, http_of_check s.http (ground (arith, eq_iff s.plugin_kind "http_template")))
plugin_of_check s (inr k) e = inr (
  k,
  sidecar_of_check s.sidecar (
      ground (
        arith,
        eq_iff s.plugin_kind "http_template",
        eq_iff s.plugin_kind "sidecar",
        kinds_differ,
      )),
)

pub check_of_plugin : (s : ManifestSpec) → IsHttpPlugin s ⊎ IsSidecarPlugin s → check_kind s ≡ none
check_of_plugin s (inl (k, (h, e, method, url, status))) =
    ground (arith, eq_iff s.plugin_kind "http_template", check_of_http h method url status)
check_of_plugin s (inr (k, (sc, e, url))) = ground (
  arith,
  eq_iff s.plugin_kind "http_template",
  eq_iff s.plugin_kind "sidecar",
  eq_iff sc.url "",
  kinds_differ,
)

pub head_of_check :
    (m : Manifest)
    → check_head m ≡ none
    → (m.api_version ≡ "shclop.io/v1alpha1")
      × (m.kind ≡ "IntegrationPlugin")
      × (id_matches m.spec.id ≡ true)
      × ((m.spec.plugin_kind ≡ "http_template") ⊎ (m.spec.plugin_kind ≡ "sidecar"))
unfolding check_head
head_of_check m h = (
  ground (arith, eq_iff m.api_version "shclop.io/v1alpha1"),
  ground (arith, eq_iff m.kind "IntegrationPlugin"),
  ground arith,
  ground (arith, eq_iff m.spec.plugin_kind "http_template", eq_iff m.spec.plugin_kind "sidecar"),
)

-- The empty text is no id, so the test for it is covered by the pattern.
pub id_matches-ne-empty : (id : String) → id_matches id ≡ true → (id == "") ≡ false
unfolding id_matches
id_matches-ne-empty id h = elim (Bool-cases (id == "")) [
  | inl e ↦ absurd (cc (subst (λ t. id_matches t ≡ true) ((eq_iff id "").0 e) h))
  | inr e ↦ e
]

pub check_head-with_scopes : (m : Manifest) → check_head (with_scopes m) ≡ check_head m
unfolding check_head
check_head-with_scopes m = refl

pub default_scopes-default_scopes :
    (scs : List String) → default_scopes (default_scopes scs) ≡ default_scopes scs
default_scopes-default_scopes [] = refl
default_scopes-default_scopes (sc ∷ scs) = refl

pub with_scopes-with_scopes : (m : Manifest) → with_scopes (with_scopes m) ≡ with_scopes m
with_scopes-with_scopes m = rw default_scopes-default_scopes

-- A chain of checks that finds nothing is two that find nothing.
pub none_of_then_check : (a b : Option Problem) → (a then_check b) ≡ none → (a ≡ none) × (b ≡ none)
none_of_then_check none b h = (refl, h)
none_of_then_check (some p) b h = absurd (ground arith)
