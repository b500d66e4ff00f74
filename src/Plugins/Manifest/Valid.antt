-- ===== src/Plugins/Manifest/Valid.antt =====
-- internal/plugins/manifest.go: which manifests `Validate` accepts.
use shclop.Prelude.{◌==◌, String, ◌≡◌, ◌↔◌, Bool, none, arith, eq_iff}
use shclop.Plugins.Manifest.{
  not, reject_if, bad_auth_type, no_auth_fields, is_nil, validate_templates, with_scopes,
  check_rest, check_head, validate, ManifestSpec, Manifest,
}
use shclop.Plugins.Manifest.Rules.{All, Parses, HttpParses, ExternalParses, IsValid}
use shclop.Plugins.Manifest.Checks.{
  check_texts_iff, check_http_texts_iff, check_mcp_texts_iff, check_scopes_iff, check_fields_iff,
  check_mcp_refs_iff, plugin_of_check, check_of_plugin, head_of_check, id_matches-ne-empty,
  check_head-with_scopes, with_scopes-with_scopes, none_of_then_check,
}

module _ (parses : String → Bool) where
  templates_of_check :
      (s : ManifestSpec)
      → validate_templates parses s ≡ none
      → HttpParses parses s.http
        × All (Parses parses) s.contributions.env
        × All (λ r. ExternalParses parses r.external) s.contributions.mcp_servers
  templates_of_check s h =
      let (http, more) = none_of_then_check _ _ h in
      let (env, servers) = none_of_then_check _ _ more in
      (
        (check_http_texts_iff parses s.http).0 http,
        (check_texts_iff parses s.contributions.env).0 env,
        (check_mcp_texts_iff parses s.contributions.mcp_servers).0 servers,
      )

  rest_of_check :
      (m : Manifest)
      → check_head m ≡ none
      → check_rest parses (with_scopes m).spec ≡ none
      → IsValid parses (with_scopes m)
  unfolding check_rest
  rest_of_check m head rest =
      let s = (with_scopes m).spec in
      let (api, kind, id, plugin_kind) = head_of_check m head in
      let (scopes, r1) = none_of_then_check _ _ rest in
      let (auth, r2) =
        none_of_then_check (reject_if (not (s.auth.kind == "pat_token")) bad_auth_type) _ r1 in
      let (fields, r3) =
        none_of_then_check (reject_if (is_nil s.auth.fields) no_auth_fields) _ r2 in
      let (named, r4) = none_of_then_check _ _ r3 in
      let (plugin, r5) = none_of_then_check _ _ r4 in
      let (servers, templates) = none_of_then_check _ _ r5 in
      let (http_texts, env_texts, server_texts) = templates_of_check s templates in
      record {
        api = api;
        kind = kind;
        id = id;
        plugin = plugin_of_check s plugin_kind plugin;
        scopes = (check_scopes_iff s.scopes_supported).0 scopes;
        auth = ground (arith, auth, eq_iff s.auth.kind "pat_token");
        fields = ground (arith, fields);
        named = (check_fields_iff s.auth.fields).0 named;
        servers = (check_mcp_refs_iff s.contributions.mcp_servers).0 servers;
        http_texts = http_texts;
        env_texts = env_texts;
        server_texts = server_texts;
      }

  check_of_valid :
      (m : Manifest)
      → IsValid parses (with_scopes m)
      → (check_head m ≡ none) × (check_rest parses (with_scopes m).spec ≡ none)
  unfolding check_head check_rest
  check_of_valid m v =
      let s = (with_scopes m).spec in
      (
        ground (
          arith,
          v.api,
          v.kind,
          v.id,
          id_matches-ne-empty m.spec.id v.id,
          v.plugin,
          eq_iff m.api_version "shclop.io/v1alpha1",
          eq_iff m.kind "IntegrationPlugin",
          eq_iff m.spec.plugin_kind "http_template",
          eq_iff m.spec.plugin_kind "sidecar",
        ),
        ground (
          arith,
          v.auth,
          v.fields,
          eq_iff s.auth.kind "pat_token",
          (check_scopes_iff s.scopes_supported).1 v.scopes,
          (check_fields_iff s.auth.fields).1 v.named,
          check_of_plugin s v.plugin,
          (check_mcp_refs_iff s.contributions.mcp_servers).1 v.servers,
          (check_http_texts_iff parses s.http).1 v.http_texts,
          (check_texts_iff parses s.contributions.env).1 v.env_texts,
          (check_mcp_texts_iff parses s.contributions.mcp_servers).1 v.server_texts,
        ),
      )

  -- A manifest is accepted exactly when, with its scopes defaulted, it is valid.
  pub validate_iff :
      (m : Manifest) → ((validate parses m).0 ≡ none) ↔ IsValid parses (with_scopes m)
  unfolding validate
  validate_iff m = (
    (λ h. rest_of_check m (ground arith) (ground arith)),
    (λ v. ground (arith, check_of_valid m v)),
  )

  -- Validating the manifest that an accepting call leaves accepts again and changes nothing more.
  pub validate-validate :
      (m : Manifest)
      → (validate parses m).0 ≡ none
      → validate parses (validate parses m).1 ≡ (none, (validate parses m).1)
  unfolding validate
  validate-validate m h = ground (arith, check_head-with_scopes m, with_scopes-with_scopes m)
