-- ===== src/Plugins/Manifest/Rules.antt =====
-- internal/plugins/manifest.go: what a valid manifest is.
use shclop.Prelude.{String, ◌≡◌, ◌≢◌, ◌⊎◌, Bool, true, Option, none, some, List, [], ◌∷◌}
use shclop.Plugins.Manifest.{
  HttpValidate, SidecarSpec, ExternalMcp, McpRef, ManifestSpec, Manifest, id_matches,
}

abbrev pub All {ℓ} : {A : Type ℓ} → (A → Type 0) → List A → Type 0
All P [] = Unit
All P (x ∷ xs) = P x × All P xs

abbrev pub IsScope : String → Type 0
IsScope sc = (sc ≡ "user") ⊎ (sc ≡ "org")

abbrev pub IsHttpMethod : String → Type 0
IsHttpMethod s = (s ≡ "GET") ⊎ ((s ≡ "POST") ⊎ (s ≡ "HEAD"))

abbrev pub IsHttpPlugin : ManifestSpec → Type 0
IsHttpPlugin s =
    (s.plugin_kind ≡ "http_template")
    × ((h : HttpValidate) × (s.http ≡ some h)
        × IsHttpMethod h.method
        × (h.url ≢ "")
        × (h.success_status ≢ []))

abbrev pub IsSidecarPlugin : ManifestSpec → Type 0
IsSidecarPlugin s =
    (s.plugin_kind ≡ "sidecar") × ((sc : SidecarSpec) × (s.sidecar ≡ some sc) × (sc.url ≢ ""))

-- A server is named, and given by a reference or by an address, not both.
abbrev pub IsMcpRef : McpRef → Type 0
IsMcpRef r =
    (r.name ≢ "")
    × (((r.ref ≢ "") × (r.external ≡ none))
        ⊎ ((r.ref ≡ "") × ((x : ExternalMcp) × (r.external ≡ some x))))

module _ (parses : String → Bool) where
  abbrev pub Parses : String × String → Type 0
  Parses e = parses e.1 ≡ true

  abbrev pub HttpParses : Option HttpValidate → Type 0
  HttpParses none = Unit
  HttpParses (some h) = (parses h.url ≡ true) × All Parses h.headers

  abbrev pub ExternalParses : Option ExternalMcp → Type 0
  ExternalParses none = Unit
  ExternalParses (some x) = (parses x.url ≡ true) × (parses x.auth_header ≡ true)

  -- What a manifest must be, said of the manifest once its scopes have their default.
  pub record IsValid (m : Manifest) : Type 0 where
    pub api : m.api_version ≡ "shclop.io/v1alpha1"
    pub kind : m.kind ≡ "IntegrationPlugin"
    pub id : id_matches m.spec.id ≡ true
    pub plugin : IsHttpPlugin m.spec ⊎ IsSidecarPlugin m.spec
    pub scopes : All IsScope m.spec.scopes_supported
    pub auth : m.spec.auth.kind ≡ "pat_token"
    pub fields : m.spec.auth.fields ≢ []
    pub named : All (λ f. f.name ≢ "") m.spec.auth.fields
    pub servers : All IsMcpRef m.spec.contributions.mcp_servers
    pub http_texts : HttpParses m.spec.http
    pub env_texts : All Parses m.spec.contributions.env
    pub server_texts : All (λ r. ExternalParses r.external) m.spec.contributions.mcp_servers
