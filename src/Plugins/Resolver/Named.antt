-- ===== src/Plugins/Resolver/Named.antt =====
-- internal/plugins/mcp_resolver.go: which server stands for which reference.
use Prim.Native.String.{◌++◌ as append}
use shclop.Prelude.{
  ◌≢◌, refl, String, eq_iff, ◌==◌, Bool-cases, ◌≡◌, inl, inr, subst, none, some, List, [], ◌∷◌,
  arith, Option-cases,
}
use shclop.Prelude.Dict.{Dict}
use shclop.Store.Memory.{ok, Result-cases}
use shclop.Plugins.Manifest.{McpRef, ExternalMcp}
use shclop.Plugins.Evaluator.{TemplateContext, TemplateLibrary, render_all}
use shclop.Plugins.Resolver.{
  server_url, ResolvedMcpServer, McpServer, McpResolver, render_env_from, auth_headers,
  resolve_external, resolve_cluster, resolve_mcp, resolve,
}

-- The entries of a map with their values rendered, in order.
abbrev pub AreRendered :
    TemplateLibrary → String → TemplateContext → Dict String → Dict String → Type 0
AreRendered lib prefix vars [] [] = Unit
AreRendered lib prefix vars ((key, value) ∷ rest) ((key', rendered) ∷ later) =
    (key' ≡ key)
    × (lib.render (append prefix key) value vars ≡ ok rendered)
    × AreRendered lib prefix vars rest later
AreRendered lib prefix vars _ _ = ⊥

-- The headers of an external server: its rendered authorization, where it has one.
abbrev pub AreHeaders :
    TemplateLibrary → McpRef → ExternalMcp → TemplateContext → Dict String → Type 0
AreHeaders lib ref ext vars headers =
    ((ext.auth_header ≡ "") → headers ≡ [])
    × ((ext.auth_header ≢ "")
        → (auth : String) × (lib.render (append ref.name ".auth_header") ext.auth_header vars
            ≡ ok auth)
          × (headers ≡ ("Authorization", auth) ∷ []))

-- The URL of a server of the cluster: its own, or that of its service where it has none.
abbrev pub IsClusterUrl : McpResolver → McpServer → String → Type 0
IsClusterUrl r cr url =
    ((cr.service_url ≢ "") → url ≡ cr.service_url)
    × ((cr.service_url ≡ "")
        → url
          ≡ append "http://mcp-" (
              append cr.name (
                append "."
                  (append r.namespace (append ".svc.cluster.local:" (r.show_number cr.port))))))

-- A server for a reference: it has its name and its environment; an external one has its rendered URL and
-- headers, any other is the cluster's server of this name, with its URL and no headers.
abbrev pub IsServer :
    McpResolver → TemplateLibrary → TemplateContext → McpRef → ResolvedMcpServer → Type 0
IsServer r lib vars ref server =
    (server.name ≡ ref.name)
    × ((ext : ExternalMcp)
        → ref.external ≡ some ext
        → (lib.render (append ref.name ".url") ext.url vars ≡ ok server.url)
          × AreHeaders lib ref ext vars server.headers)
    × (ref.external ≡ none
        → ((cr : McpServer) × (r.lister ref.ref ≡ ok cr) × IsClusterUrl r cr server.url)
          × (server.headers ≡ []))
    × AreRendered lib "env:" vars ref.env_from server.env

abbrev pub AreServers :
    McpResolver → TemplateLibrary → TemplateContext → List McpRef → List ResolvedMcpServer → Type 0
AreServers r lib vars [] [] = Unit
AreServers r lib vars (ref ∷ refs) (server ∷ servers) =
    IsServer r lib vars ref server × AreServers r lib vars refs servers
AreServers r lib vars _ _ = ⊥

render_all-AreRendered :
    (lib : TemplateLibrary) (prefix : String) (vars : TemplateContext) (values : Dict String)
    {rendered : Dict String}
    → render_all lib prefix vars values ≡ ok rendered
    → AreRendered lib prefix vars values rendered
unfolding render_all
render_all-AreRendered lib prefix vars [] {rendered} h =
    subst (AreRendered lib prefix vars []) {x = []} {y = rendered} (ground (arith, h)) tt
render_all-AreRendered lib prefix vars ((key, value) ∷ rest) {rendered} h =
    elim (Result-cases (lib.render (append prefix key) value vars)) [
      | inr (e, failed) ↦ absurd (ground (arith, failed, h))
      | inl (text, one) ↦ elim (Result-cases (render_all lib prefix vars rest)) [
        | inr (e, failed) ↦ absurd (ground (arith, one, failed, h))
        | inl (later, others) ↦
            subst (AreRendered lib prefix vars ((key, value) ∷ rest)) {x = (key, text) ∷ later}
              {y = rendered} (ground (arith, one, others, h))
              (refl, one, render_all-AreRendered lib prefix vars rest others)
      ]
    ]

render_env_from-AreRendered :
    (lib : TemplateLibrary) (env_from : Dict String) (vars : TemplateContext) {env : Dict String}
    → render_env_from lib env_from vars ≡ ok env
    → AreRendered lib "env:" vars env_from env
unfolding render_env_from
render_env_from-AreRendered lib env_from vars h = render_all-AreRendered lib "env:" vars env_from h

auth_headers-AreHeaders :
    (lib : TemplateLibrary) (ref : McpRef) (ext : ExternalMcp) (vars : TemplateContext)
    {headers : Dict String}
    → auth_headers lib ref ext vars ≡ ok headers
    → AreHeaders lib ref ext vars headers
auth_headers-AreHeaders lib ref ext vars {headers} h = elim (Bool-cases (ext.auth_header == "")) [
  | inl blank ↦ (
    λ e. ground (arith, blank, h),
    λ set. absurd (ground (arith, blank, set, eq_iff ext.auth_header "")),
  )
  | inr given ↦
      elim (Result-cases (lib.render (append ref.name ".auth_header") ext.auth_header vars)) [
        | inr (e, failed) ↦ absurd (ground (arith, given, failed, h))
        | inl (auth, rendered) ↦ (
          λ e. absurd (ground (arith, given, e, eq_iff ext.auth_header "")),
          λ set. (auth, rendered, ground (arith, given, rendered, h)),
        )
      ]
]

server_url-IsClusterUrl : (r : McpResolver) (cr : McpServer) → IsClusterUrl r cr (server_url r cr)
server_url-IsClusterUrl r cr = (
  λ given. ground (arith, eq_iff cr.service_url ""),
  λ e. ground (arith, eq_iff cr.service_url ""),
)

resolve_mcp-IsServer :
    (r : McpResolver) (lib : TemplateLibrary) (ref : McpRef) (vars : TemplateContext)
    {server : ResolvedMcpServer}
    → resolve_mcp r lib ref vars ≡ ok server
    → IsServer r lib vars ref server
unfolding resolve_mcp resolve_external resolve_cluster
resolve_mcp-IsServer r lib ref vars {server} h = elim (Option-cases ref.external) [
  | inr (ext, outside) ↦ elim (Result-cases (lib.render (append ref.name ".url") ext.url vars)) [
    | inr (e, failed) ↦ absurd (ground (arith, outside, failed, h))
    | inl (url, at_url) ↦ elim (Result-cases (auth_headers lib ref ext vars)) [
      | inr (e, failed) ↦ absurd (ground (arith, outside, at_url, failed, h))
      | inl (headers, with_auth) ↦ elim (Result-cases (render_env_from lib ref.env_from vars)) [
        | inr (e, failed) ↦ absurd (ground (arith, outside, at_url, with_auth, failed, h))
        | inl (env, rendered) ↦ (
          ground (arith, outside, at_url, with_auth, rendered, h),
          (λ x same.
              let its : ext ≡ x = ground (arith, outside, same) in
              let answered : ok
                    (record { name = ref.name; url = url; headers = headers; env = env })
                  ≡ ok server =
                ground (arith, outside, at_url, with_auth, rendered, h) in
              subst
                (λ y.
                  (lib.render (append ref.name ".url") y.url vars ≡ ok server.url)
                  × AreHeaders lib ref y vars server.headers)
                its
                (
                  ground (arith, at_url, answered),
                  subst (AreHeaders lib ref ext vars) (ground (arith, answered))
                      (auth_headers-AreHeaders lib ref ext vars with_auth),
                )),
          (λ inside. absurd (ground (arith, outside, inside))),
          subst (AreRendered lib "env:" vars ref.env_from) {x = env} {y = server.env}
              (ground (arith, outside, at_url, with_auth, rendered, h))
              (render_env_from-AreRendered lib ref.env_from vars rendered),
        )
      ]
    ]
  ]
  | inl inside ↦ elim (Result-cases (r.lister ref.ref)) [
    | inr (e, failed) ↦ absurd (ground (arith, inside, failed, h))
    | inl (cr, listed) ↦ elim (Result-cases (render_env_from lib ref.env_from vars)) [
      | inr (e, failed) ↦ absurd (ground (arith, inside, listed, failed, h))
      | inl (env, rendered) ↦ (
        ground (arith, inside, listed, rendered, h),
        (λ x same. absurd (ground (arith, inside, same))),
        (λ again. (
          (
            cr,
            listed,
            subst (IsClusterUrl r cr) {x = server_url r cr} {y = server.url}
                (ground (arith, inside, listed, rendered, h)) (server_url-IsClusterUrl r cr),
          ),
          ground (arith, inside, listed, rendered, h),
        )),
        subst (AreRendered lib "env:" vars ref.env_from) {x = env} {y = server.env}
            (ground (arith, inside, listed, rendered, h))
            (render_env_from-AreRendered lib ref.env_from vars rendered),
      )
    ]
  ]
]

-- A resolution that succeeds gives one server for each reference, in their order, with its name and its environment
-- rendered: an external one with its URL and its authorization rendered, any other with the URL of the
-- server that the cluster has under the name, or of its service where it has none, and no headers.
pub resolve-AreServers :
    (r : McpResolver) (lib : TemplateLibrary) (refs : List McpRef) (vars : TemplateContext)
    {servers : List ResolvedMcpServer}
    → resolve r lib refs vars ≡ ok servers
    → AreServers r lib vars refs servers
unfolding resolve
resolve-AreServers r lib [] vars {servers} h =
    subst (AreServers r lib vars []) {x = []} {y = servers} (ground (arith, h)) tt
resolve-AreServers r lib (ref ∷ refs) vars {servers} h =
    elim (Result-cases (resolve_mcp r lib ref vars)) [
      | inr (e, failed) ↦ absurd (ground (arith, failed, h))
      | inl (entry, one) ↦ elim (Result-cases (resolve r lib refs vars)) [
        | inr (e, failed) ↦ absurd (ground (arith, one, failed, h))
        | inl (later, rest) ↦
            subst (AreServers r lib vars (ref ∷ refs)) {x = entry ∷ later} {y = servers}
              (ground (arith, one, rest, h))
              (resolve_mcp-IsServer r lib ref vars one, resolve-AreServers r lib refs vars rest)
      ]
    ]
