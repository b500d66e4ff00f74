-- ===== src/Plugins/Resolver.antt =====
-- internal/plugins/mcp_resolver.go: the MCP servers that an agent is given. The cluster's servers (the informer's
-- cache) are an argument, as are templates and the text of a number.
pub mod Named
use Prim.Native.String.{◌++◌ as append}
use shclop.Prelude.{ℕ, String, Option, none, some, List, [], ◌∷◌, ◌==◌, if◌then◌else◌}
use shclop.Prelude.Dict.{Dict}
use shclop.Store.Memory.{failure, Result, ok, err, ◌>>=◌}
use shclop.Plugins.Manifest.{McpRef, ExternalMcp}
use shclop.Plugins.Evaluator.{TemplateContext, TemplateLibrary, render_all}

pub record ResolvedMcpServer : Type 0 where
  pub name : String
  pub url : String
  pub headers : Dict String
  pub env : Dict String

-- What the resolver reads of a server of the cluster.
pub record McpServer : Type 0 where
  pub name : String
  pub port : ℕ
  pub service_url : String

pub record McpResolver : Type 0 where
  pub lister : String → Result McpServer
  pub namespace : String
  pub show_number : ℕ → String

-- The nil map is the empty one.
unfoldable pub render_env_from :
    TemplateLibrary → Dict String → TemplateContext → Result (Dict String)
unfolding render_all
render_env_from lib env_from vars = render_all lib "env:" vars env_from

abbrev pub auth_headers :
    TemplateLibrary → McpRef → ExternalMcp → TemplateContext → Result (Dict String)
auth_headers lib ref ext vars = if ext.auth_header == "" then ok [] else (do
  auth ← lib.render (append ref.name ".auth_header") ext.auth_header vars
  ok (("Authorization", auth) ∷ []))

unfoldable pub resolve_external :
    TemplateLibrary → McpRef → ExternalMcp → TemplateContext → Result ResolvedMcpServer
unfolding render_env_from
resolve_external lib ref ext vars = do
  url ← lib.render (append ref.name ".url") ext.url vars
  headers ← auth_headers lib ref ext vars
  env ← render_env_from lib ref.env_from vars
  ok (record { name = ref.name; url = url; headers = headers; env = env })

abbrev pub server_url : McpResolver → McpServer → String
server_url r cr =
    if cr.service_url == ""
    then append "http://mcp-" (
        append cr.name
          (append "." (append r.namespace (append ".svc.cluster.local:" (r.show_number cr.port)))))
    else cr.service_url

unfoldable pub resolve_cluster :
    McpResolver → TemplateLibrary → McpRef → TemplateContext → Result ResolvedMcpServer
unfolding render_env_from
resolve_cluster r lib ref vars = do
  cr ← r.lister ref.ref
  env ← render_env_from lib ref.env_from vars
  ok (record { name = ref.name; url = server_url r cr; headers = []; env = env })

abbrev pub resolve_ref :
    Option ExternalMcp
    → McpResolver
    → TemplateLibrary
    → McpRef
    → TemplateContext
    → Result ResolvedMcpServer
resolve_ref (some ext) r lib ref vars = resolve_external lib ref ext vars
resolve_ref none r lib ref vars =
    if ref.ref == ""
    then err (failure "ref has neither external nor ref field set")
    else resolve_cluster r lib ref vars

unfoldable pub resolve_mcp :
    McpResolver → TemplateLibrary → McpRef → TemplateContext → Result ResolvedMcpServer
unfolding resolve_external resolve_cluster
resolve_mcp r lib ref vars = resolve_ref ref.external r lib ref vars

-- The first error ends it.
unfoldable pub resolve :
    McpResolver → TemplateLibrary → List McpRef → TemplateContext → Result (List ResolvedMcpServer)
unfolding resolve_mcp
resolve r lib [] vars = ok []
resolve r lib (ref ∷ refs) vars = do
  entry ← resolve_mcp r lib ref vars
  later ← resolve r lib refs vars
  ok (entry ∷ later)
