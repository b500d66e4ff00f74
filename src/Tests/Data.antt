-- ===== src/Tests/Data.antt =====
-- The accounts, agents, connections and the server that the runs of the model use.
use shclop.Identity.Registry.{IdpRegistry}
use shclop.Prelude.{ℕ, String, Bool, true, false, none, some, [], ◌∷◌, ◌==◌}
use shclop.Domain.{User, Agent, LlmModel, IntegrationConnection, AgentIntegration, UserIdentity}
use shclop.Store.Memory.{Call, Memory, ok}
use shclop.Store.Identities.{CreateUserAndIdentityArgs}
use shclop.Plugins.Manifest.{FormField, HttpValidate, Manifest}
use shclop.Integrations.{Service}
use shclop.Gateway.{RuntimeRegistry}
use shclop.Api.Server.{Server}
use shclop.Api.Agents.{Deps}

-- A call whose context is live, that draws this id at this time.
abbrev pub call : String → ℕ → Call
call id now = record { ctx_err = none; new_id = ok id; now = now }

abbrev user : String → String → String → User
user id username role = record {
  id = id;
  username = username;
  role = role;
  disabled = false;
  created_at = 1;
  updated_at = 1;
}

abbrev pub alice : User
alice = user "u1" "alice" "user"

abbrev pub bob : User
bob = user "u2" "bob" "user"

abbrev pub writer : Agent
writer = record {
  id = "a1";
  owner_user_id = "u1";
  name = "writer";
  description = "";
  runtime = "nanoclaw";
  model = "gpt";
  system_prompt = "";
  state = "running";
  last_error = "";
  created_at = 1;
  updated_at = 1;
}

abbrev pub gpt : LlmModel
gpt = record {
  id = "m1";
  display_name = "GPT";
  provider_model = "gpt";
  enabled = true;
  created_at = 1;
  updated_at = 1;
}

abbrev pub github : IntegrationConnection
github = record {
  provider_id = "github";
  user_id = "u1";
  scope = "user";
  scope_id = "u1";
  external_account_id = "7";
  external_login = "alice";
  account_type = "User";
  status = "connected";
  secret = "sealed";
  revision = 3;
  updated_at = 1;
  created_at = 1;
}

abbrev pub writer_github : AgentIntegration
writer_github = record {
  agent_id = "a1";
  provider_id = "github";
  enabled = true;
  revision = 3;
  status = "connected";
  updated_at = 1;
  created_at = 1;
}

abbrev pub alice_at_idp : UserIdentity
alice_at_idp = record {
  provider_name = "idp";
  subject = "s1";
  user_id = "u1";
  email = "a@x";
  display_name = "Alice";
  linked_at = 1;
  last_login_at = none;
}

abbrev pub populated : Memory
populated = record {
  users = alice ∷ bob ∷ [];
  password_hashes = ("alice", "hash") ∷ [];
  agents = writer ∷ [];
  llm_models = gpt ∷ [];
  gateway_enabled = true;
  gateway_base_url = "http://llm";
  gateway_secret = "";
  gateway_key = "";
  gateway_updated = 1;
  integrations = github ∷ [];
  agent_integrations = writer_github ∷ [];
  plugin_manifests = [];
  user_identities = alice_at_idp ∷ [];
  app_settings = [];
}

abbrev pub carol_at_idp : CreateUserAndIdentityArgs
carol_at_idp = record {
  username = "carol";
  role = "user";
  provider_name = "idp";
  subject = "s3";
  email = "c@x";
  display_name = "Carol";
}

abbrev pub token_field : FormField
token_field = record {
  name = "token";
  label = "Token";
  secret = true;
  placeholder = "";
  help_url = "";
}

abbrev pub github_check : HttpValidate
github_check = record {
  method = "GET";
  url = "https://api.github.com/user";
  headers = [];
  success_status = 200 ∷ [];
  extract = record { external_account_id = "id"; external_login = "login"; account_type = "type" };
  timeout = "";
}

abbrev pub github_plugin : Manifest
github_plugin = record {
  api_version = "shclop.io/v1alpha1";
  kind = "IntegrationPlugin";
  name = "github";
  source = "file";
  spec = record {
    id = "github";
    display_name = "GitHub";
    description = "";
    plugin_kind = "http_template";
    scopes_supported = [];
    auth = record { kind = "pat_token"; fields = token_field ∷ [] };
    http = some github_check;
    sidecar = none;
    contributions = record { env = ("GITHUB_TOKEN", "{{ .token }}") ∷ []; mcp_servers = [] };
  };
}

abbrev pub every_template : String → Bool
every_template text = true

abbrev pub plugins : Service
plugins = record {
  get = λ id. some github_plugin;
  encrypt = λ plain. ok "sealed";
  decrypt = λ sealed. ok "plain";
  validate = λ m token fields.
      ok (record { external_account_id = "7"; external_login = "alice"; account_type = "User" });
  build_env = λ m token fields. ok (("GITHUB_TOKEN", token) ∷ []);
  resolver = none;
}

abbrev pub deps : Deps
deps = record {
  at = λ i. call "n" i;
  integrations = plugins;
  marshal_mcp = λ servers. ok "[]";
  random_secret = ok "fresh";
  start = λ request. ok (record {
    agent_id = request.agent_id;
    provider = "mock";
    runtime = request.runtime;
    external_id = "pod";
  });
  stop = λ id. ok tt;
}

abbrev pub registry : IdpRegistry
registry = record { snapshot = []; mode = "local"; subscribers = [] }

abbrev pub runtimes : RuntimeRegistry
runtimes = record { runtimes = ("a1", 7) ∷ []; waiters = []; closed = [] }

abbrev pub server : Server
server = record {
  store = populated;
  sessions = ("ta", alice) ∷ ("tb", bob) ∷ [];
  tokens = ("a1", "secret") ∷ [];
  activity = [];
  idp = registry;
  runtime = runtimes;
  bootstrapped = true;
}

abbrev pub compare_equal : String → String → Bool
compare_equal hash password = hash == password
