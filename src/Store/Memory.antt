-- ===== src/Store/Memory.antt =====
-- internal/store/store.go: the error values, the state of the in-memory store, and what a method
-- takes from outside the program. Every method holds `mu` from after its context test to its end, so
-- a method is one step of the state.
use shclop.Prelude.{
  ◌⊎◌, inl, inr, ◌≡◌, refl, ℕ, String, Bool, false, Option, none, some, List, [], ◌∷◌,
}
use shclop.Prelude.Dict.{Dict}
use shclop.Domain.{
  User, Agent, LlmModel, IntegrationConnection, AgentIntegration, PluginManifest, UserIdentity,
}

-- The package's error values, and any other error by its text.
pub data Err : Type 0 where
  not_found forbidden conflict invalid_input : Err
  failure : String → Err

-- `err.Error()`
abbrev pub error_text : Err → String
error_text not_found = "not found"
error_text forbidden = "forbidden"
error_text conflict = "conflict"
error_text invalid_input = "invalid input"
error_text (failure t) = t

pub data Result {ℓ} (A : Type ℓ) : Type ℓ where
  ok : A → Result A
  err : Err → Result A

infixl 5 ◌>>=◌
abbrev pub ◌>>=◌ {ℓ κ} : {A : Type ℓ} {B : Type κ} → Result A → (A → Result B) → Result B
ok a >>= f = f a
err e >>= f = err e

-- To split on a computed result and keep the equation.
pub Result-cases {ℓ} :
    {A : Type ℓ} (r : Result A) → ((a : A) × (r ≡ ok a)) ⊎ ((e : Err) × (r ≡ err e))
Result-cases (ok a) = inl (a, refl)
Result-cases (err e) = inr (e, refl)

-- What one call finds outside the program: `ctx.Err()`, what `newID` makes of the system's
-- randomness, and the clock.
pub record Call : Type 0 where
  pub ctx_err : Option Err
  pub new_id : Result String
  pub now : ℕ

pub record Memory : Type 0 where
  pub users : List User
  pub password_hashes : Dict String
  pub agents : List Agent
  pub llm_models : List LlmModel
  pub gateway_enabled : Bool
  pub gateway_base_url : String
  pub gateway_secret : String
  pub gateway_key : String
  pub gateway_updated : ℕ
  pub integrations : List IntegrationConnection
  pub agent_integrations : List AgentIntegration
  pub plugin_manifests : Dict PluginManifest
  pub user_identities : List UserIdentity
  pub app_settings : Dict String

-- A method returns its result and the state that it leaves.
abbrev pub Method {ℓ} : Type ℓ → Type ℓ
Method A = Memory → Result A × Memory

-- `if err := ctx.Err(); err != nil { return err }` before the body.
abbrev pub with_ctx {ℓ} : {A : Type ℓ} → Call → Method A → Method A
with_ctx c body m = elim c.ctx_err [ none ↦ body m | some e ↦ (err e, m) ]

unfoldable pub new_memory : Memory
new_memory = record {
  users = [];
  password_hashes = [];
  agents = [];
  llm_models = [];
  gateway_enabled = false;
  gateway_base_url = "";
  gateway_secret = "";
  gateway_key = "";
  gateway_updated = 0;
  integrations = [];
  agent_integrations = [];
  plugin_manifests = [];
  user_identities = [];
  app_settings = ("auth.mode", "local") ∷ [];
}
