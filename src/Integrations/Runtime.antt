-- ===== src/Integrations/Runtime.antt =====
-- internal/integrations/service.go: when the integrations of an agent resolve.
use shclop.Prelude.{
  Option-cases, ℕ, suc, String, ◌≡◌, true, false, some, List, [], ◌∷◌, ◌++◌, arith, Bool-cases, inl,
  inr,
}
use shclop.Prelude.Dict.{Dict}
use shclop.Store.Bindings.{list_agent_integrations}
use shclop.Domain.{IntegrationConnection, AgentIntegration}
use shclop.Plugins.Manifest.{Manifest}
use shclop.Store.Memory.{ok, Result-cases, Call, Memory}
use shclop.Store.Connections.{get_integration_connection}
use shclop.Plugins.Resolver.{ResolvedMcpServer}
use shclop.Integrations.{
  Service, AgentRuntimeResolution, resolve_one, resolve_all, merge_env, resolve_agent_runtime,
}

-- The user can use this provider now: its plugin is registered, and the user's own connection is stored
-- with a secret that decrypts.
abbrev pub CanUse : Service → Call → String → String → Memory → Type 0
CanUse svc c user_id provider_id m =
    ((manifest : Manifest) × (svc.get provider_id ≡ some manifest))
    × ((conn : IntegrationConnection) × (token : String) × ((get_integration_connection c user_id
            provider_id m).0
          ≡ ok conn)
        × (svc.decrypt conn.secret ≡ ok token))

resolve_one_sound :
    (svc : Service) (c : Call) (user_id : String) (ai : AgentIntegration) (m : Memory)
    {r : Dict String × List ResolvedMcpServer}
    → resolve_one svc c user_id ai m ≡ ok r
    → CanUse svc c user_id ai.provider_id m
unfolding resolve_one
resolve_one_sound svc c user_id ai m h = elim (Option-cases (svc.get ai.provider_id)) [
  | inl e ↦ absurd (ground arith)
  | inr (manifest, known) ↦
      elim (Result-cases (get_integration_connection c user_id ai.provider_id m).0) [
        | inr (x, e) ↦ absurd (ground arith)
        | inl (conn, there) ↦ elim (Result-cases (svc.decrypt conn.secret)) [
          | inr (x, e) ↦ absurd (ground arith)
          | inl (token, plain) ↦ ((manifest, known), (conn, token, there, plain))
        ]
      ]
]

-- The loop's calls of the store are numbered from `i`; a disabled integration makes none.
abbrev pub AllUsable : Service → (ℕ → Call) → ℕ → String → List AgentIntegration → Memory → Type 0
AllUsable svc at i user_id [] m = Unit
AllUsable svc at i user_id (ai ∷ ais) m = elim ai.enabled [
  | false ↦ AllUsable svc at i user_id ais m
  | true ↦ CanUse svc (at i) user_id ai.provider_id m × AllUsable svc at (suc i) user_id ais m
]

resolve_all_sound :
    (svc : Service) (at : ℕ → Call) (i : ℕ) (user_id : String) (ais : List AgentIntegration)
    (m : Memory) (acc : AgentRuntimeResolution) {r : AgentRuntimeResolution}
    → resolve_all svc at i user_id ais m acc ≡ ok r
    → AllUsable svc at i user_id ais m
unfolding resolve_all
resolve_all_sound svc at i user_id [] m acc h = tt
resolve_all_sound svc at i user_id (ai ∷ ais) m acc {r} h = elim (Bool-cases ai.enabled) [
  | inr off ↦ rw off (resolve_all_sound svc at i user_id ais m acc (rw off at h))
  | inl on ↦ elim (Result-cases (resolve_one svc (at i) user_id ai m)) [
    | inr (x, e) ↦ absurd (ground arith)
    | inl ((env, servers), e) ↦ rw on (
      resolve_one_sound svc (at i) user_id ai m e,
      resolve_all_sound svc at (suc i) user_id ais m
          (record { env = merge_env acc.env env; mcp_servers = acc.mcp_servers ++ servers }) {r = r}
          (ground arith),
    )
  ]
]

-- When the integrations of an agent resolve for a user, then for every one of them that is enabled the
-- plugin is registered and this user has a connection whose secret decrypts.
pub resolve_agent_runtime_sound :
    (svc : Service) (at : ℕ → Call) (user_id agent_id : String) (m : Memory)
    {r : AgentRuntimeResolution}
    → resolve_agent_runtime svc at user_id agent_id m ≡ ok r
    → (ais : List AgentIntegration) × ((list_agent_integrations (at 0) agent_id m).0 ≡ ok ais)
      × AllUsable svc at 1 user_id ais m
unfolding resolve_agent_runtime
resolve_agent_runtime_sound svc at user_id agent_id m {r} h =
    elim (Result-cases (list_agent_integrations (at 0) agent_id m).0) [
      | inr (x, e) ↦ absurd (ground arith)
      | inl (ais, e) ↦ (
        ais,
        e,
        resolve_all_sound svc at 1 user_id ais m (record { env = []; mcp_servers = [] }) {r = r}
            (ground arith),
      )
    ]
