-- ===== src/Domain.antt =====
-- internal/domain/domain.go: the records that the components exchange. A `time.Time` is a number,
-- an instant on some clock, and the zero time is 0. An `int64` is its 64-bit pattern.
use shclop.Prelude.{ℕ, String, Bool, Option, List}
use shclop.Prelude.Dict.{Dict}

pub record FormFieldSummary : Type 0 where
  pub name : String
  pub label : String
  pub secret : Bool
  pub placeholder : String
  pub help_url : String

pub record McpServerSummary : Type 0 where
  pub name : String
  pub kind : String

pub record ConnectionMetadata : Type 0 where
  pub external_account_id : String
  pub external_login : String
  pub account_type : String
  pub status : String
  pub revision : ℕ

pub record AgentBindingSummary : Type 0 where
  pub agent_id : String
  pub enabled : Bool
  pub revision : ℕ
  pub status : String

pub record ProviderSummary : Type 0 where
  pub provider_id : String
  pub name : String
  pub connected : Bool
  pub connection : Option ConnectionMetadata
  pub agent_bindings : List AgentBindingSummary
  pub auth_kind : String
  pub form_fields : List FormFieldSummary
  pub mcp_servers : List McpServerSummary
  pub description : String

pub record User : Type 0 where
  pub id : String
  pub username : String
  pub role : String
  pub disabled : Bool
  pub created_at : ℕ
  pub updated_at : ℕ

pub record Agent : Type 0 where
  pub id : String
  pub owner_user_id : String
  pub name : String
  pub description : String
  pub runtime : String
  pub model : String
  pub system_prompt : String
  pub state : String
  pub last_error : String
  pub created_at : ℕ
  pub updated_at : ℕ

pub record LlmModel : Type 0 where
  pub id : String
  pub display_name : String
  pub provider_model : String
  pub enabled : Bool
  pub created_at : ℕ
  pub updated_at : ℕ

pub record LlmGatewaySettings : Type 0 where
  pub enabled : Bool
  pub base_url : String
  pub secret_name : String
  pub secret_key : String
  pub updated_at : ℕ

pub record IntegrationConnection : Type 0 where
  pub provider_id : String
  pub user_id : String
  pub scope : String
  pub scope_id : String
  pub external_account_id : String
  pub external_login : String
  pub account_type : String
  pub status : String
  pub secret : String
  pub revision : ℕ
  pub updated_at : ℕ
  pub created_at : ℕ

pub record AgentIntegration : Type 0 where
  pub agent_id : String
  pub provider_id : String
  pub enabled : Bool
  pub revision : ℕ
  pub status : String
  pub updated_at : ℕ
  pub created_at : ℕ

pub record PluginManifest : Type 0 where
  pub id : String
  pub yaml : String
  pub enabled : Bool
  pub revision : ℕ
  pub created_at : ℕ
  pub updated_at : ℕ

pub record UserIdentity : Type 0 where
  pub provider_name : String
  pub subject : String
  pub user_id : String
  pub email : String
  pub display_name : String
  pub linked_at : ℕ
  pub last_login_at : Option ℕ

pub record IdpProviderDiagnostics : Type 0 where
  pub issuer : String
  pub client_id : String
  pub redirect_uri : String
  pub scopes : List String
  pub email_claim : String
  pub name_claim : String
  pub groups_claim : String
  pub secret_set : Bool

pub record IdpProviderSummary : Type 0 where
  pub name : String
  pub display_name : String
  pub status : String
  pub error : String
  pub enabled : Bool
  pub diagnostics : Option IdpProviderDiagnostics

pub record AuthSettings : Type 0 where
  pub mode : String
  pub providers : List IdpProviderSummary

pub record AdminRuntimeConfig : Type 0 where
  pub provider : String
  pub namespace : String
  pub runtime_class_name : String
  pub images : Dict String

pub record AdminObservability : Type 0 where
  pub metrics_enabled : Bool
  pub logging_enabled : Bool
  pub grafana_url : String

pub record AdminHealthStatus : Type 0 where
  pub healthz : String
  pub readyz : String

pub record AdminOverview : Type 0 where
  pub runtime : AdminRuntimeConfig
  pub observability : AdminObservability
  pub health : AdminHealthStatus
