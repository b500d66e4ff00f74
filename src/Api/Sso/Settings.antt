-- ===== src/Api/Sso/Settings.antt =====
-- internal/api/oidc.go: the providers as anyone sees them, and the settings of the administrators.
use shclop.Prelude.{
  ℕ, ◌+◌, String, Bool, true, false, not, ◌||◌, Option, none, some, List, [], ◌∷◌, map, ◌==◌,
}
use shclop.Prelude.Lists.{select}
use shclop.Domain.{User, IdpProviderDiagnostics, IdpProviderSummary, AuthSettings}
use shclop.Store.Memory.{Call}
use shclop.Store.Settings.{set_app_setting}
use shclop.Identity.Provider.{OidcProviderConfig}
use shclop.Identity.Registry.{
  ProviderStatus, status_ready, status_degraded, MaterializedProvider, list_providers, enabled_key,
  reload,
}
use shclop.Api.Server.{
  of_providers, of_auth_settings, go, Server, Handler, ◌>>=◌, ◌>>◌, pure, respond, bad_request,
  when, call_store, or_store_error,
}
use shclop.Api.Access.{require_user, require_admin}
use shclop.Api.Agents.{decoded}

abbrev status_name : ProviderStatus → String
status_name status_ready = "ready"
status_name status_degraded = "degraded"

unfoldable pub public_summary : MaterializedProvider → IdpProviderSummary
public_summary p = record {
  name = p.config.name;
  display_name = p.config.display_name;
  status = status_name p.status;
  error = p.last_err;
  enabled = p.enabled;
  diagnostics = none;
}

unfoldable pub diagnostics_of : OidcProviderConfig → IdpProviderDiagnostics
diagnostics_of config = record {
  issuer = config.issuer;
  client_id = config.client_id;
  redirect_uri = config.redirect_uri;
  scopes = config.scopes;
  email_claim = config.email_claim;
  name_claim = config.name_claim;
  groups_claim = config.groups_claim;
  secret_set = not (config.client_secret == "");
}

unfoldable pub admin_summary : MaterializedProvider → IdpProviderSummary
unfolding public_summary
admin_summary p = record (public_summary p) { diagnostics = some (diagnostics_of p.config) }

abbrev is_enabled : MaterializedProvider → Bool
is_enabled p = p.enabled

unfoldable pub handle_list_auth_providers : Handler (Unit {0})
unfolding list_providers
handle_list_auth_providers s =
    respond 200
      (of_providers (map public_summary (select is_enabled (list_providers s.idp.snapshot)))) s

unfoldable pub auth_settings : Server → AuthSettings
unfolding list_providers
auth_settings s = record {
  mode = s.idp.mode;
  providers = map admin_summary (list_providers s.idp.snapshot);
}

unfoldable pub get_auth_settings_as : User → Handler (Unit {0})
unfolding auth_settings
get_auth_settings_as user s = respond 200 (of_auth_settings (auth_settings s)) s

unfoldable pub handle_get_auth_settings : (ℕ → Call) → String → Handler (Unit {0})
handle_get_auth_settings at authorization = do
  user ← require_user (at 0) authorization
  require_admin user
  get_auth_settings_as user

pub record ProviderPatch : Type 0 where
  pub name : String
  pub enabled : Option Bool

pub record AuthPatch : Type 0 where
  pub mode : Option String
  pub providers : List ProviderPatch

abbrev is_auth_mode : String → Bool
is_auth_mode mode = mode == "local" || mode == "sso" || mode == "both"

abbrev save_mode : (ℕ → Call) → Option String → Handler (Unit {0})
save_mode at none = pure tt
save_mode at (some mode) = do
  when (not (is_auth_mode mode)) (bad_request "bad request: invalid mode")
  r ← call_store (set_app_setting (at 1) "auth.mode" mode)
  or_store_error r

abbrev switch_text : Bool → String
switch_text true = "true"
switch_text false = "false"

abbrev save_switch : Call → ProviderPatch → Option Bool → Handler (Unit {0})
save_switch c p none = pure tt
save_switch c p (some enabled) = do
  r ← call_store (set_app_setting c (enabled_key p.name) (switch_text enabled))
  or_store_error r

-- One turn for each provider, the first error ends it.
unfoldable pub save_switches : (ℕ → Call) → ℕ → List ProviderPatch → Handler (Unit {0})
save_switches at i [] = pure tt
save_switches at i (p ∷ ps) = do save_switch (at i) p p.enabled; save_switches at (i + 1) ps

-- That the registry could not be reloaded is logged only.
abbrev reloaded : (ℕ → Call) → Handler (Unit {0})
reloaded at s = (go tt, record s { idp = (reload (at 2) (at 3) s.store s.idp).1 })

-- The settings are answered as `handleGetAuthSettings` does, which asks again who the user is.
unfoldable pub patch_auth_settings_as :
    (ℕ → Call) → (ℕ → Call) → String → Option AuthPatch → User → Handler (Unit {0})
unfolding save_switches reload
patch_auth_settings_as at again authorization body user = do
  request ← decoded body
  save_mode at request.mode
  save_switches at 4 request.providers
  reloaded at
  handle_get_auth_settings again authorization

unfoldable pub handle_patch_auth_settings :
    (ℕ → Call) → (ℕ → Call) → String → Option AuthPatch → Handler (Unit {0})
unfolding patch_auth_settings_as
handle_patch_auth_settings at again authorization body = do
  user ← require_user (at 0) authorization
  require_admin user
  patch_auth_settings_as at again authorization body user
