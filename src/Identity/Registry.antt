-- ===== src/Identity/Registry.antt =====
-- internal/identity/registry.go: the providers that are configured, which of them are switched on by the
-- application's settings, and which are still degraded. A channel of a subscriber holds at most one
-- notice: it is the Bool whether one is pending.
pub mod Overlay
pub mod Retry
use Prim.Native.String.{◌++◌ as append, compare}
use text.Mathlib.Text.{is_lt}
use shclop.Prelude.{
  String, Bool, true, false, ◌||◌, Option, none, some, List, [], ◌∷◌, ◌++◌, map, ◌==◌,
  if◌then◌else◌,
}
use shclop.Prelude.Dict.{Dict, lookup, insert}
use shclop.Store.Memory.{Err, error_text, Result, ok, err, Call, Memory}
use shclop.Store.Settings.{get_app_setting, list_app_settings}
use shclop.Identity.Provider.{OidcProviderConfig, OidcProvider, OidcLibrary, new_oidc_provider}

pub data ProviderStatus : Type 0 where
  status_ready status_degraded : ProviderStatus

pub record MaterializedProvider : Type 0 where
  pub config : OidcProviderConfig
  pub provider : Option OidcProvider
  pub status : ProviderStatus
  pub last_err : String
  pub enabled : Bool

pub record IdpRegistry : Type 0 where
  pub snapshot : Dict MaterializedProvider
  pub mode : String
  pub subscribers : List Bool

abbrev is_mode : String → Bool
is_mode mode = mode == "sso" || mode == "both" || mode == "local"

abbrev pub mode_of : String → String
mode_of value = if is_mode value then value else "local"

abbrev pub enabled_key : String → String
enabled_key name = append "auth.idp." (append name ".enabled")

abbrev pub switch_of : Option String → Bool
switch_of none = true
switch_of (some value) = value == "true"

-- `for name, entry := range r.snapshot { … }`
unfoldable pub switch_all : Dict String → Dict MaterializedProvider → Dict MaterializedProvider
switch_all overlay [] = []
switch_all overlay ((name, entry) ∷ rest) =
    (name, record entry { enabled = switch_of (lookup (enabled_key name) overlay) })
    ∷ switch_all overlay rest

-- `broadcast`
unfoldable pub notify : List Bool → List Bool
notify [] = []
notify (pending ∷ rest) = true ∷ notify rest

unfoldable pub subscribe : IdpRegistry → IdpRegistry
subscribe r = record r { subscribers = r.subscribers ++ false ∷ [] }

abbrev overlaid : Result (Dict String) → IdpRegistry → Result (Unit {0}) × IdpRegistry
overlaid (err e) r = (err e, r)
overlaid (ok overlay) r = (ok tt, record r { snapshot = switch_all overlay r.snapshot })

-- The mode is set before the switches are read.
abbrev overlay_from :
    Result String → Result (Dict String) → IdpRegistry → Result (Unit {0}) × IdpRegistry
overlay_from (err e) switches r = (err e, r)
overlay_from (ok mode) switches r = overlaid switches (record r { mode = mode_of mode })

unfoldable pub apply_overlay : Call → Call → Memory → IdpRegistry → Result (Unit {0}) × IdpRegistry
apply_overlay c c' m r =
    overlay_from (get_app_setting c "auth.mode" m).0 (list_app_settings c' "auth.idp." m).0 r

-- Both settings are read before anything is written.
abbrev reload_from :
    Result String → Result (Dict String) → IdpRegistry → Result (Unit {0}) × IdpRegistry
reload_from (err e) switches r = (err e, r)
reload_from (ok mode) (err e) r = (err e, r)
reload_from (ok mode) (ok overlay) r = (
  ok tt,
  record r {
    mode = mode_of mode;
    snapshot = switch_all overlay r.snapshot;
    subscribers = notify r.subscribers;
  },
)

unfoldable pub reload : Call → Call → Memory → IdpRegistry → Result (Unit {0}) × IdpRegistry
unfolding switch_all notify
reload c c' m r =
    reload_from (get_app_setting c "auth.mode" m).0 (list_app_settings c' "auth.idp." m).0 r

abbrev materialized : OidcProviderConfig → Result OidcProvider → MaterializedProvider
materialized cfg (ok p) = record {
  config = cfg;
  provider = some p;
  status = status_ready;
  last_err = "";
  enabled = false;
}
materialized cfg (err e) = record {
  config = cfg;
  provider = none;
  status = status_degraded;
  last_err = error_text e;
  enabled = false;
}

unfoldable pub materialize :
    OidcLibrary → List OidcProviderConfig → Dict MaterializedProvider → Dict MaterializedProvider
materialize lib [] snapshot = snapshot
materialize lib (cfg ∷ rest) snapshot =
    materialize lib rest (insert cfg.name (materialized cfg (new_oidc_provider lib cfg)) snapshot)

-- A failure to read the settings at the start is logged only.
unfoldable pub new_idp_registry :
    OidcLibrary → Call → Call → Memory → List OidcProviderConfig → IdpRegistry
new_idp_registry lib c c' m configs =
    (apply_overlay c c' m
      (record { snapshot = materialize lib configs []; mode = ""; subscribers = [] })).1

unfoldable pub get_provider : String → IdpRegistry → Option MaterializedProvider
get_provider name r = lookup name r.snapshot

abbrev pub is_degraded : ProviderStatus → Bool
is_degraded status_degraded = true
is_degraded status_ready = false

abbrev recovered :
    Option MaterializedProvider → String → OidcProvider → IdpRegistry → Bool × IdpRegistry
recovered none name p r = (false, r)
recovered (some e) name p r =
    if is_degraded e.status
    then (
      true,
      record r {
        snapshot =
            insert name (record e { provider = some p; status = status_ready; last_err = "" })
              r.snapshot;
      },
    )
    else (false, r)

-- One turn of the loop of `retryDegraded`: the attempt, then the write under the lock.
abbrev attempted : Result OidcProvider → String → IdpRegistry → Bool × IdpRegistry
attempted (err e) name r = (false, r)
attempted (ok p) name r = recovered (lookup name r.snapshot) name p r

abbrev retried :
    Option MaterializedProvider → OidcLibrary → String → IdpRegistry → Bool × IdpRegistry
retried none lib name r = (false, r)
retried (some entry) lib name r = attempted (new_oidc_provider lib entry.config) name r

unfoldable pub retry_one : OidcLibrary → String → IdpRegistry → Bool × IdpRegistry
retry_one lib name r = retried (lookup name r.snapshot) lib name r

unfoldable pub degraded_names : Dict MaterializedProvider → List String
degraded_names [] = []
degraded_names ((name, entry) ∷ rest) =
    let later = degraded_names rest in if is_degraded entry.status then name ∷ later else later

unfoldable pub retry_all : OidcLibrary → List String → IdpRegistry → Bool × IdpRegistry
unfolding retry_one
retry_all lib [] r = (false, r)
retry_all lib (name ∷ names) r =
    let (changed, r1) = retry_one lib name r in
    let (later, r2) = retry_all lib names r1 in (changed || later, r2)

abbrev notify_if : Bool → IdpRegistry → IdpRegistry
notify_if true r = record r { subscribers = notify r.subscribers }
notify_if false r = r

unfoldable pub retry_degraded : OidcLibrary → IdpRegistry → IdpRegistry
unfolding retry_all notify degraded_names
retry_degraded lib r =
    let (changed, r') = retry_all lib (degraded_names r.snapshot) r in notify_if changed r'

-- The order of `sort.Slice`: by the provider's name.
unfoldable pub insert_provider :
    MaterializedProvider → List MaterializedProvider → List MaterializedProvider
insert_provider p [] = p ∷ []
insert_provider p (q ∷ qs) =
    if is_lt (compare p.config.name q.config.name) then p ∷ q ∷ qs else q ∷ insert_provider p qs

unfoldable pub list_providers : Dict MaterializedProvider → List MaterializedProvider
unfolding insert_provider
list_providers [] = []
list_providers ((name, entry) ∷ rest) = insert_provider entry (list_providers rest)
