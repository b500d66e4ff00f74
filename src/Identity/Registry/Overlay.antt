-- ===== src/Identity/Registry/Overlay.antt =====
-- internal/identity/registry.go: what a reload leaves behind.
use Prim.Native.String.{◌++◌ as append}
use text.Mathlib.TextPositions.{starts_with-append}
use shclop.Prelude.{
  String, ◌≡◌, refl, ◌≢◌, ◌↔◌, Bool, true, Option, none, some, List, [], ◌∷◌, arith, eq_iff, ap,
  ◌∙◌, subst, sym,
}
use shclop.Prelude.Dict.{Dict, lookup, lookup-select}
use shclop.Prelude.Lists.{select, length}
use shclop.Store.Memory.{ok, Call, Memory}
use shclop.Store.Settings.{or_empty, get_app_setting, list_app_settings, has_prefix}
use shclop.Identity.Registry.{
  MaterializedProvider, IdpRegistry, mode_of, enabled_key, switch_of, switch_all, notify, reload,
  get_provider,
}

-- Which mode is set by a stored text.
abbrev pub IsModeFor : String → String → Type 0
IsModeFor stored mode =
    ((stored ≡ "sso") → mode ≡ "sso")
    × ((stored ≡ "both") → mode ≡ "both")
    × ((stored ≢ "sso") → (stored ≢ "both") → mode ≡ "local")

-- A provider without a setting of its own is on, and one that has it is on where it is the text true.
abbrev pub IsSwitchFor : Option String → Bool → Type 0
IsSwitchFor none on = on ≡ true
IsSwitchFor (some value) on = (value ≡ "true") ↔ (on ≡ true)

-- The entry of a provider after a reload: the same, but for its switch.
abbrev pub IsSwitched :
    Option String → Option MaterializedProvider → Option MaterializedProvider → Type 0
IsSwitched setting none after = after ≡ none
IsSwitched setting (some entry) after =
    (on : Bool) × IsSwitchFor setting on × (after ≡ some (record entry { enabled = on }))

abbrev switched : Option String → Option MaterializedProvider → Option MaterializedProvider
switched setting none = none
switched setting (some entry) = some (record entry { enabled = switch_of setting })

switch_of-IsSwitchFor : (setting : Option String) → IsSwitchFor setting (switch_of setting)
switch_of-IsSwitchFor none = refl
switch_of-IsSwitchFor (some value) = (
  λ same. ground (arith, same, eq_iff value "true"),
  λ on. ground (arith, on, eq_iff value "true"),
)

switched-IsSwitched :
    (setting : Option String) (before : Option MaterializedProvider)
    → IsSwitched setting before (switched setting before)
switched-IsSwitched setting none = refl
switched-IsSwitched setting (some entry) = (switch_of setting, switch_of-IsSwitchFor setting, refl)

abbrev pub AllPending : List Bool → Type 0
AllPending [] = Unit
AllPending (pending ∷ rest) = (pending ≡ true) × AllPending rest

notify-AllPending : (bs : List Bool) → AllPending (notify bs) × (length (notify bs) ≡ length bs)
unfolding notify
notify-AllPending [] = (tt, refl)
notify-AllPending (b ∷ bs) =
    let (pending, same) = notify-AllPending bs in ((refl, pending), ground (arith, same))

lookup-switch_all :
    (name : String) (overlay : Dict String) (entries : Dict MaterializedProvider)
    → lookup name (switch_all overlay entries)
      ≡ switched (lookup (enabled_key name) overlay) (lookup name entries)
unfolding lookup switch_all
lookup-switch_all name overlay [] = refl
lookup-switch_all name overlay ((key, entry) ∷ rest) =
    ground (arith, eq_iff key name, lookup-switch_all name overlay rest)

mode_of-IsModeFor : (stored : String) → IsModeFor stored (mode_of stored)
mode_of-IsModeFor stored = (
  λ h. ground (arith, h, eq_iff stored "sso"),
  λ h. ground (arith, h, eq_iff stored "both"),
  λ h k. ground (arith, h, k, eq_iff stored "sso", eq_iff stored "both", eq_iff stored "local"),
)

lookup-enabled_key :
    (name : String) (settings : Dict String)
    → lookup (enabled_key name) (select (has_prefix "auth.idp.") settings)
      ≡ lookup (enabled_key name) settings
lookup-enabled_key name settings =
    lookup-select (has_prefix "auth.idp.") (enabled_key name) settings
      (λ v. starts_with-append "auth.idp." _)

-- While no context has ended, a reload succeeds: the mode is the stored one if that is a mode, and local
-- otherwise; every provider is as before but for its switch, which is on exactly where its own setting is
-- missing or the text true; and a notice is
-- pending at every subscriber, of whom none was lost.
pub reload-IsSwitched :
    (c c' : Call) (m : Memory) (r : IdpRegistry)
    → c.ctx_err ≡ none
    → c'.ctx_err ≡ none
    → let after = (reload c c' m r).1 in
      ((reload c c' m r).0 ≡ ok tt)
      × IsModeFor (or_empty (lookup "auth.mode" m.app_settings)) after.mode
      × ((name : String)
          → IsSwitched
              (lookup (append "auth.idp." (append name ".enabled")) m.app_settings)
              (get_provider name r)
              (get_provider name after))
      × AllPending after.subscribers
      × (length after.subscribers ≡ length r.subscribers)
unfolding reload get_app_setting list_app_settings get_provider
reload-IsSwitched c c' m r live live' =
    let (pending, kept) = notify-AllPending r.subscribers in
    rw (live, live')
      (
        refl,
        mode_of-IsModeFor (or_empty (lookup "auth.mode" m.app_settings)),
        (λ name.
            let found =
              lookup-switch_all name (select (has_prefix "auth.idp.") m.app_settings) r.snapshot
              ∙ ap (λ setting. switched setting (lookup name r.snapshot))
                  (lookup-enabled_key name m.app_settings) in
            let setting = lookup (enabled_key name) m.app_settings in
            subst (IsSwitched setting (lookup name r.snapshot)) (sym found)
              (switched-IsSwitched setting (lookup name r.snapshot))),
        pending,
        kept,
      )
