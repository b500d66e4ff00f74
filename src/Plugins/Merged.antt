-- ===== src/Plugins/Merged.antt =====
-- internal/plugins/registry.go: the registry that merges others, the first of them being the strongest. The hash of a
-- manifest is an argument; a Go map is walked in any order, here in that of its entries.
pub mod Precedence
use Prim.Native.String.{◌++◌ as append}
use shclop.Prelude.{
  String, Bool, true, false, Option, none, some, List, [], ◌∷◌, ◌++◌, ◌==◌, if◌then◌else◌, is_some,
}
use shclop.Prelude.Dict.{Dict, lookup, insert}
use shclop.Plugins.Manifest.{Manifest, ManifestSpec}

pub record Resolved : Type 0 where
  pub manifest : Manifest
  pub source : String

pub record Entry : Type 0 where
  pub resolved : Resolved
  pub hash : String

-- The entries of an id are at least one: the winner, and those after it.
abbrev pub Entries : Type 0
Entries = Entry × List Entry

pub record MergedRegistry : Type 0 where
  pub resolved : Dict Resolved
  pub logged_shadows : Dict Bool
  pub subscribers : List Bool

pub record ShadowEvent : Type 0 where
  pub id : String
  pub winning : String
  pub shadowed : String
  pub win_hash : String
  pub shadow_hash : String

unfoldable pub new_merged : MergedRegistry
new_merged = record { resolved = []; logged_shadows = []; subscribers = [] }

unfoldable pub get : String → MergedRegistry → Option Resolved
get id m = lookup id m.resolved

abbrev pub with_entry : Entry → Option Entries → Entries
with_entry e none = (e, [])
with_entry e (some (first, others)) = (first, others ++ e ∷ [])

abbrev pub entry_of : (ManifestSpec → String) → Resolved → Entry
entry_of spec_hash r = record { resolved = r; hash = spec_hash r.manifest.spec }

-- What one source lists is added to all entries.
unfoldable pub add_source : (ManifestSpec → String) → List Resolved → Dict Entries → Dict Entries
add_source spec_hash [] all = all
add_source spec_hash (r ∷ rs) all =
    let id = r.manifest.spec.id in
    add_source spec_hash rs (insert id (with_entry (entry_of spec_hash r) (lookup id all)) all)

unfoldable pub all_entries :
    (ManifestSpec → String) → List (List Resolved) → Dict Entries → Dict Entries
unfolding add_source
all_entries spec_hash [] all = all
all_entries spec_hash (source ∷ sources) all =
    all_entries spec_hash sources (add_source spec_hash source all)

unfoldable pub winners : Dict Entries → Dict Resolved
winners [] = []
winners ((id, entries) ∷ rest) = (id, entries.0.resolved) ∷ winners rest

abbrev shadow_key : ShadowEvent → String
shadow_key ev = append ev.id (
    append "|" (
      append ev.winning (
        append "|"
          (append ev.shadowed (append "|" (append ev.win_hash (append "|" ev.shadow_hash)))))))

abbrev shadow_of : String → Entry → Entry → ShadowEvent
shadow_of id winner loser = record {
  id = id;
  winning = winner.resolved.source;
  shadowed = loser.resolved.source;
  win_hash = winner.hash;
  shadow_hash = loser.hash;
}

-- The events to log, and the keys that are logged then.
unfoldable pub shadowed_by : String → Entry → List Entry → Dict Bool → List ShadowEvent × Dict Bool
shadowed_by id winner [] logged = ([], logged)
shadowed_by id winner (loser ∷ losers) logged =
    let key = shadow_key (shadow_of id winner loser) in
    let skipped = shadowed_by id winner losers logged in
    let (later, logged') = shadowed_by id winner losers (insert key true logged) in
    if loser.hash == winner.hash
    then skipped
    else if is_some (lookup key logged)
    then skipped
    else (shadow_of id winner loser ∷ later, logged')

unfoldable pub shadows : Dict Entries → Dict Bool → List ShadowEvent × Dict Bool
unfolding shadowed_by
shadows [] logged = ([], logged)
shadows ((id, entries) ∷ rest) logged =
    let (events, logged1) = shadowed_by id entries.0 entries.1 logged in
    let (later, logged2) = shadows rest logged1 in (events ++ later, logged2)

-- The events are written to the log.
unfoldable pub rebuild :
    (ManifestSpec → String)
    → List (List Resolved)
    → MergedRegistry
    → List ShadowEvent × MergedRegistry
unfolding all_entries winners shadows
rebuild spec_hash sources m =
    let all = all_entries spec_hash sources [] in
    let (events, logged) = shadows all m.logged_shadows in
    (events, record m { resolved = winners all; logged_shadows = logged })

unfoldable pub subscribe : MergedRegistry → MergedRegistry
subscribe m = record m { subscribers = m.subscribers ++ false ∷ [] }

-- A subscriber's channel holds one notice.
unfoldable pub broadcast : List Bool → List Bool
broadcast [] = []
broadcast (pending ∷ rest) = true ∷ broadcast rest

-- What `Run` does on a notice of a source.
unfoldable pub on_notice :
    (ManifestSpec → String)
    → List (List Resolved)
    → MergedRegistry
    → List ShadowEvent × MergedRegistry
unfolding rebuild broadcast
on_notice spec_hash sources m =
    let (events, m') = rebuild spec_hash sources m in
    (events, record m' { subscribers = broadcast m'.subscribers })
