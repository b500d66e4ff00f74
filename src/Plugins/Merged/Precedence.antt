-- ===== src/Plugins/Merged/Precedence.antt =====
-- internal/plugins/registry.go: which source a plugin comes from.
use shclop.Prelude.{
  ◌≡◌, refl, ap, ◌∙◌, inl, inr, String, Bool, true, false, Option, none, some, List, [], ◌∷◌, ◌==◌,
  if◌then◌else◌, arith, eq_iff, Bool-cases,
}
use shclop.Prelude.Lists.{find_first}
use shclop.Prelude.Dict.{Dict, lookup, insert, lookup-insert}
use shclop.Plugins.Manifest.{ManifestSpec}
use shclop.Plugins.Merged.{
  Resolved, Entry, Entries, MergedRegistry, with_entry, entry_of, add_source, all_entries, winners,
  rebuild, get,
}

abbrev pub has_id : String → Resolved → Bool
has_id id r = r.manifest.spec.id == id

abbrev pub or_else {ℓ} : {A : Type ℓ} → Option A → Option A → Option A
or_else none later = later
or_else (some a) later = some a

-- The contract: the first source that lists the plugin, and there its first entry.
abbrev pub first_source : String → List (List Resolved) → Option Resolved
first_source id [] = none
first_source id (source ∷ sources) =
    or_else (find_first (has_id id) source) (first_source id sources)

abbrev winner : Option Entries → Option Resolved
winner none = none
winner (some entries) = some entries.0.resolved

lookup-winners :
    (id : String) (all : Dict Entries) → lookup id (winners all) ≡ winner (lookup id all)
unfolding lookup winners
lookup-winners id [] = refl
lookup-winners id (e ∷ all) = ground (arith, lookup-winners id all)

winner_with :
    (e : Entry) (o : Option Entries)
    → winner (some (with_entry e o)) ≡ or_else (winner o) (some e.resolved)
winner_with e none = refl
winner_with e (some entries) = refl

or_else-none {ℓ} : {A : Type ℓ} (o : Option A) → o ≡ or_else o none
or_else-none none = refl
or_else-none (some a) = refl

or_else_if {ℓ} :
    {A : Type ℓ} (b : Bool) (a : A) (later : Option A)
    → or_else (if b then some a else none) later ≡ (if b then some a else later)
or_else_if true a later = refl
or_else_if false a later = refl

winner-insert :
    (spec_hash : ManifestSpec → String) (id : String) (r : Resolved) (all : Dict Entries)
    → let at = r.manifest.spec.id in
      winner (lookup id (insert at (with_entry (entry_of spec_hash r) (lookup at all)) all))
      ≡ or_else (winner (lookup id all)) (if at == id then some r else none)
winner-insert spec_hash id r all =
    ap winner (
      lookup-insert r.manifest.spec.id id
        (with_entry (entry_of spec_hash r) (lookup r.manifest.spec.id all)) all)
    ∙ elim (Bool-cases (r.manifest.spec.id == id)) [
      | inr other ↦ rw other (or_else-none (winner (lookup id all)))
      | inl same ↦
          let key : r.manifest.spec.id ≡ id = ground (arith, same, eq_iff r.manifest.spec.id id) in
          rw same (
            winner_with (entry_of spec_hash r) (lookup r.manifest.spec.id all)
            ∙ ap (λ k. or_else (winner (lookup k all)) (some r)) key)
    ]

or_else_assoc {ℓ} :
    {A : Type ℓ} (a b c : Option A) → or_else (or_else a b) c ≡ or_else a (or_else b c)
or_else_assoc none b c = refl
or_else_assoc (some a) b c = refl

winner-add_source :
    (spec_hash : ManifestSpec → String) (id : String) (rs : List Resolved) (all : Dict Entries)
    → winner (lookup id (add_source spec_hash rs all))
      ≡ or_else (winner (lookup id all)) (find_first (has_id id) rs)
unfolding add_source find_first
winner-add_source spec_hash id [] all = or_else-none (winner (lookup id all))
winner-add_source spec_hash id (r ∷ rs) all =
    winner-add_source spec_hash id rs (
      insert r.manifest.spec.id (with_entry (entry_of spec_hash r) (lookup r.manifest.spec.id all))
        all)
    ∙ ap (λ w. or_else w (find_first (has_id id) rs)) (winner-insert spec_hash id r all)
    ∙ or_else_assoc (winner (lookup id all)) (if r.manifest.spec.id == id then some r else none)
        (find_first (has_id id) rs)
    ∙ ap (or_else (winner (lookup id all)))
        (or_else_if (r.manifest.spec.id == id) r (find_first (has_id id) rs))

winner-all_entries :
    (spec_hash : ManifestSpec → String) (id : String) (sources : List (List Resolved))
    (all : Dict Entries)
    → winner (lookup id (all_entries spec_hash sources all))
      ≡ or_else (winner (lookup id all)) (first_source id sources)
unfolding all_entries
winner-all_entries spec_hash id [] all = or_else-none (winner (lookup id all))
winner-all_entries spec_hash id (source ∷ sources) all =
    winner-all_entries spec_hash id sources (add_source spec_hash source all)
    ∙ ap (λ w. or_else w (first_source id sources)) (winner-add_source spec_hash id source all)
    ∙ or_else_assoc (winner (lookup id all)) (find_first (has_id id) source)
        (first_source id sources)

-- After a rebuild the registry answers for every id as its contract says: with the first entry of the first source
-- that lists the plugin, whatever it held before, and with nothing where no source does.
pub rebuild-refines :
    (spec_hash : ManifestSpec → String) (sources : List (List Resolved)) (m : MergedRegistry)
    (id : String)
    → get id (rebuild spec_hash sources m).1 ≡ first_source id sources
unfolding get rebuild lookup
rebuild-refines spec_hash sources m id =
    lookup-winners id (all_entries spec_hash sources [])
    ∙ winner-all_entries spec_hash id sources []
