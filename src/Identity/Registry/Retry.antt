-- ===== src/Identity/Registry/Retry.antt =====
-- internal/identity/registry.go: what the retry of the degraded providers leaves behind.
use shclop.Prelude.{
  subst, String, ◌≡◌, refl, inl, inr, Bool, Bool-cases, Option-cases, false, Option, none, some,
  List, [], ◌∷◌, arith, eq_iff, ◌==◌, ◌||◌, ap, ◌∙◌, if◌then◌else◌,
}
use shclop.Prelude.Dict.{Dict, lookup, lookup-insert}
use shclop.Store.Memory.{Result, Result-cases, ok, err}
use shclop.Identity.Provider.{OidcProvider, OidcLibrary, new_oidc_provider}
use shclop.Identity.Registry.{
  recovered, MaterializedProvider, IdpRegistry, status_ready, is_degraded, get_provider,
  degraded_names, retry_one, retry_all, retry_degraded,
}

abbrev healed_by : MaterializedProvider → Result OidcProvider → MaterializedProvider
healed_by e (ok p) =
    if is_degraded e.status
    then record e { provider = some p; status = status_ready; last_err = "" }
    else e
healed_by e (err x) = e

-- An entry after a retry: a degraded one whose discovery now succeeds is ready, any other is as before.
abbrev pub healed : OidcLibrary → Option MaterializedProvider → Option MaterializedProvider
healed lib none = none
healed lib (some e) = some (healed_by e (new_oidc_provider lib e.config))

lookup_if :
    (name other : String) (table : Dict MaterializedProvider) {o : Option MaterializedProvider}
    → lookup name table ≡ o
    → lookup other table ≡ (if name == other then o else lookup other table)
lookup_if name other table {o} h = elim (Bool-cases (name == other)) [
  | inl same ↦
      let e : name ≡ other = ground (arith, eq_iff name other) in
      rw same (subst (λ k. lookup k table ≡ o) e h)
  | inr apart ↦ rw apart refl
]

recovered_snapshot :
    (e : MaterializedProvider) (name other : String) (p : OidcProvider) (r : IdpRegistry)
    → lookup name r.snapshot ≡ some e
    → lookup other (recovered (some e) name p r).1.snapshot
      ≡ (if name == other then some (healed_by e (ok p)) else lookup other r.snapshot)
recovered_snapshot e name other p r there = elim (Bool-cases (is_degraded e.status)) [
  | inl down ↦ rw down (
      lookup-insert name other
        (record e { provider = some p; status = status_ready; last_err = "" }) r.snapshot)
  | inr up ↦ rw up (lookup_if name other r.snapshot there)
]

-- Each turn of the loop heals one entry.
lookup-retry_one :
    (lib : OidcLibrary) (name other : String) (r : IdpRegistry)
    → lookup other (retry_one lib name r).1.snapshot
      ≡ (if name == other then healed lib (lookup name r.snapshot) else lookup other r.snapshot)
unfolding retry_one
lookup-retry_one lib name other r = elim (Option-cases (lookup name r.snapshot)) [
  | inl absent ↦ rw absent (lookup_if name other r.snapshot absent)
  | inr (e, there) ↦ elim (Result-cases (new_oidc_provider lib e.config)) [
    | inr (x, failed) ↦ rw (there, failed) (lookup_if name other r.snapshot there)
    | inl (p, made) ↦ rw (there, made, there) (recovered_snapshot e name other p r there)
  ]
]

healed_config :
    (e : MaterializedProvider) (x : Result OidcProvider) → (healed_by e x).config ≡ e.config
healed_config e (err x) = refl
healed_config e (ok p) = ground arith

healed_twice :
    (e : MaterializedProvider) (x : Result OidcProvider)
    → healed_by (healed_by e x) x ≡ healed_by e x
healed_twice e (err x) = refl
healed_twice e (ok p) = elim (Bool-cases (is_degraded e.status)) [
  | inl down ↦ rw down refl
  | inr up ↦ rw (up, up) refl
]

healed-healed :
    (lib : OidcLibrary) (o : Option MaterializedProvider) → healed lib (healed lib o) ≡ healed lib o
healed-healed lib none = refl
healed-healed lib (some e) =
    let x = new_oidc_provider lib e.config in
    ap some (
      ap (λ cfg. healed_by (healed_by e x) (new_oidc_provider lib cfg)) (healed_config e x)
      ∙ healed_twice e x)

abbrev is_among : String → List String → Bool
is_among name [] = false
is_among name (other ∷ rest) = other == name || is_among name rest

lookup-retry_all :
    (lib : OidcLibrary) (names : List String) (name : String) (r : IdpRegistry)
    → lookup name (retry_all lib names r).1.snapshot ≡ (
        if is_among name names then healed lib (lookup name r.snapshot) else lookup name r.snapshot)
unfolding retry_all
lookup-retry_all lib [] name r = refl
lookup-retry_all lib (other ∷ rest) name r = ground (
  arith,
  lookup-retry_all lib rest name (retry_one lib other r).1,
  lookup-retry_one lib other name r,
  eq_iff other name,
  healed-healed lib (lookup name r.snapshot),
)

healed_ready :
    (e : MaterializedProvider) (x : Result OidcProvider)
    → is_degraded e.status ≡ false
    → healed_by e x ≡ e
healed_ready e (err x) up = refl
healed_ready e (ok p) up = rw up refl

-- An entry that is not among the degraded ones is healed already.
healed-outside :
    (lib : OidcLibrary) (name : String) (entries : Dict MaterializedProvider)
    → is_among name (degraded_names entries) ≡ false
    → healed lib (lookup name entries) ≡ lookup name entries
unfolding degraded_names lookup
healed-outside lib name [] h = refl
healed-outside lib name ((key, e) ∷ rest) h = elim (Bool-cases (key == name)) [
  | inl same ↦ elim (Bool-cases (is_degraded e.status)) [
    | inl down ↦ absurd (ground (arith, same, down, h))
    | inr up ↦ rw same (ap some (healed_ready e (new_oidc_provider lib e.config) up))
  ]
  | inr other ↦ rw other (healed-outside lib name rest (ground (arith, other, h)))
]

-- After a retry every provider is as before, but that a degraded one whose discovery succeeds now is
-- ready: none is lost, none is switched on or off, and none that was ready is degraded.
pub retry_degraded_heals :
    (lib : OidcLibrary) (name : String) (r : IdpRegistry)
    → get_provider name (retry_degraded lib r) ≡ healed lib (get_provider name r)
unfolding retry_degraded get_provider
retry_degraded_heals lib name r =
    let names = degraded_names r.snapshot in
    ground (arith, lookup-retry_all lib names name r, healed-outside lib name r.snapshot)
