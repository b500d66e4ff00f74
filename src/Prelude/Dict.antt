-- ===== src/Prelude/Dict.antt =====
-- A Go map with string keys, as an association list.
use shclop.Prelude.Lists.{select}
use shclop.Prelude.{
  Bool, true, sym, subst, String, ◌≡◌, refl, ◌≢◌, Bool-cases, inl, inr, Option, none, some, List,
  [], ◌∷◌, arith, ◌==◌, eq_iff, if◌then◌else◌, map,
}
use shclop.Prelude.Keys.{IsFresh, IsDistinct}

abbrev pub Dict {ℓ} : Type ℓ → Type ℓ
Dict V = List (String × V)

module _ {ℓ} {V : Type ℓ} where
  -- `v, ok := m[k]`
  unfoldable pub lookup : String → Dict V → Option V
  lookup k [] = none
  lookup k ((j, v) ∷ m) = if j == k then some v else lookup k m

  -- `m[k] = v`
  unfoldable pub insert : String → V → Dict V → Dict V
  insert k v [] = (k, v) ∷ []
  insert k v ((j, w) ∷ m) = if j == k then (j, v) ∷ m else (j, w) ∷ insert k v m

  -- `delete(m, k)`
  unfoldable pub remove : String → Dict V → Dict V
  remove k [] = []
  remove k ((j, w) ∷ m) = let rest = remove k m in if j == k then rest else (j, w) ∷ rest

  -- A search for any key in the map after a write.
  pub lookup-insert :
      (at key : String) (new : V) (table : Dict V)
      → lookup key (insert at new table) ≡ (if at == key then some new else lookup key table)
  unfolding lookup insert
  lookup-insert at key new [] = refl
  lookup-insert at key new (entry ∷ table) =
      ground (
        arith,
        lookup-insert at key new table,
        eq_iff entry.0 key,
        eq_iff entry.0 at,
        eq_iff at key,
      )

  pub lookup-remove :
      (k j : String) (m : Dict V) → lookup j (remove k m) ≡ (if k == j then none else lookup j m)
  unfolding lookup remove
  lookup-remove k j [] = ground arith
  lookup-remove k j ((i, w) ∷ m) =
      ground (arith, eq_iff k j, eq_iff i k, eq_iff i j, lookup-remove k j m)

  pub lookup-select :
      (p : String × V → Bool) (key : String) (table : Dict V)
      → ((v : V) → p (key, v) ≡ true)
      → lookup key (select p table) ≡ lookup key table
  unfolding lookup select
  lookup-select p key [] sees = refl
  lookup-select p key (entry ∷ table) sees = elim (Bool-cases (entry.0 == key)) [
    | inl same ↦
        let e : entry.0 ≡ key = ground (arith, eq_iff entry.0 key) in
        let kept : p entry ≡ true = subst (λ k. p (k, entry.1) ≡ true) (sym e) (sees entry.1) in
        ground (arith, same, kept)
    | inr other ↦ ground (arith, other, lookup-select p key table sees)
  ]

  abbrev pub keys : Dict V → List String
  keys m = map (λ e. e.0) m

  IsFresh-insert :
      (k j : String) (v : V) (m : Dict V)
      → j ≢ k
      → IsFresh k (keys m)
      → IsFresh k (keys (insert j v m))
  unfolding insert
  IsFresh-insert k j v [] n h = (n, tt)
  IsFresh-insert k j v ((i, w) ∷ m) n h = elim (Bool-cases (i == j)) [
    | inl hit ↦ rw hit h
    | inr miss ↦ rw miss (h.0, IsFresh-insert k j v m n h.1)
  ]

  pub IsDistinct-insert :
      (k : String) (v : V) (m : Dict V) → IsDistinct (keys m) → IsDistinct (keys (insert k v m))
  unfolding insert
  IsDistinct-insert k v [] d = (tt, tt)
  IsDistinct-insert k v ((i, w) ∷ m) d = elim (Bool-cases (i == k)) [
    | inl hit ↦ rw hit d
    | inr miss ↦
        rw miss (
          IsFresh-insert i k v m (λ e. ground (arith, eq_iff i k)) d.0,
          IsDistinct-insert k v m d.1,
        )
  ]

  IsFresh-remove : (k j : String) (m : Dict V) → IsFresh k (keys m) → IsFresh k (keys (remove j m))
  unfolding remove
  IsFresh-remove k j [] h = h
  IsFresh-remove k j ((i, w) ∷ m) h = elim (Bool-cases (i == j)) [
    | inl hit ↦ rw hit (IsFresh-remove k j m h.1)
    | inr miss ↦ rw miss (h.0, IsFresh-remove k j m h.1)
  ]

  pub IsDistinct-remove :
      (k : String) (m : Dict V) → IsDistinct (keys m) → IsDistinct (keys (remove k m))
  unfolding remove
  IsDistinct-remove k [] d = d
  IsDistinct-remove k ((i, w) ∷ m) d = elim (Bool-cases (i == k)) [
    | inl hit ↦ rw hit (IsDistinct-remove k m d.1)
    | inr miss ↦ rw miss (IsFresh-remove i k m d.0, IsDistinct-remove k m d.1)
  ]
