-- ===== src/Prelude/Keys.antt =====
-- Lists whose elements have different keys: what the linear searches of the in-memory store keep
-- true, and what lets a list of records be read as a table.
use shclop.Prelude.{
  ◌≡◌, refl, sym, subst, ◌≢◌, Bool, true, false, none, List, [], ◌∷◌, ◌++◌, map, arith,
  if◌then◌else◌, Bool-cases, inl, inr,
}
use shclop.Prelude.Lists.{find_first, update_first, remove_first, select}

-- `k` is none of the keys.
abbrev pub IsFresh {ℓ} : {K : Type ℓ} → K → List K → Type ℓ
IsFresh k [] = Unit
IsFresh k (j ∷ ks) = (j ≢ k) × IsFresh k ks

abbrev pub IsDistinct {ℓ} : {K : Type ℓ} → List K → Type ℓ
IsDistinct [] = Unit
IsDistinct (k ∷ ks) = IsFresh k ks × IsDistinct ks

module _ {ℓ κ} {A : Type ℓ} {K : Type κ} (key : A → K) where
  -- A search that comes back empty shows that the key is free.
  pub IsFresh-of_find_first :
      (p : A → Bool) (k : K) (xs : List A)
      → ((x : A) → key x ≡ k → p x ≡ true)
      → find_first p xs ≡ none
      → IsFresh k (map key xs)
  unfolding find_first
  IsFresh-of_find_first p k [] sees h = tt
  IsFresh-of_find_first p k (x ∷ xs) sees h =
      (λ e. ground (arith, sees x e), IsFresh-of_find_first p k xs sees (ground (arith)))

  pub IsFresh-append :
      (k : K) (xs : List A) (y : A)
      → IsFresh k (map key xs)
      → key y ≢ k
      → IsFresh k (map key (xs ++ y ∷ []))
  IsFresh-append k [] y h n = (n, tt)
  IsFresh-append k (x ∷ xs) y h n = (h.0, IsFresh-append k xs y h.1 n)

  pub IsDistinct-append :
      (xs : List A) (y : A)
      → IsDistinct (map key xs)
      → IsFresh (key y) (map key xs)
      → IsDistinct (map key (xs ++ y ∷ []))
  IsDistinct-append [] y d f = (tt, tt)
  IsDistinct-append (x ∷ xs) y d f =
      (IsFresh-append (key x) xs y d.0 (λ e. f.0 (sym e)), IsDistinct-append xs y d.1 f.1)

  -- An update that leaves the key alone leaves the list of keys alone.
  pub map-update_first :
      (p : A → Bool) (f : A → A) (xs : List A)
      → ((x : A) → key (f x) ≡ key x)
      → map key (update_first p f xs) ≡ map key xs
  unfolding update_first
  map-update_first p f [] h = refl
  map-update_first p f (x ∷ xs) h = ground (arith, h x, map-update_first p f xs h)

  pub IsDistinct-update_first :
      (p : A → Bool) (f : A → A) (xs : List A)
      → ((x : A) → key (f x) ≡ key x)
      → IsDistinct (map key xs)
      → IsDistinct (map key (update_first p f xs))
  IsDistinct-update_first p f xs h d = rw (map-update_first p f xs h) d

  IsFresh-remove_first :
      (p : A → Bool) (k : K) (xs : List A)
      → IsFresh k (map key xs)
      → IsFresh k (map key (remove_first p xs))
  unfolding remove_first
  IsFresh-remove_first p k [] h = h
  IsFresh-remove_first p k (x ∷ xs) h =
      elim (p x) as (λ b. IsFresh k (map key (if b then xs else x ∷ remove_first p xs))) [
        | true ↦ h.1
        | false ↦ (h.0, IsFresh-remove_first p k xs h.1)
      ]

  pub IsDistinct-remove_first :
      (p : A → Bool) (xs : List A)
      → IsDistinct (map key xs)
      → IsDistinct (map key (remove_first p xs))
  unfolding remove_first
  IsDistinct-remove_first p [] d = d
  IsDistinct-remove_first p (x ∷ xs) d =
      elim (p x) as (λ b. IsDistinct (map key (if b then xs else x ∷ remove_first p xs))) [
        | true ↦ d.1
        | false ↦ (IsFresh-remove_first p (key x) xs d.0, IsDistinct-remove_first p xs d.1)
      ]

  IsFresh-select :
      (p : A → Bool) (k : K) (xs : List A)
      → IsFresh k (map key xs)
      → IsFresh k (map key (select p xs))
  unfolding select
  IsFresh-select p k [] h = h
  IsFresh-select p k (x ∷ xs) h =
      elim (p x) as (λ b. IsFresh k (map key (if b then x ∷ select p xs else select p xs))) [
        | true ↦ (h.0, IsFresh-select p k xs h.1)
        | false ↦ IsFresh-select p k xs h.1
      ]

  pub IsDistinct-select :
      (p : A → Bool) (xs : List A) → IsDistinct (map key xs) → IsDistinct (map key (select p xs))
  unfolding select
  IsDistinct-select p [] d = d
  IsDistinct-select p (x ∷ xs) d =
      elim (p x) as (λ b. IsDistinct (map key (if b then x ∷ select p xs else select p xs))) [
        | true ↦ (IsFresh-select p (key x) xs d.0, IsDistinct-select p xs d.1)
        | false ↦ IsDistinct-select p xs d.1
      ]

  pub find_first-none_of_IsFresh :
      (p : A → Bool) (k : K) (xs : List A)
      → ((x : A) → p x ≡ true → key x ≡ k)
      → IsFresh k (map key xs)
      → find_first p xs ≡ none
  unfolding find_first
  find_first-none_of_IsFresh p k [] sees h = refl
  find_first-none_of_IsFresh p k (x ∷ xs) sees h =
      ground (arith, sees x, h.0, find_first-none_of_IsFresh p k xs sees h.1)

  -- Among different keys, removing the first match leaves none.
  pub find_first-remove_first :
      (p : A → Bool) (k : K) (xs : List A)
      → ((x : A) → p x ≡ true → key x ≡ k)
      → IsDistinct (map key xs)
      → find_first p (remove_first p xs) ≡ none
  unfolding find_first remove_first
  find_first-remove_first p k [] sees d = refl
  find_first-remove_first p k (x ∷ xs) sees d = elim (Bool-cases (p x)) [
    | inl hit ↦ rw hit (
        find_first-none_of_IsFresh p k xs sees
          (subst (λ j. IsFresh j (map key xs)) (sees x hit) d.0))
    | inr miss ↦ rw (miss, miss) (find_first-remove_first p k xs sees d.1)
  ]
