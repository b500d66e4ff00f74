-- ===== src/Prelude/All.antt =====
-- What holds of every element of a list.
use shclop.Prelude.{◌≡◌, inl, inr, Bool, some, List, [], ◌∷◌, ◌++◌, subst, arith, Bool-cases}
use shclop.Prelude.Lists.{find_first, select}

abbrev pub All {ℓ κ} : {A : Type ℓ} → (A → Type κ) → List A → Type κ
All P [] = Unit
All P (x ∷ xs) = P x × All P xs

pub All-append {ℓ κ} :
    {A : Type ℓ} (P : A → Type κ) (xs ys : List A) → All P xs → All P ys → All P (xs ++ ys)
All-append P [] ys hx hy = hy
All-append P (x ∷ xs) ys hx hy = (hx.0, All-append P xs ys hx.1 hy)

pub All-select {ℓ κ} :
    {A : Type ℓ} (P : A → Type κ) (p : A → Bool) (xs : List A) → All P xs → All P (select p xs)
unfolding select
All-select P p [] h = tt
All-select P p (x ∷ xs) h = elim (Bool-cases (p x)) [
  | inl passes ↦ rw passes (h.0, All-select P p xs h.1)
  | inr fails ↦ rw fails (All-select P p xs h.1)
]

pub All-found {ℓ κ} :
    {A : Type ℓ} (P : A → Type κ) (p : A → Bool) (xs : List A) {x : A}
    → All P xs
    → find_first p xs ≡ some x
    → P x
unfolding find_first
All-found P p [] h found = absurd (ground (arith, found))
All-found P p (y ∷ ys) h found = elim (Bool-cases (p y)) [
  | inl passes ↦ subst P (ground (arith, passes, found)) h.0
  | inr fails ↦ All-found P p ys h.1 (ground (arith, fails, found))
]
