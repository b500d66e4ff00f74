-- ===== src/Prelude/Lists.antt =====
-- Loops over a slice that stop at the first element that passes a test, and loops that keep the
-- elements that pass.
use shclop.Prelude.{
  zero, ◌-◌, ℕ, suc, ◌≡◌, refl, Bool, true, false, Option, none, some, List, [], ◌∷◌, ◌++◌, arith,
  if◌then◌else◌, is_some,
}

module _ {ℓ} {A : Type ℓ} where
  abbrev pub length : List A → ℕ
  length [] = 0
  length (x ∷ xs) = suc (length xs)

  abbrev pub drop : ℕ → List A → List A
  drop zero xs = xs
  drop (suc n) [] = []
  drop (suc n) (x ∷ xs) = drop n xs

  pub length-drop : (n : ℕ) (xs : List A) → length (drop n xs) ≡ length xs - n
  length-drop zero xs = omega arith
  length-drop (suc n) [] = omega arith
  length-drop (suc n) (x ∷ xs) = omega (arith, length-drop n xs)

  -- `for _, x := range xs { if p(x) { return x } }`
  unfoldable pub find_first : (A → Bool) → List A → Option A
  find_first p [] = none
  find_first p (x ∷ xs) = if p x then some x else find_first p xs

  -- `for i, x := range xs { if p(x) { xs[i] = f(x); return } }`
  unfoldable pub update_first : (A → Bool) → (A → A) → List A → List A
  update_first p f [] = []
  update_first p f (x ∷ xs) = if p x then f x ∷ xs else x ∷ update_first p f xs

  -- `for i, x := range xs { if p(x) { xs = append(xs[:i], xs[i+1:]...); return } }`
  unfoldable pub remove_first : (A → Bool) → List A → List A
  remove_first p [] = []
  remove_first p (x ∷ xs) = if p x then xs else x ∷ remove_first p xs

  -- `for _, x := range xs { if p(x) { out = append(out, x) } }`
  unfoldable pub select : (A → Bool) → List A → List A
  select p [] = []
  select p (x ∷ xs) = let rest = select p xs in if p x then x ∷ rest else rest

  pub find_first-holds :
      (p : A → Bool) (xs : List A) {a : A} → find_first p xs ≡ some a → p a ≡ true
  unfolding find_first
  find_first-holds p [] h = ground arith
  find_first-holds p (x ∷ xs) {a} h = ground (arith, find_first-holds p xs {a = a})

  -- What is read after the update is the updated element, if there was one.
  pub find_first-update_first :
      (p : A → Bool) (f : A → A) (xs : List A) {a : A}
      → find_first p xs ≡ some a
      → p (f a) ≡ true
      → find_first p (update_first p f xs) ≡ some (f a)
  unfolding find_first update_first
  find_first-update_first p f [] h k = ground arith
  find_first-update_first p f (x ∷ xs) {a} h k =
      ground (arith, find_first-update_first p f xs {a = a})

  -- A search by another test is not disturbed, where the test does not see the change.
  pub find_first-update_first_other :
      (p q : A → Bool) (f : A → A) (xs : List A)
      → ((x : A) → p x ≡ true → q x ≡ false)
      → ((x : A) → p x ≡ true → q (f x) ≡ false)
      → find_first q (update_first p f xs) ≡ find_first q xs
  unfolding find_first update_first
  find_first-update_first_other p q f [] h k = refl
  find_first-update_first_other p q f (x ∷ xs) h k =
      ground (arith, h x, k x, find_first-update_first_other p q f xs h k)

  pub update_first-none :
      (p : A → Bool) (f : A → A) (xs : List A) → find_first p xs ≡ none → update_first p f xs ≡ xs
  unfolding find_first update_first
  update_first-none p f [] h = refl
  update_first-none p f (x ∷ xs) h = ground (arith, update_first-none p f xs)

  pub find_first-append_single :
      (p : A → Bool) (xs : List A) (y : A)
      → find_first p (xs ++ y ∷ [])
        ≡ (if is_some (find_first p xs) then find_first p xs else if p y then some y else none)
  unfolding find_first
  find_first-append_single p [] y = refl
  find_first-append_single p (x ∷ xs) y = ground (arith, find_first-append_single p xs y)

  pub find_first-select :
      (p q : A → Bool) (xs : List A)
      → ((x : A) → q x ≡ true → p x ≡ false)
      → find_first q (select p xs) ≡ none
  unfolding find_first select
  find_first-select p q [] h = refl
  find_first-select p q (x ∷ xs) h = ground (arith, h x, find_first-select p q xs h)

  pub find_first-select_kept :
      (p q : A → Bool) (xs : List A)
      → ((x : A) → q x ≡ true → p x ≡ true)
      → find_first q (select p xs) ≡ find_first q xs
  unfolding find_first select
  find_first-select_kept p q [] h = refl
  find_first-select_kept p q (x ∷ xs) h = ground (arith, h x, find_first-select_kept p q xs h)

  pub find_first-remove_first_other :
      (p q : A → Bool) (xs : List A)
      → ((x : A) → p x ≡ true → q x ≡ false)
      → find_first q (remove_first p xs) ≡ find_first q xs
  unfolding find_first remove_first
  find_first-remove_first_other p q [] h = refl
  find_first-remove_first_other p q (x ∷ xs) h =
      ground (arith, h x, find_first-remove_first_other p q xs h)
