-- ===== src/Base/Sort.antt =====
-- Go's sort.Slice and sort.SliceStable, as the stable insertion sort over a strict comparison.
use container_app_service_mo.Base.{
  ℕ, ◌+◌, ◌≡◌, refl, Bool, true, false, ◌||◌, List, [], ◌∷◌, arith, if◌then◌else◌, any, length, suc,
  All, sum_by,
}

module _ {ℓ} {A : Type ℓ} (less : A → A → Bool) where
  -- `x` stood before all of `ys`, so it goes past the smaller ones only.
  unfoldable pub insert : A → List A → List A
  insert x [] = x ∷ []
  insert x (y ∷ ys) = if less y x then y ∷ insert x ys else x ∷ y ∷ ys

  unfoldable pub sort : List A → List A
  unfolding insert
  sort [] = []
  sort (x ∷ xs) = insert x (sort xs)

  pub any-insert : (p : A → Bool) (x : A) (ys : List A) → any p (insert x ys) ≡ (p x || any p ys)
  unfolding insert
  any-insert p x [] = refl
  any-insert p x (y ∷ ys) = ground (arith, any-insert p x ys)

  -- Sorting keeps what some member satisfies.
  pub any-sort : (p : A → Bool) (xs : List A) → any p (sort xs) ≡ any p xs
  unfolding sort
  any-sort p [] = refl
  any-sort p (x ∷ xs) = ground (arith, any-insert p x (sort xs), any-sort p xs)

  All-insert {κ} : (P : A → Type κ) (x : A) (ys : List A) → P x → All P ys → All P (insert x ys)
  unfolding insert
  All-insert P x [] h hs = (h, tt)
  All-insert P x (y ∷ ys) h hs =
      elim (less y x) as (λ b. All P (if b then y ∷ insert x ys else x ∷ y ∷ ys)) [
        | true ↦ (hs.0, All-insert P x ys h hs.1)
        | false ↦ (h, hs)
      ]

  -- And what every member satisfies.
  pub All-sort {κ} : (P : A → Type κ) (xs : List A) → All P xs → All P (sort xs)
  unfolding sort
  All-sort P [] hs = tt
  All-sort P (x ∷ xs) hs = All-insert P x (sort xs) hs.0 (All-sort P xs hs.1)

  length-insert : (x : A) (ys : List A) → length (insert x ys) ≡ suc (length ys)
  unfolding insert
  length-insert x [] = refl
  length-insert x (y ∷ ys) = ground (arith, length-insert x ys)

  pub length-sort : (xs : List A) → length (sort xs) ≡ length xs
  unfolding sort
  length-sort [] = refl
  length-sort (x ∷ xs) = ground (arith, length-insert x (sort xs), length-sort xs)

  All-insert_inv {κ} : (P : A → Type κ) (x : A) (ys : List A) → All P (insert x ys) → P x × All P ys
  unfolding insert
  All-insert_inv P x [] hs = (hs.0, tt)
  All-insert_inv P x (y ∷ ys) hs = split (less y x) hs (All-insert_inv P x ys)
    where
      split :
          (b : Bool)
          → All P (if b then y ∷ insert x ys else x ∷ y ∷ ys)
          → (All P (insert x ys) → P x × All P ys)
          → P x × All P (y ∷ ys)
      split true k ih = ((ih k.1).0, (k.0, (ih k.1).1))
      split false k ih = k

  -- And what every member of the sorted list satisfies.
  pub All-unsort {κ} : (P : A → Type κ) (xs : List A) → All P (sort xs) → All P xs
  unfolding sort
  All-unsort P [] hs = tt
  All-unsort P (x ∷ xs) hs =
      let parts = All-insert_inv P x (sort xs) hs in (parts.0, All-unsort P xs parts.1)

  sum_by-insert : (f : A → ℕ) (x : A) (ys : List A) → sum_by f (insert x ys) ≡ f x + sum_by f ys
  unfolding insert
  sum_by-insert f x [] = refl
  sum_by-insert f x (y ∷ ys) = ground (arith, sum_by-insert f x ys)

  pub sum_by-sort : (f : A → ℕ) (xs : List A) → sum_by f (sort xs) ≡ sum_by f xs
  unfolding sort
  sum_by-sort f [] = refl
  sum_by-sort f (x ∷ xs) = omega (arith, sum_by-insert f x (sort xs), sum_by-sort f xs)
