-- ===== src/Prelude/Sorting.antt =====
-- A stable sort by a strict order given as a test: what `Array.prototype.sort` and `ORDER BY`
-- with ties in row order return.
use Prim.Native.Nat.{ℕ, ◌+◌}
use mathlib.Core.Path.{◌≡◌, refl, sym, ◌∙◌}
use mathlib.Core.Logic.{inl, inr}
use mathlib.Core.Bool.{Bool}
use mathlib.Core.List.{List, [], ◌∷◌}
use native.Mathlib.Omega.{arith}
use ppops.Prelude.Tests.{if◌then◌else◌, Bool-cases}
use ppops.Prelude.Lists.{All, length, sum_of}

module _ {ℓ} {A : Type ℓ} (before : A → A → Bool) where
  -- `x` stood before the others: it goes in front of the first that is not strictly before it.
  unfoldable pub insert_sorted : A → List A → List A
  insert_sorted x [] = x ∷ []
  insert_sorted x (y ∷ ys) = if before y x then y ∷ insert_sorted x ys else x ∷ y ∷ ys

  unfoldable pub sort : List A → List A
  unfolding insert_sorted
  sort [] = []
  sort (x ∷ xs) = insert_sorted x (sort xs)

  pub sum_of-insert_sorted :
      (f : A → ℕ) (x : A) (xs : List A) → sum_of f (insert_sorted x xs) ≡ f x + sum_of f xs
  unfolding insert_sorted
  sum_of-insert_sorted f x [] = refl
  sum_of-insert_sorted f x (y ∷ ys) = ground (arith, sum_of-insert_sorted f x ys)

  pub sum_of-sort : (f : A → ℕ) (xs : List A) → sum_of f (sort xs) ≡ sum_of f xs
  unfolding sort
  sum_of-sort f [] = refl
  sum_of-sort f (x ∷ xs) = omega (arith, sum_of-insert_sorted f x (sort xs), sum_of-sort f xs)

module _ {ℓ κ} {A : Type ℓ} (before : A → A → Bool) (P : A → Type κ) where
  pub All-insert_sorted : (x : A) (xs : List A) → P x → All P xs → All P (insert_sorted before x xs)
  unfolding insert_sorted
  All-insert_sorted x [] p h = (p, tt)
  All-insert_sorted x (y ∷ ys) p h = elim (Bool-cases (before y x)) [
    | inl e ↦ rw e (h.0, All-insert_sorted x ys p h.1)
    | inr e ↦ rw e (p, h)
  ]

  pub All-sort : (xs : List A) → All P xs → All P (sort before xs)
  unfolding sort
  All-sort [] h = tt
  All-sort (x ∷ xs) h = All-insert_sorted x (sort before xs) h.0 (All-sort xs h.1)

length-sum_of {ℓ} : {A : Type ℓ} (xs : List A) → sum_of (λ x. 1) xs ≡ length xs
length-sum_of [] = refl
length-sum_of (x ∷ xs) = ground (arith, length-sum_of xs)

pub length-sort {ℓ} :
    {A : Type ℓ} (before : A → A → Bool) (xs : List A) → length (sort before xs) ≡ length xs
length-sort before xs =
    sym (length-sum_of (sort before xs)) ∙ sum_of-sort before (λ x. 1) xs ∙ length-sum_of xs
