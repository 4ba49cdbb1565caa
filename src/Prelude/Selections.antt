-- ===== src/Prelude/Selections.antt =====
-- Keyed rows that are sorted, filtered and cut off, as a query with ORDER BY, WHERE and LIMIT does.
use mathlib.Core.Path.{◌≡◌, refl}
use mathlib.Core.Logic.{inl, inr}
use mathlib.Core.Bool.{Bool, false}
use mathlib.Core.List.{List, [], ◌∷◌}
use mathlib.Core.Option.{none}
use native.Mathlib.Omega.{arith}
use ppops.Prelude.Tests.{Bool-cases}
use Prim.Native.Nat.{ℕ, zero, suc}
use ppops.Prelude.Lists.{filter, take}
use ppops.Prelude.Sorting.{insert_sorted, sort}
use ppops.Prelude.Texts.{Text, text_eq, text_eq_iff}
use ppops.Prelude.Tables.{find_by, Distinct}

module _ {ℓ} {A : Type ℓ} (key : A → Text) (before : A → A → Bool) where
  find_by-insert_sorted :
      (k : Text) (x : A) (xs : List A)
      → find_by key k (x ∷ xs) ≡ none
      → find_by key k (insert_sorted before x xs) ≡ none
  unfolding insert_sorted
  find_by-insert_sorted k x [] h = h
  find_by-insert_sorted k x (y ∷ ys) h = ground (arith, find_by-insert_sorted k x ys)

  Distinct-insert_sorted :
      (x : A) (xs : List A) → Distinct key (x ∷ xs) → Distinct key (insert_sorted before x xs)
  unfolding insert_sorted
  Distinct-insert_sorted x [] d = d
  Distinct-insert_sorted x (y ∷ ys) d = elim (Bool-cases (before y x)) [
    | inl e ↦
        let apart : text_eq (key x) (key y) ≡ false =
          ground (arith, d.0, text_eq_iff (key x) (key y), text_eq_iff (key y) (key x)) in
        rw e (
          find_by-insert_sorted (key y) x ys (rw apart d.1.0),
          Distinct-insert_sorted x ys (ground (arith, d.0), d.1.1),
        )
    | inr e ↦ rw e d
  ]

  find_by-sort :
      (k : Text) (xs : List A) → find_by key k xs ≡ none → find_by key k (sort before xs) ≡ none
  unfolding sort
  find_by-sort k [] h = h
  find_by-sort k (x ∷ xs) h =
      find_by-insert_sorted k x (sort before xs) (ground (arith, find_by-sort k xs))

  pub Distinct-sort : (xs : List A) → Distinct key xs → Distinct key (sort before xs)
  unfolding sort
  Distinct-sort [] d = tt
  Distinct-sort (x ∷ xs) d =
      Distinct-insert_sorted x (sort before xs) (find_by-sort (key x) xs d.0, Distinct-sort xs d.1)

module _ {ℓ} {A : Type ℓ} (key : A → Text) where
  pub find_by-filter :
      (test : A → Bool) (k : Text) (xs : List A)
      → find_by key k xs ≡ none
      → find_by key k (filter test xs) ≡ none
  find_by-filter test k [] h = h
  find_by-filter test k (x ∷ xs) h = ground (arith, find_by-filter test k xs)

  pub Distinct-filter :
      (test : A → Bool) (xs : List A) → Distinct key xs → Distinct key (filter test xs)
  Distinct-filter test [] d = tt
  Distinct-filter test (x ∷ xs) d = elim (Bool-cases (test x)) [
    | inl e ↦ rw e (find_by-filter test (key x) xs d.0, Distinct-filter test xs d.1)
    | inr e ↦ rw e (Distinct-filter test xs d.1)
  ]

  find_by-take :
      (n : ℕ) (k : Text) (xs : List A) → find_by key k xs ≡ none → find_by key k (take n xs) ≡ none
  find_by-take zero k xs h = refl
  find_by-take (suc n) k [] h = h
  find_by-take (suc n) k (x ∷ xs) h = ground (arith, find_by-take n k xs)

  pub Distinct-take : (n : ℕ) (xs : List A) → Distinct key xs → Distinct key (take n xs)
  Distinct-take zero xs d = tt
  Distinct-take (suc n) [] d = tt
  Distinct-take (suc n) (x ∷ xs) d = (find_by-take n (key x) xs d.0, Distinct-take n xs d.1)
