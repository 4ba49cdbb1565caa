-- ===== src/Quorum/Heights.antt =====
-- What an agreed height guarantees.
use ppops.Prelude.{
  ℕ, ◌+◌, ◌-◌, ◌<◌, ◌≤◌, ◌≡◌, refl, ap, ◌∙◌, Bool, true, false, ◌&&◌, List, [], ◌∷◌, none, some,
  arith, ltb, leb, Bool-cases, Option-cases, ◌⊎◌, inl, inr, filter, find, length, All, All-weaken,
}
use ppops.Prelude.Results.{Result, ok, err}
use ppops.Prelude.Sorting.{insert_sorted, sort}
use ppops.Quorum.{
  Answers, Attempts, QuorumError, cluster, has_cluster, safe_heights, agreed_height,
  consensus_height,
}

length-filter-insert :
    (test : ℕ → Bool) (x : ℕ) (xs : List ℕ)
    → length (filter test (insert_sorted ltb x xs)) ≡ length (filter test (x ∷ xs))
unfolding insert_sorted
length-filter-insert test x [] = refl
length-filter-insert test x (y ∷ ys) = ground (arith, length-filter-insert test x ys)

length-filter-sort :
    (test : ℕ → Bool) (xs : List ℕ) → length (filter test (sort ltb xs)) ≡ length (filter test xs)
unfolding sort
length-filter-sort test [] = refl
length-filter-sort test (x ∷ xs) =
    length-filter-insert test x (sort ltb xs) ∙ ground (arith, length-filter-sort test xs)

-- No element of a list with `x` in front is smaller than `x`.
abbrev Least : ℕ → List ℕ → Type 0
Least x xs = All (λ y. x ≤ y) xs

abbrev IsSorted : List ℕ → Type 0
IsSorted [] = Unit
IsSorted (x ∷ xs) = Least x xs × IsSorted xs

Least-insert : (z x : ℕ) (xs : List ℕ) → z ≤ x → Least z xs → Least z (insert_sorted ltb x xs)
unfolding insert_sorted
Least-insert z x [] h a = (h, tt)
Least-insert z x (y ∷ ys) h a = elim (Bool-cases (ltb y x)) [
  | inl e ↦ rw e (a.0, Least-insert z x ys h a.1)
  | inr e ↦ rw e (h, a)
]

insert-IsSorted : (x : ℕ) (xs : List ℕ) → IsSorted xs → IsSorted (insert_sorted ltb x xs)
unfolding insert_sorted
insert-IsSorted x [] s = (tt, tt)
insert-IsSorted x (y ∷ ys) s = elim (Bool-cases (ltb y x)) [
  | inl e ↦ rw e (Least-insert y x ys (ground arith) s.0, insert-IsSorted x ys s.1)
  | inr e ↦
      let first : x ≤ y = ground arith in
      rw e ((first, All-weaken (λ z. y ≤ z) (λ z. x ≤ z) ys (λ z h. omega arith) s.0), s)
]

sort-IsSorted : (xs : List ℕ) → IsSorted (sort ltb xs)
unfolding sort
sort-IsSorted [] = tt
sort-IsSorted (x ∷ xs) = insert-IsSorted x (sort ltb xs) (sort-IsSorted xs)

-- What is found first in a sorted list is the least that passes the test.
find-least :
    (test : ℕ → Bool) (xs : List ℕ) (b : ℕ)
    → IsSorted xs
    → find test xs ≡ some b
    → (test b ≡ true) × All (λ x. x < b → test x ≡ false) xs
find-least test [] b s h = cc
find-least test (x ∷ xs) b s h = elim (Bool-cases (test x)) [
  | inl e ↦
      let here : x ≡ b = ground arith in
      (
        rw (← here) e,
        (
          (λ less. absurd (omega (arith, here, less))),
          All-weaken (λ y. x ≤ y) (λ y. y < b → test y ≡ false) xs
              (λ y h less. absurd (omega (arith, here, h, less))) s.0,
        ),
      )
  | inr e ↦
      let (passes, smaller) = find-least test xs b s.1 (ground arith) in
      (passes, ((λ less. e), smaller))
]

find-none : (test : ℕ → Bool) (xs : List ℕ) → find test xs ≡ none → All (λ x. test x ≡ false) xs
find-none test [] h = tt
find-none test (x ∷ xs) h = (ground arith, find-none test xs (ground arith))

All-inserted :
    (P : ℕ → Type 0) (x : ℕ) (xs : List ℕ) → All P (insert_sorted ltb x xs) → P x × All P xs
unfolding insert_sorted
All-inserted P x [] a = (a.0, tt)
All-inserted P x (y ∷ ys) a = elim (Bool-cases (ltb y x)) [
  | inl e ↦
      let a' : P y × All P (insert_sorted ltb x ys) = rw (e) at a in
      let (here, rest) = All-inserted P x ys a'.1 in (here, (a'.0, rest))
  | inr e ↦ rw (e) at a
]

All-sorted : (P : ℕ → Type 0) (xs : List ℕ) → All P (sort ltb xs) → All P xs
unfolding sort
All-sorted P [] a = tt
All-sorted P (x ∷ xs) a =
    let (here, rest) = All-inserted P x (sort ltb xs) a in (here, All-sorted P xs rest)

module _ (quorum max_block_lag : ℕ) where
  -- The order of the answers does not matter to a cluster.
  has_cluster-sort :
      (heights : List ℕ) (base : ℕ)
      → has_cluster quorum max_block_lag (sort ltb heights) base
        ≡ has_cluster quorum max_block_lag heights base
  has_cluster-sort heights base =
      ap (leb quorum) (
        length-filter-sort (λ height. leb base height && leb (height - base) max_block_lag) heights)

  -- The number of heights from `base` to the lag above it.
  abbrev pub reach : List ℕ → ℕ → ℕ
  reach heights base = length (filter (λ h. leb base h && leb h (base + max_block_lag)) heights)

  length-cluster :
      (heights : List ℕ) (base : ℕ)
      → length (cluster quorum max_block_lag heights base) ≡ reach heights base
  length-cluster [] base = refl
  length-cluster (h ∷ heights) base = ground (arith, length-cluster heights base)

  -- A quorum of the answers lies at most the lag above `base`, and above no lower answer.
  abbrev pub IsLeastCluster : List ℕ → ℕ → Type 0
  IsLeastCluster heights base =
      (quorum ≤ reach heights base) × All (λ h. h < base → reach heights h < quorum) heights

  abbrev pub HasNoCluster : List ℕ → Type 0
  HasNoCluster heights = All (λ h. reach heights h < quorum) heights

  has_cluster-reach :
      (heights : List ℕ) (base : ℕ)
      → has_cluster quorum max_block_lag (sort ltb heights) base ≡ true
      → quorum ≤ reach heights base
  has_cluster-reach heights base h =
      let same = has_cluster-sort heights base in ground (arith, same, length-cluster heights base)

  no_cluster-reach :
      (heights : List ℕ) (base : ℕ)
      → has_cluster quorum max_block_lag (sort ltb heights) base ≡ false
      → reach heights base < quorum
  no_cluster-reach heights base h =
      let same = has_cluster-sort heights base in ground (arith, same, length-cluster heights base)

  agreed_height-least :
      (answers : Answers ℕ) (base : ℕ)
      → agreed_height quorum max_block_lag answers ≡ some base
      → IsLeastCluster (safe_heights quorum max_block_lag answers) base
  unfolding agreed_height
  agreed_height-least answers base h =
      let heights = safe_heights quorum max_block_lag answers in
      let (passes, smaller) =
        find-least (has_cluster quorum max_block_lag (sort ltb heights)) (sort ltb heights) base
          (sort-IsSorted heights) h in
      (
        has_cluster-reach heights base passes,
        All-weaken (λ x. x < base → has_cluster quorum max_block_lag (sort ltb heights) x ≡ false)
            (λ x. x < base → reach heights x < quorum) heights
            (λ x k less. no_cluster-reach heights x (k less)) (All-sorted _ heights smaller),
      )

  agreed_height-none :
      (answers : Answers ℕ)
      → agreed_height quorum max_block_lag answers ≡ none
      → HasNoCluster (safe_heights quorum max_block_lag answers)
  unfolding agreed_height
  agreed_height-none answers h =
      let heights = safe_heights quorum max_block_lag answers in
      All-weaken (λ x. has_cluster quorum max_block_lag (sort ltb heights) x ≡ false)
        (λ x. reach heights x < quorum) heights (λ x k. no_cluster-reach heights x k)
        (All-sorted _ heights (find-none _ (sort ltb heights) h))

  -- What is known of two attempts and the height that came of them.
  abbrev pub Agreed : List ℕ → List ℕ → Result QuorumError ℕ → Type 0
  Agreed first second (ok base) =
      IsLeastCluster first base ⊎ (HasNoCluster first × IsLeastCluster second base)
  Agreed first second (err e) = HasNoCluster first × HasNoCluster second

  -- From the agreed height up to the lag above it lies a quorum of the safe answers of an attempt,
  -- and from no lower answer of that attempt does one: it is the first attempt, or the second if
  -- in the first no answer has a quorum; the question fails only if in neither any answer has one.
  pub consensus_height-Agreed :
      (attempts : Attempts ℕ)
      → Agreed
          (safe_heights quorum max_block_lag attempts.first)
          (safe_heights quorum max_block_lag attempts.second)
          (consensus_height quorum max_block_lag attempts)
  unfolding consensus_height
  consensus_height-Agreed attempts =
      elim (Option-cases (agreed_height quorum max_block_lag attempts.first)) [
        | inr (base, e) ↦ rw e (inl (agreed_height-least attempts.first base e))
        | inl e ↦
            let nothing = agreed_height-none attempts.first e in
            elim (Option-cases (agreed_height quorum max_block_lag attempts.second)) [
              | inr (base, f) ↦
                  rw (e, f) (inr (nothing, agreed_height-least attempts.second base f))
              | inl f ↦ rw (e, f) (nothing, agreed_height-none attempts.second f)
            ]
      ]
