-- ===== src/Quorum/Values.antt =====
-- What an agreed value guarantees.
use ppops.Prelude.{
  ℕ, ◌+◌, ◌<◌, ◌≤◌, ◌≡◌, ◌≢◌, ltb→lt, refl, sym, ap, ◌∙◌, subst, false, List, [], ◌∷◌, none, some,
  arith, leb, if◌then◌else◌, Bool-cases, Option-cases, ◌⊎◌, inl, inr, length, Text, text_eq,
  text_eq_iff, All, All-weaken, All-find,
}
use ppops.Prelude.Results.{Result, ok, err}
use ppops.Prelude.Sorting.{insert_sorted, sort, All-sort}
use ppops.Prelude.Tables.{find_by, Distinct-found}
use ppops.Quorum.Groups.{with_key, members, IsGrouping, group_all-IsGrouping}
use ppops.Quorum.{
  Answers, Attempts, QuorumError, Group, group_key, larger, winner, first_of, quorum_of, fulfilled,
  group_all, value_of, agreed_value, consensus_value,
}

module _ {ℓ} {A : Type ℓ} (key_for : A → Text) where
  insert-winner : (x : Group A) (ys : List (Group A)) → winner (insert_sorted larger x ys) ≢ none
  unfolding insert_sorted
  insert-winner x [] h = cc
  insert-winner x (y ∷ ys) h = ground arith

  -- The first of the sorted groups is as large as any.
  winner-insert :
      (x : Group A) (ys : List (Group A)) (w : Group A)
      → winner (insert_sorted larger x ys) ≡ some w
      → (length x.values ≤ length w.values)
        × ((y : Group A) → winner ys ≡ some y → length y.values ≤ length w.values)
  unfolding insert_sorted
  winner-insert x [] w h = let here : x ≡ w = ground arith in (rw here (omega arith), λ y e. cc e)
  winner-insert x (y ∷ ys) w h = elim (Bool-cases (larger y x)) [
    | inl e ↦
        let here : y ≡ w = ground arith in
        let less = ltb→lt _ _ e in
        (
          rw (← here) (omega (arith, less)),
          λ z f. let same : z ≡ y = ground arith in rw (same, here) (omega arith),
        )
    | inr e ↦
        let here : x ≡ w = ground arith in
        let more : length y.values ≤ length x.values = ground arith in
        (rw here (omega arith), λ z f. let same : z ≡ y = ground arith in rw (same, ← here) more)
  ]

  winner-none : (groups : List (Group A)) → winner (sort larger groups) ≡ none → groups ≡ []
  unfolding sort
  winner-none [] h = refl
  winner-none (x ∷ xs) h = absurd (insert-winner x (sort larger xs) h)

  winner-sort :
      (groups : List (Group A)) (w : Group A)
      → winner (sort larger groups) ≡ some w
      → All (λ g. length g.values ≤ length w.values) groups
  unfolding sort
  winner-sort [] w h = tt
  winner-sort (x ∷ xs) w h =
      let (head, others) = winner-insert x (sort larger xs) w h in
      (
        head,
        elim (Option-cases (winner (sort larger xs))) [
          | inl e ↦ subst (All (λ g. length g.values ≤ length w.values)) (sym (winner-none xs e)) tt
          | inr (y, e) ↦
              let bound = others y e in
              All-weaken (λ g. length g.values ≤ length y.values)
                (λ g. length g.values ≤ length w.values) xs (λ g k. omega (arith, k, bound))
                (winner-sort xs y e)
        ],
      )

  winner-All {κ} :
      (P : Group A → Type κ) (groups : List (Group A)) (w : Group A)
      → winner groups ≡ some w
      → All P groups
      → P w
  winner-All P [] w h a = cc
  winner-All P (g ∷ groups) w h a = let same : g ≡ w = ground arith in subst P same a.0

  -- The number of answers with a key.
  abbrev pub votes : Text → List A → ℕ
  votes k values = length (with_key key_for k values)

  votes-bound :
      (values : List A) (groups : List (Group A)) (w : Group A)
      → IsGrouping key_for values groups
      → winner (sort larger groups) ≡ some w
      → (k : Text) → votes k values ≤ length w.values
  votes-bound values groups w i h k =
      let all_smaller = winner-sort groups w h in
      elim (Option-cases (find_by group_key k groups)) [
        | inl e ↦
            let none_there : [] ≡ with_key key_for k values =
              ap (members key_for) (sym e) ∙ i.hold k in
            rw (← none_there) (omega arith)
        | inr (g, e) ↦
            let its : g.values ≡ with_key key_for k values =
              ap (members key_for) (sym e) ∙ i.hold k in
            rw (← its)
              (All-find (λ g. length g.values ≤ length w.values) _ groups g all_smaller e).0
      ]

  winner-votes :
      (values : List A) (groups : List (Group A)) (w : Group A)
      → IsGrouping key_for values groups
      → winner (sort larger groups) ≡ some w
      → w.values ≡ with_key key_for w.key values
  winner-votes values groups w i h =
      let found =
        winner-All (λ g. find_by group_key g.key groups ≡ some g) (sort larger groups) w h
          (All-sort larger _ groups (Distinct-found group_key groups i.keys)) in
      ap (members key_for) (sym found) ∙ i.hold w.key

  first_of-with_key :
      (k : Text) (values : List A) (v : A)
      → first_of (with_key key_for k values) ≡ some v
      → key_for v ≡ k
  first_of-with_key k [] v h = cc
  first_of-with_key k (x ∷ values) v h =
      ground (arith, text_eq_iff (key_for x) k, first_of-with_key k values v)

short_of {ℓ} :
    {A : Type ℓ} (values : List A) (quorum : ℕ)
    → 1 ≤ quorum
    → (if leb quorum (length values) then first_of values else none) ≡ none
    → length values < quorum
short_of [] quorum h e = omega arith
short_of (v ∷ values) quorum h e = ground arith

module _ {ℓ} {A : Type ℓ} (key_for : A → Text) (providers : ℕ) where
  abbrev HasMajority : List A → A → Type 0
  HasMajority values v = quorum_of providers ≤ votes key_for (key_for v) values

  abbrev HasNoMajority : List A → Type 0
  HasNoMajority values = (k : Text) → votes key_for k values < quorum_of providers

  value_of-majority :
      (values : List A) (groups : List (Group A)) (v : A)
      → IsGrouping key_for values groups
      → value_of key_for (quorum_of providers) (winner (sort larger groups)) ≡ some v
      → HasMajority values v
  value_of-majority values groups v i h = elim (Option-cases (winner (sort larger groups))) [
    | inl e ↦ absurd (ground arith)
    | inr (w, e) ↦
        let its = winner-votes key_for values groups w i e in
        let value : value_of key_for (quorum_of providers) (some w) ≡ some v = rw (e) at h in
        let enough : quorum_of providers ≤ length w.values = ground arith in
        let first : first_of (with_key key_for w.key values) ≡ some v = rw (← its) (ground arith) in
        let key = first_of-with_key key_for w.key values v first in rw (key, ← its) enough
  ]

  value_of-none :
      (values : List A) (groups : List (Group A))
      → IsGrouping key_for values groups
      → value_of key_for (quorum_of providers) (winner (sort larger groups)) ≡ none
      → HasNoMajority values
  value_of-none values groups i h k = elim (Option-cases (winner (sort larger groups))) [
    | inl e ↦
        let empty : find_by group_key k groups ≡ none =
          ap (find_by group_key k) (winner-none key_for groups e) in
        let none_there : [] ≡ with_key key_for k values =
          ap (members key_for) (sym empty) ∙ i.hold k in
        rw (← none_there) (omega arith)
    | inr (w, e) ↦
        let bound = votes-bound key_for values groups w i e k in
        let value : value_of key_for (quorum_of providers) (some w) ≡ none = rw (e) at h in
        let small : length w.values < quorum_of providers =
          short_of w.values (quorum_of providers) (omega arith) value in
        omega (arith, bound, small)
  ]

  group_all-fulfilled :
      (answers : Answers A)
      → IsGrouping key_for
          (fulfilled answers)
          (group_all key_for (quorum_of providers) (fulfilled answers) [])
  group_all-fulfilled answers =
      group_all-IsGrouping key_for (quorum_of providers) (fulfilled answers) [] []
        (record { keys = tt; hold = λ k. refl })

  agreed_value-majority :
      (answers : Answers A) (v : A)
      → agreed_value key_for (quorum_of providers) answers ≡ some v
      → HasMajority (fulfilled answers) v
  unfolding agreed_value
  agreed_value-majority answers v h =
      value_of-majority (fulfilled answers) _ v (group_all-fulfilled answers) h

  agreed_value-none :
      (answers : Answers A)
      → agreed_value key_for (quorum_of providers) answers ≡ none
      → HasNoMajority (fulfilled answers)
  unfolding agreed_value
  agreed_value-none answers h = value_of-none (fulfilled answers) _ (group_all-fulfilled answers) h

  -- What is known of two attempts and the value that came of them.
  abbrev pub AgreedValue : List A → List A → Result QuorumError A → Type 0
  AgreedValue first second (ok v) =
      HasMajority first v ⊎ (HasNoMajority first × HasMajority second v)
  AgreedValue first second (err e) = HasNoMajority first × HasNoMajority second

  -- The agreed value has the key of more than half of the providers' answers: in the first attempt
  -- if any key has so many there, else in the second; the question fails only if in neither attempt
  -- any key has so many.
  pub consensus_value-AgreedValue :
      (attempts : Attempts A)
      → AgreedValue
          (fulfilled attempts.first)
          (fulfilled attempts.second)
          (consensus_value key_for (quorum_of providers) attempts)
  unfolding consensus_value
  consensus_value-AgreedValue attempts =
      elim (Option-cases (agreed_value key_for (quorum_of providers) attempts.first)) [
        | inr (v, e) ↦ rw e (inl (agreed_value-majority attempts.first v e))
        | inl e ↦
            let nothing = agreed_value-none attempts.first e in
            elim (Option-cases (agreed_value key_for (quorum_of providers) attempts.second)) [
              | inr (v, f) ↦ rw (e, f) (inr (nothing, agreed_value-majority attempts.second v f))
              | inl f ↦ rw (e, f) (nothing, agreed_value-none attempts.second f)
            ]
      ]

  votes-apart :
      (k j : Text) (values : List A)
      → text_eq k j ≡ false
      → votes key_for k values + votes key_for j values ≤ length values
  votes-apart k j [] apart = omega arith
  votes-apart k j (v ∷ values) apart =
      ground
        (arith, text_eq_iff (key_for v) k, text_eq_iff (key_for v) j, votes-apart k j values apart)

  fulfilled-length : (answers : Answers A) → length (fulfilled answers) ≤ length answers
  fulfilled-length [] = omega arith
  fulfilled-length (none ∷ answers) = omega (arith, fulfilled-length answers)
  fulfilled-length (some a ∷ answers) = omega (arith, fulfilled-length answers)

  -- Of an attempt with one answer per provider no second key can be agreed on: a key that a quorum
  -- of the answers has is the key of the value that the attempt agrees on.
  pub agreed_value_unique :
      (answers : Answers A) (k : Text)
      → length answers ≡ providers
      → quorum_of providers ≤ votes key_for k (fulfilled answers)
      → (v : A) × (agreed_value key_for (quorum_of providers) answers ≡ some v) × (key_for v ≡ k)
  agreed_value_unique answers k size many =
      elim (Option-cases (agreed_value key_for (quorum_of providers) answers)) [
        | inl e ↦ let few = agreed_value-none answers e k in absurd (omega (arith, few, many))
        | inr (v, e) ↦
            let majority = agreed_value-majority answers v e in
            (
              v,
              e,
              elim (Bool-cases (text_eq (key_for v) k)) [
                | inl same ↦ (text_eq_iff (key_for v) k).0 same
                | inr apart ↦
                    let both = votes-apart (key_for v) k (fulfilled answers) apart in
                    let total = fulfilled-length answers in
                    absurd (omega (arith, both, total, majority, many, size))
              ],
            )
      ]
