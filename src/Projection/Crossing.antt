-- ===== src/Projection/Crossing.antt =====
-- When a paid intent counts as late. The code sorts the credited settlements by chain position and
-- takes the timestamp of the one that reaches the expected amount; here it is compared with the
-- amount that arrived by the expiry.
use ppops.Prelude.{
  ℕ, ◌+◌, ◌≤◌, ◌<◌, ◌≡◌, refl, ◌∙◌, ap, true, false, List, [], ◌∷◌, arith, ltb, leb, if◌then◌else◌,
  filter, sum_of, All, Bool-cases, inl, inr,
}
use ppops.Prelude.Sorting.{insert_sorted, sort, sum_of-sort}
use ppops.Domain.{
  IntentStatus, opened, partial, paid, expired, paid_late, PaymentIntentRecord, IntentProjection,
  SettlementRecord,
}
use ppops.Projection.{
  is_creditable, add_amounts, before, crossing_timestamp, status_for, derive_projection,
}
use ppops.Projection.Accounts.{derive_projection-IsAccountOf}

-- What `s` adds to the amount that arrived by `deadline`.
abbrev pub amount_by : ℕ → SettlementRecord → ℕ
amount_by deadline s = if leb s.block_timestamp deadline then s.amount_atomic else 0

abbrev pub arrived_by : ℕ → List SettlementRecord → ℕ
arrived_by deadline = sum_of (amount_by deadline)

-- The status, with no ordering of the settlements: from the credited total, the part of it that
-- arrived by the expiry, and the time.
unfoldable pub expected_status : PaymentIntentRecord → List SettlementRecord → ℕ → IntentStatus
unfolding add_amounts
expected_status intent creditable now =
    if leb intent.expected_amount_atomic (arrived_by intent.expires_at creditable)
    then paid
    else if leb intent.expected_amount_atomic (add_amounts creditable)
    then paid_late
    else if ltb 0 (add_amounts creditable)
    then partial
    else if leb intent.expires_at now
    then expired
    else opened

-- Timestamps do not fall along the list.
abbrev Ascending : List SettlementRecord → Type 0
Ascending [] = Unit {0}
Ascending (s ∷ rest) = All (λ t. s.block_timestamp ≤ t.block_timestamp) rest × Ascending rest

arrived_by-late :
    (deadline t : ℕ) (xs : List SettlementRecord)
    → deadline < t
    → All (λ x. t ≤ x.block_timestamp) xs
    → arrived_by deadline xs ≡ 0
arrived_by-late deadline t [] h a = refl
arrived_by-late deadline t (x ∷ xs) h a = ground (arith, arrived_by-late deadline t xs h a.1)

arrived_by-le :
    (deadline : ℕ) (xs : List SettlementRecord) → arrived_by deadline xs ≤ add_amounts xs
unfolding add_amounts
arrived_by-le deadline [] = omega arith
arrived_by-le deadline (x ∷ xs) = ground (arith, arrived_by-le deadline xs)

-- Where the total is reached, the crossing is late exactly if too little had arrived in time.
crossing_late :
    (deadline expected crossing cumulative : ℕ) (xs : List SettlementRecord)
    → Ascending xs
    → cumulative < expected
    → expected ≤ cumulative + add_amounts xs
    → ltb deadline (crossing_timestamp expected crossing cumulative xs)
      ≡ ltb (cumulative + arrived_by deadline xs) expected
unfolding crossing_timestamp add_amounts
crossing_late deadline expected crossing cumulative [] asc below reach = absurd (omega arith)
crossing_late deadline expected crossing cumulative (x ∷ xs) asc below reach = ground (
  arith,
  crossing_late deadline expected crossing (cumulative + x.amount_atomic) xs asc.1,
  arrived_by-late deadline x.block_timestamp xs,
)

module _ (clock : ℕ → ℕ) where
  -- Each settlement carries the timestamp of its block.
  abbrev pub Stamped : List SettlementRecord → Type 0
  Stamped = All (λ s. s.block_timestamp ≡ clock s.block_number)

  Stamped-insert_sorted :
      (x : SettlementRecord) (xs : List SettlementRecord)
      → x.block_timestamp ≡ clock x.block_number
      → Stamped xs
      → Stamped (insert_sorted before x xs)
  unfolding insert_sorted
  Stamped-insert_sorted x [] h a = (h, tt)
  Stamped-insert_sorted x (y ∷ ys) h a = ground (arith, Stamped-insert_sorted x ys h a.1)

  Stamped-sort : (xs : List SettlementRecord) → Stamped xs → Stamped (sort before xs)
  unfolding sort
  Stamped-sort [] a = tt
  Stamped-sort (x ∷ xs) a = Stamped-insert_sorted x (sort before xs) a.0 (Stamped-sort xs a.1)

module _ (clock : ℕ → ℕ) (rising : (a b : ℕ) → a ≤ b → clock a ≤ clock b) where
  above-insert_sorted :
      (t : ℕ) (x : SettlementRecord) (xs : List SettlementRecord)
      → t ≤ x.block_timestamp
      → All (λ y. t ≤ y.block_timestamp) xs
      → All (λ y. t ≤ y.block_timestamp) (insert_sorted before x xs)
  unfolding insert_sorted
  above-insert_sorted t x [] h a = (h, tt)
  above-insert_sorted t x (y ∷ ys) h a = ground (arith, above-insert_sorted t x ys h a.1)

  above-le :
      (s t : ℕ) (xs : List SettlementRecord)
      → s ≤ t
      → All (λ y. t ≤ y.block_timestamp) xs
      → All (λ y. s ≤ y.block_timestamp) xs
  above-le s t [] h a = tt
  above-le s t (x ∷ xs) h a = (omega arith, above-le s t xs h a.1)

  -- A settlement that is strictly before another has no later timestamp, and one that is not has
  -- no earlier one.
  before-timestamp :
      (y x : SettlementRecord)
      → y.block_timestamp ≡ clock y.block_number
      → x.block_timestamp ≡ clock x.block_number
      → before y x ≡ true
      → y.block_timestamp ≤ x.block_timestamp
  unfolding before
  before-timestamp y x hy hx e = ground (arith, rising y.block_number x.block_number)

  not-before-timestamp :
      (y x : SettlementRecord)
      → y.block_timestamp ≡ clock y.block_number
      → x.block_timestamp ≡ clock x.block_number
      → before y x ≡ false
      → x.block_timestamp ≤ y.block_timestamp
  unfolding before
  not-before-timestamp y x hy hx e = ground (arith, rising x.block_number y.block_number)

  Ascending-insert_sorted :
      (x : SettlementRecord) (xs : List SettlementRecord)
      → x.block_timestamp ≡ clock x.block_number
      → Stamped clock xs
      → Ascending xs
      → Ascending (insert_sorted before x xs)
  unfolding insert_sorted
  Ascending-insert_sorted x [] h a asc = (tt, tt)
  Ascending-insert_sorted x (y ∷ ys) h a asc = elim (Bool-cases (before y x)) [
    | inl e ↦ rw e (
      above-insert_sorted y.block_timestamp x ys (before-timestamp y x a.0 h e) asc.0,
      Ascending-insert_sorted x ys h a.1 asc.1,
    )
    | inr e ↦
        let le = not-before-timestamp y x a.0 h e in
        rw e ((le, above-le x.block_timestamp y.block_timestamp ys le asc.0), asc)
  ]

  Ascending-sort : (xs : List SettlementRecord) → Stamped clock xs → Ascending (sort before xs)
  unfolding sort
  Ascending-sort [] a = tt
  Ascending-sort (x ∷ xs) a =
      Ascending-insert_sorted x (sort before xs) a.0 (Stamped-sort clock xs a.1)
        (Ascending-sort xs a.1)

  status_for-eq-expected_status :
      (intent : PaymentIntentRecord) (creditable : List SettlementRecord) (now : ℕ)
      → 0 < intent.expected_amount_atomic
      → Stamped clock creditable
      → status_for intent creditable (add_amounts creditable) now
        ≡ expected_status intent creditable now
  unfolding status_for expected_status
  status_for-eq-expected_status intent creditable now pos a = ground (
    arith,
    arrived_by-le intent.expires_at creditable,
    sum_of-sort before (λ (s : SettlementRecord). s.amount_atomic) creditable,
    sum_of-sort before (amount_by intent.expires_at) creditable,
    crossing_late intent.expires_at intent.expected_amount_atomic now 0 (sort before creditable)
        (Ascending-sort creditable a),
  )

  -- If the expected amount is positive, block timestamps do not fall with the height and each credited settlement carries its
  -- block's timestamp, the status of a derived projection is that of the amounts alone: PAID
  -- exactly if the expected amount arrived by the expiry, PAID_LATE if it was reached later,
  -- PARTIAL if something less was credited, and EXPIRED or OPEN by the time if nothing was.
  pub status-derive_projection :
      (intent : PaymentIntentRecord) (settlements : List SettlementRecord)
      (previous : IntentProjection) (now : ℕ)
      → 0 < intent.expected_amount_atomic
      → Stamped clock (filter is_creditable settlements)
      → (derive_projection intent settlements previous now).status
        ≡ expected_status intent (filter is_creditable settlements) now
  status-derive_projection intent settlements previous now pos a =
      let h = derive_projection-IsAccountOf intent settlements previous now in
      h.status
      ∙ ap (λ r. status_for intent (filter is_creditable settlements) r now) h.received
      ∙ status_for-eq-expected_status intent (filter is_creditable settlements) now pos a
