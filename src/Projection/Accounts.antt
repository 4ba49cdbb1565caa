-- ===== src/Projection/Accounts.antt =====
-- What the fields of a derived projection are, and when its revision moves.
use ppops.Prelude.{
  sym, ap, ◌∙◌, ◌↔◌, ℕ, ◌+◌, ◌-◌, ◌≡◌, refl, ◌⊎◌, inl, inr, true, false, List, arith, filter,
  Bool-cases, subst,
}
use ppops.Domain.{
  IntentStatus, opened, partial, paid, expired, paid_late, PaymentIntentRecord, IntentProjection,
  SettlementRecord, intent_status_eq,
}
use ppops.Projection.{
  is_creditable, is_pending, add_amounts, status_for, next_projection, has_changed,
  derive_projection,
}

pub intent_status_eq_sound : (a b : IntentStatus) → intent_status_eq a b ≡ true → a ≡ b
intent_status_eq_sound opened opened h = refl
intent_status_eq_sound partial partial h = refl
intent_status_eq_sound paid paid h = refl
intent_status_eq_sound expired expired h = refl
intent_status_eq_sound paid_late paid_late h = refl
intent_status_eq_sound _ _ h = cc

pub intent_status_eq_refl : (a : IntentStatus) → intent_status_eq a a ≡ true
intent_status_eq_refl opened = refl
intent_status_eq_refl partial = refl
intent_status_eq_refl paid = refl
intent_status_eq_refl expired = refl
intent_status_eq_refl paid_late = refl

-- The amounts and the status of `p` are those that `settlements` give at `now`.
pub record IsAccountOf (intent : PaymentIntentRecord) (settlements : List SettlementRecord)
    (now : ℕ) (p : IntentProjection) : Type 0 where
  pub received : p.received_amount_atomic ≡ add_amounts (filter is_creditable settlements)
  pub pending : p.pending_amount_atomic ≡ add_amounts (filter is_pending settlements)
  pub overpaid :
      p.overpayment_amount_atomic ≡ p.received_amount_atomic - intent.expected_amount_atomic
  pub status :
      p.status ≡ status_for intent (filter is_creditable settlements) p.received_amount_atomic now

-- The test for a change compares the status and the three amounts, and nothing else.
has_changed_iff :
    (next previous : IntentProjection)
    → (has_changed next previous ≡ false) ↔ (
        (next.status ≡ previous.status)
        × (next.received_amount_atomic ≡ previous.received_amount_atomic)
        × (next.pending_amount_atomic ≡ previous.pending_amount_atomic)
        × (next.overpayment_amount_atomic ≡ previous.overpayment_amount_atomic))
unfolding has_changed
has_changed_iff next previous = (
  λ h. ground (arith, intent_status_eq_sound next.status previous.status),
  λ (s, r, p, o). rw (s, r, p, o) (ground (arith, intent_status_eq_refl previous.status)),
)

-- Two accounts of the same settlements at the same time agree.
account_unique :
    (intent : PaymentIntentRecord) (settlements : List SettlementRecord) (now : ℕ)
    (p q : IntentProjection)
    → IsAccountOf intent settlements now p
    → IsAccountOf intent settlements now q
    → has_changed p q ≡ false
account_unique intent settlements now p q a b = (has_changed_iff p q).1 (
  a.status
      ∙ ap (λ r. status_for intent (filter is_creditable settlements) r now)
          (a.received ∙ sym b.received)
      ∙ sym b.status,
  a.received ∙ sym b.received,
  a.pending ∙ sym b.pending,
  a.overpaid
      ∙ ap (λ r. r - intent.expected_amount_atomic) (a.received ∙ sym b.received)
      ∙ sym b.overpaid,
)

module _ (intent : PaymentIntentRecord) (settlements : List SettlementRecord)
    (previous : IntentProjection) (now : ℕ) where
  next_projection-IsAccountOf :
      IsAccountOf intent settlements now (next_projection intent settlements previous now)
  unfolding next_projection
  next_projection-IsAccountOf = record {
    received = refl;
    pending = refl;
    overpaid = ground arith;
    status = refl;
  }

  -- Whatever the previous projection was, the derived one holds the amounts and the status that
  -- the settlements give at `now`: the credited total, the pending total, the excess over the
  -- expected amount, and the status of the credited settlements.
  pub derive_projection-IsAccountOf :
      IsAccountOf intent settlements now (derive_projection intent settlements previous now)
  unfolding derive_projection next_projection
  derive_projection-IsAccountOf =
      let next = next_projection intent settlements previous now in
      let a : IsAccountOf intent settlements now next = next_projection-IsAccountOf in
      elim (Bool-cases (has_changed next previous)) [
        | inl e ↦ rw e (record {
          received = a.received;
          pending = a.pending;
          overpaid = a.overpaid;
          status = a.status;
        })
        | inr e ↦
            let (s, r, p, o) = (has_changed_iff next previous).0 e in
            rw e (record {
              received = sym r ∙ a.received;
              pending = sym p ∙ a.pending;
              overpaid = rw (← o, ← r) a.overpaid;
              status = rw (← s, ← r) a.status;
            })
      ]

-- A projection that is already the account of the settlements is returned as it is.
pub derive_projection-settled :
    (intent : PaymentIntentRecord) (settlements : List SettlementRecord) (p : IntentProjection)
    (now : ℕ)
    → IsAccountOf intent settlements now p
    → derive_projection intent settlements p now ≡ p
unfolding derive_projection
derive_projection-settled intent settlements p now a = rw (
    account_unique intent settlements now (next_projection intent settlements p now) p
      (next_projection-IsAccountOf intent settlements p now) a)

-- Deriving again at the same time changes nothing: no revision is used up.
pub derive_projection_idem :
    (intent : PaymentIntentRecord) (settlements : List SettlementRecord)
    (previous : IntentProjection) (now : ℕ)
    → derive_projection intent settlements (derive_projection intent settlements previous now) now
      ≡ derive_projection intent settlements previous now
derive_projection_idem intent settlements previous now =
    derive_projection-settled intent settlements (derive_projection intent settlements previous now)
      now (derive_projection-IsAccountOf intent settlements previous now)

pub derive_projection-intent_id :
    (intent : PaymentIntentRecord) (settlements : List SettlementRecord)
    (previous : IntentProjection) (now : ℕ)
    → previous.intent_id ≡ intent.id
    → (derive_projection intent settlements previous now).intent_id ≡ intent.id
unfolding derive_projection next_projection
derive_projection-intent_id intent settlements previous now h = ground arith

derive_projection-changed :
    (intent : PaymentIntentRecord) (settlements : List SettlementRecord)
    (previous : IntentProjection) (now : ℕ)
    → has_changed (next_projection intent settlements previous now) previous ≡ true
    → let next = derive_projection intent settlements previous now in
      (next.revision ≡ previous.revision + 1) × (next.updated_at ≡ now)
unfolding derive_projection
derive_projection-changed intent settlements previous now e = rw e (refl, refl)

derive_projection-unchanged :
    (intent : PaymentIntentRecord) (settlements : List SettlementRecord)
    (previous : IntentProjection) (now : ℕ)
    → has_changed (next_projection intent settlements previous now) previous ≡ false
    → derive_projection intent settlements previous now ≡ previous
unfolding derive_projection
derive_projection-unchanged intent settlements previous now e = rw e

-- A derivation leaves the projection as it was exactly if it already holds the amounts and the
-- status that the settlements give at `now`. Otherwise it yields a projection that holds them,
-- dated `now`, with a revision greater by one.
pub derive_projection-revision :
    (intent : PaymentIntentRecord) (settlements : List SettlementRecord)
    (previous : IntentProjection) (now : ℕ)
    → let next = derive_projection intent settlements previous now in
      (IsAccountOf intent settlements now previous × (next ≡ previous))
      ⊎ (¬ IsAccountOf intent settlements now previous
          × IsAccountOf intent settlements now next
          × (next.revision ≡ previous.revision + 1)
          × (next.updated_at ≡ now))
derive_projection-revision intent settlements previous now =
    let next = next_projection intent settlements previous now in
    let derived = derive_projection-IsAccountOf intent settlements previous now in
    let a = next_projection-IsAccountOf intent settlements previous now in
    elim (Bool-cases (has_changed next previous)) [
      | inl e ↦
          let (revised, dated) = derive_projection-changed intent settlements previous now e in
          inr (
            λ old. let equal = account_unique intent settlements now next previous a old in cc,
            derived,
            revised,
            dated,
          )
      | inr e ↦
          let same = derive_projection-unchanged intent settlements previous now e in
          inl (subst (IsAccountOf intent settlements now) same derived, same)
    ]
