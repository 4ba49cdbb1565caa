-- ===== src/Projection.antt =====
-- src/reconciliation/projection.ts: what an intent's settlements make of it. The proofs are in the
-- modules below this one.
pub mod Accounts
pub mod Crossing
use ppops.Prelude.{
  ℕ, suc, ◌+◌, ◌-◌, Bool, true, false, not, ◌&&◌, ◌||◌, List, [], ◌∷◌, ltb, leb, ◌==◌,
  if◌then◌else◌, filter, sum_of,
}
use ppops.Prelude.Sorting.{sort}
use ppops.Domain.{
  IntentStatus, opened, partial, paid, expired, paid_late, PaymentIntentRecord, IntentProjection,
  SettlementRecord, is_finalized, is_reverted, is_spendable, is_matched, intent_status_eq,
}

unfoldable pub is_creditable : SettlementRecord → Bool
is_creditable s =
    is_matched s.match_status && is_finalized s.chain_status && is_spendable s.poi_status

unfoldable pub is_pending : SettlementRecord → Bool
unfolding is_creditable
is_pending s =
    is_matched s.match_status && not (is_reverted s.chain_status) && not (is_creditable s)

unfoldable pub add_amounts : List SettlementRecord → ℕ
add_amounts settlements = sum_of (λ s. s.amount_atomic) settlements

-- The comparison by block, tree and position is negative.
unfoldable pub before : SettlementRecord → SettlementRecord → Bool
before left right =
    ltb left.block_number right.block_number
    || left.block_number == right.block_number
      && (ltb left.tree right.tree || left.tree == right.tree && ltb left.position right.position)

-- The loop over the ordered settlements: the timestamp of the one with which the running total
-- reaches `expected`, else `crossing`.
unfoldable pub crossing_timestamp : ℕ → ℕ → ℕ → List SettlementRecord → ℕ
crossing_timestamp expected crossing cumulative [] = crossing
crossing_timestamp expected crossing cumulative (s ∷ rest) =
    let later = crossing_timestamp expected crossing (cumulative + s.amount_atomic) rest in
    if leb expected (cumulative + s.amount_atomic) then s.block_timestamp else later

unfoldable pub status_for : PaymentIntentRecord → List SettlementRecord → ℕ → ℕ → IntentStatus
unfolding crossing_timestamp before
status_for intent creditable received now =
    let expected = intent.expected_amount_atomic in
    let ordered = sort before creditable in
    if leb expected received
    then (if ltb intent.expires_at (crossing_timestamp expected now 0 ordered)
        then paid_late
        else paid)
    else if ltb 0 received
    then partial
    else if leb intent.expires_at now
    then expired
    else opened

-- The object `next` before the revision is decided.
unfoldable pub next_projection :
    PaymentIntentRecord → List SettlementRecord → IntentProjection → ℕ → IntentProjection
unfolding is_pending add_amounts
next_projection intent settlements previous now =
    let creditable = filter is_creditable settlements in
    let received = add_amounts creditable in
    let expected = intent.expected_amount_atomic in
    record {
      intent_id = intent.id;
      status = status_for intent creditable received now;
      received_amount_atomic = received;
      pending_amount_atomic = add_amounts (filter is_pending settlements);
      overpayment_amount_atomic = if ltb expected received then received - expected else 0;
      revision = previous.revision;
      updated_at = previous.updated_at;
    }

unfoldable pub has_changed : IntentProjection → IntentProjection → Bool
has_changed next previous =
    not (intent_status_eq next.status previous.status)
    || not (next.received_amount_atomic == previous.received_amount_atomic)
    || not (next.pending_amount_atomic == previous.pending_amount_atomic)
    || not (next.overpayment_amount_atomic == previous.overpayment_amount_atomic)

unfoldable pub derive_projection :
    PaymentIntentRecord → List SettlementRecord → IntentProjection → ℕ → IntentProjection
derive_projection intent settlements previous now =
    let next = next_projection intent settlements previous now in
    if has_changed next previous
    then record next { revision = previous.revision + 1; updated_at = now }
    else previous
