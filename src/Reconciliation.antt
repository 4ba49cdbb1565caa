-- ===== src/Reconciliation.antt =====
-- src/reconciliation/service.ts and src/events/event-factory.ts: how an observed settlement moves
-- the tables. `sha256_hex` stands for node's SHA-256 with a hexadecimal digest.
pub mod Transitions
pub mod Steps
pub mod Attachment
pub mod Coherence
use ppops.Prelude.{
  ℕ, ◌+◌, Bool, true, false, not, ◌&&◌, ◌||◌, List, [], ◌∷◌, ◌++◌, Option, none, some, ltb, leb,
  ◌==◌, if◌then◌else◌, is_some, take, Text, codes, text_eq, option_text_eq, truthy, to_lower_case,
}
use ppops.Prelude.Results.{Result, ok, err, ◌>>=◌, ◌>>◌, guard}
use ppops.Domain.{
  IntentStatus, opened, partial, paid, expired, paid_late, PoiStatus, spendable, MatchStatus,
  unmatched, matched, conflict, PaymentIntentRecord, IntentProjection, NormalizedSettlement,
  SettlementRecord, EventType, settlement_observed, payment_partial, payment_confirmed,
  payment_expired, payment_reverted, PpOpsEvent, intent_status_eq, is_finalized, is_spendable,
  is_unknown, is_matched,
}
use ppops.Domain.Amount.{to_text}
use ppops.Database.{Database, Failure, missing_projection, identity_collision, transaction}
use ppops.Database.Intents.{
  find_intent_by_reference, get_projection, update_projection, list_intents,
}
use ppops.Database.Settlements.{get_settlement, upsert_settlement, list_settlements_for_intent}
use ppops.Database.Outbox.{insert_event}
use ppops.Projection.{derive_projection}

unfoldable pub is_paid : IntentProjection → Bool
is_paid p = intent_status_eq p.status paid || intent_status_eq p.status paid_late

unfoldable pub transition_event_type : IntentProjection → IntentProjection → Option EventType
unfolding is_paid
transition_event_type previous next =
    if is_paid previous && not (is_paid next)
    then some payment_reverted
    else if not (is_paid previous) && is_paid next
    then some payment_confirmed
    else if intent_status_eq next.status partial
        && not (next.received_amount_atomic == previous.received_amount_atomic)
    then some payment_partial
    else if not (intent_status_eq previous.status expired) && intent_status_eq next.status expired
    then some payment_expired
    else none

abbrev pub event_type_text : EventType → Text
event_type_text settlement_observed = codes "settlement.observed"
event_type_text payment_partial = codes "payment.partial"
event_type_text payment_confirmed = codes "payment.confirmed"
event_type_text payment_expired = codes "payment.expired"
event_type_text payment_reverted = codes "payment.reverted"

-- `settlement.observed:<settlement>`
unfoldable pub observed_key : Text → Text
observed_key settlement_id = event_type_text settlement_observed ++ codes ":" ++ settlement_id

-- `<type>:<intent>:<revision>`
unfoldable pub transition_key : EventType → Text → ℕ → Text
transition_key type intent_id revision =
    event_type_text type ++ codes ":" ++ intent_id ++ codes ":" ++ to_text revision

-- The fields that may not change, the optional reference last.
unfoldable pub same_identity : SettlementRecord → NormalizedSettlement → Bool
same_identity stored candidate =
    stored.chain_id == candidate.chain_id
    && text_eq stored.txid_version candidate.txid_version
    && stored.tree == candidate.tree
    && stored.position == candidate.position
    && text_eq stored.transaction_hash candidate.transaction_hash
    && text_eq stored.token_address candidate.token_address
    && stored.amount_atomic == candidate.amount_atomic
    && option_text_eq stored.reference candidate.reference

abbrev pub assert_immutable_identity :
    Option SettlementRecord → NormalizedSettlement → Result Failure (Unit {0})
assert_immutable_identity none candidate = ok tt
assert_immutable_identity (some stored) candidate =
    guard (same_identity stored candidate) identity_collision

abbrev pub referenced_intent : Option Text → Database → Option PaymentIntentRecord
referenced_intent none db = none
referenced_intent (some reference) db = find_intent_by_reference reference db

unfoldable pub matches_rail : PaymentIntentRecord → NormalizedSettlement → Bool
matches_rail intent candidate =
    intent.chain_id == candidate.chain_id
    && text_eq (to_lower_case intent.token_address) (to_lower_case candidate.token_address)

-- The intent that the candidate's reference names, if chain and token agree.
abbrev pub on_rail : Option PaymentIntentRecord → NormalizedSettlement → Option PaymentIntentRecord
on_rail none candidate = none
on_rail (some intent) candidate = if matches_rail intent candidate then some intent else none

abbrev pub match_status_for : Option PaymentIntentRecord → NormalizedSettlement → MatchStatus
match_status_for none candidate = unmatched
match_status_for (some intent) candidate =
    if matches_rail intent candidate then matched else conflict

abbrev was_spendable : Option SettlementRecord → Bool
was_spendable none = false
was_spendable (some stored) = is_spendable stored.poi_status

abbrev spent_bucket : Text
spent_bucket = codes "Spent"

-- Spending the note does not take back that it was spendable.
unfoldable pub kept_poi_status : Option SettlementRecord → NormalizedSettlement → PoiStatus
kept_poi_status existing candidate =
    if text_eq candidate.balance_bucket spent_bucket
      && is_unknown candidate.poi_status
      && was_spendable existing
    then spendable
    else candidate.poi_status

abbrev pub intent_id_of : Option PaymentIntentRecord → Option Text
intent_id_of none = none
intent_id_of (some intent) = some intent.id

abbrev first_seen : Option SettlementRecord → ℕ → ℕ
first_seen none now = now
first_seen (some stored) now = stored.first_seen_at

abbrev eligible_from : Option ℕ → ℕ → ℕ
eligible_from none now = now
eligible_from (some t) now = t

abbrev stored_eligible : Option SettlementRecord → Option ℕ
stored_eligible none = none
stored_eligible (some stored) = stored.eligible_at

-- The record that is upserted.
unfoldable pub merged_settlement :
    Option SettlementRecord
    → Option PaymentIntentRecord
    → NormalizedSettlement
    → ℕ
    → SettlementRecord
unfolding kept_poi_status
merged_settlement existing intent candidate now =
    let poi_status = kept_poi_status existing candidate in
    let match_status = match_status_for intent candidate in
    record {
      settlement = record candidate { poi_status = poi_status };
      match_status = match_status;
      intent_id = intent_id_of (on_rail intent candidate);
      first_seen_at = first_seen existing now;
      last_seen_at = now;
      eligible_at =
          if is_matched match_status
            && is_finalized candidate.chain_status
            && is_spendable poi_status
          then some (eligible_from (stored_eligible existing) now)
          else none;
    }

abbrev require_projection : Text → Database → Result Failure IntentProjection
require_projection intent_id db = elim (get_projection intent_id db) [
  | none ↦ err missing_projection
  | some p ↦ ok p
]

module _ (sha256_hex : Text → Text) where
  unfoldable pub event_id_for : Text → Text
  event_id_for dedupe_key = codes "evt_" ++ take 32 (sha256_hex dedupe_key)

  unfoldable pub create_event :
      EventType → PaymentIntentRecord → IntentProjection → ℕ → Option Text → Text → PpOpsEvent
  unfolding event_id_for
  create_event type intent projection occurred_at settlement_id dedupe_key = record {
    schema_version = 1;
    event_id = event_id_for dedupe_key;
    type = type;
    occurred_at = occurred_at;
    intent_id = intent.id;
    settlement_id = truthy settlement_id;
    intent_status = projection.status;
    received_amount_atomic = projection.received_amount_atomic;
    expected_amount_atomic = intent.expected_amount_atomic;
    overpayment_amount_atomic = projection.overpayment_amount_atomic;
  }

  unfoldable pub persist_event :
      EventType
      → PaymentIntentRecord
      → IntentProjection
      → ℕ
      → Option Text
      → Text
      → Database
      → Result Failure Database
  persist_event type intent projection occurred_at settlement_id dedupe_key db = do
    (inserted, db') ←
        insert_event
          (create_event type intent projection occurred_at (truthy settlement_id) dedupe_key)
          dedupe_key db
    ok db'

  abbrev pub persist_transition :
      Option EventType
      → PaymentIntentRecord
      → IntentProjection
      → ℕ
      → Option Text
      → Database
      → Result Failure Database
  persist_transition none intent next now settlement_id db = ok db
  persist_transition (some type) intent next now settlement_id db =
      persist_event type intent next now settlement_id (transition_key type intent.id next.revision)
        db

  -- `rebuildProjection` behind the derivation: an unchanged revision writes nothing.
  unfoldable pub store_projection :
      PaymentIntentRecord
      → IntentProjection
      → IntentProjection
      → ℕ
      → Option Text
      → Database
      → Result Failure (IntentProjection × Database)
  store_projection intent previous next now settlement_id db =
      if next.revision == previous.revision then ok (previous, db) else (do
        db' ←
            persist_transition (transition_event_type previous next) intent next now settlement_id
              (update_projection next db)
        ok (next, db'))

  unfoldable pub rebuild_projection :
      PaymentIntentRecord
      → ℕ
      → Option Text
      → Database
      → Result Failure (IntentProjection × Database)
  rebuild_projection intent now settlement_id db = do
    previous ← require_projection intent.id db
    let next = derive_projection intent (list_settlements_for_intent intent.id db) previous now
    store_projection intent previous next now settlement_id db

  -- `settlement.observed`, for a settlement that had no row.
  abbrev pub announce :
      Bool → PaymentIntentRecord → SettlementRecord → ℕ → Database → Result Failure Database
  announce false intent stored now db = ok db
  announce true intent stored now db = do
    projection ← require_projection intent.id db
    persist_event settlement_observed intent projection now (some stored.unique_settlement_id)
        (observed_key stored.unique_settlement_id) db

  abbrev pub follow_up :
      Option PaymentIntentRecord
      → Bool
      → SettlementRecord
      → ℕ
      → Database
      → Result Failure (SettlementRecord × Database)
  follow_up none first stored now db = ok (stored, db)
  follow_up (some intent) first stored now db = do
    announced ← announce first intent stored now db
    (projection, rebuilt) ←
        rebuild_projection intent now (some stored.unique_settlement_id) announced
    ok (stored, rebuilt)

  unfoldable pub reconcile_operation :
      NormalizedSettlement → ℕ → Database → Result Failure (SettlementRecord × Database)
  reconcile_operation candidate now db =
      let existing = get_settlement candidate.unique_settlement_id db in
      let intent = referenced_intent (truthy candidate.reference) db in
      do
        assert_immutable_identity existing candidate
        (stored, db') ← upsert_settlement (merged_settlement existing intent candidate now) db
        follow_up (on_rail intent candidate) (not (is_some existing)) stored now db'

  unfoldable pub reconcile :
      NormalizedSettlement → ℕ → Database → Result Failure SettlementRecord × Database
  reconcile candidate now db = transaction (reconcile_operation candidate now) db

  -- The loop of `refreshExpirations`, with the number of intents that changed.
  unfoldable pub refresh_all :
      List PaymentIntentRecord → ℕ → ℕ → Database → Result Failure (ℕ × Database)
  refresh_all [] now changed db = ok (changed, db)
  refresh_all (intent ∷ rest) now changed db = do
    before ← require_projection intent.id db
    (after, db') ← rebuild_projection intent now none db
    refresh_all rest now (if after.revision == before.revision then changed else changed + 1) db'

  unfoldable pub refresh_expirations : ℕ → Database → Result Failure ℕ × Database
  refresh_expirations now db = transaction (λ t. refresh_all (list_intents 100_000 t) now 0 t) db
