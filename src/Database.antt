-- ===== src/Database.antt =====
-- src/db/database.ts: the SQLite tables as lists of rows in row order. Each SQL statement is a
-- function on them, with the table's PRIMARY KEY, UNIQUE and REFERENCES constraints as its
-- failures (the constructor switches foreign keys on). Intents, Settlements and Outbox model the
-- statements on their tables.
pub mod Intents
pub mod Settlements
pub mod Outbox
use ppops.Prelude.{ℕ, List, [], Option, Text}
use ppops.Prelude.Results.{Result, ok, err}
use ppops.Domain.{PaymentIntentRecord, IntentProjection, SettlementRecord, PpOpsEvent}

-- The exceptions that the daemon's services throw.
pub data Failure : Type 0 where
  sqlite_constraint settlement_disappeared missing_projection identity_collision : Failure
  idempotency_conflict invalid_idempotency_key payment_intent_not_found unexpected_replay : Failure
  bad_external_reference bad_amount_atomic bad_expires_at descriptor_rejected : Failure
  wrong_instance descriptor_expired : Failure

pub record IdempotencyRow : Type 0 where
  pub idempotency_key : Text
  pub request_fingerprint : Text
  pub intent_id : Text
  pub created_at : ℕ

-- `payload_json` is the stored event.
pub record OutboxRow : Type 0 where
  pub event_id : Text
  pub dedupe_key : Text
  pub intent_id : Text
  pub settlement_id : Option Text
  pub payload : PpOpsEvent
  pub occurred_at : ℕ
  pub attempts : ℕ
  pub next_attempt_at : ℕ
  pub delivered_at : Option ℕ
  pub dead_lettered_at : Option ℕ
  pub last_error : Option Text

pub record Database : Type 0 where
  pub payment_intents : List PaymentIntentRecord
  pub intent_projections : List IntentProjection
  pub settlements : List SettlementRecord
  pub outbox_events : List OutboxRow
  pub intent_idempotency : List IdempotencyRow

-- The tables that `migrate` creates.
abbrev pub empty : Database
empty = record {
  payment_intents = [];
  intent_projections = [];
  settlements = [];
  outbox_events = [];
  intent_idempotency = [];
}

-- `transaction(operation)`: an exception rolls every write back.
abbrev pub after_transaction {ℓ} :
    {A : Type ℓ} → Database → Result Failure (A × Database) → Result Failure A × Database
after_transaction db (ok (a, db')) = (ok a, db')
after_transaction db (err e) = (err e, db)

unfoldable pub transaction {ℓ} :
    {A : Type ℓ}
    → (Database → Result Failure (A × Database))
    → Database
    → Result Failure A × Database
transaction operation db = after_transaction db (operation db)
