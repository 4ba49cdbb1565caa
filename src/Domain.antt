-- ===== src/Domain.antt =====
-- src/domain.ts: the merchant daemon's data. An amount, in the source a canonical decimal text or
-- a bigint, is the number it denotes; times, heights and
-- positions are non-negative safe integers. `JSON.parse` after `JSON.stringify` is the identity on
-- the flat objects that are stored, so a JSON column holds its object.
pub mod Amount
pub mod Memo
use ppops.Prelude.{ℕ, Bool, true, false, List, Option, Text, codes}

pub data ChainStatus : Type 0 where
  observed confirmed finalized reverted : ChainStatus

pub data PoiStatus : Type 0 where
  unknown pending spendable blocked : PoiStatus

pub data MatchStatus : Type 0 where
  unmatched matched conflict : MatchStatus

-- `OPEN` is `opened`.
pub data IntentStatus : Type 0 where
  opened partial paid expired paid_late : IntentStatus

-- `left === right` on the status texts
abbrev pub intent_status_eq : IntentStatus → IntentStatus → Bool
intent_status_eq opened opened = true
intent_status_eq partial partial = true
intent_status_eq paid paid = true
intent_status_eq expired expired = true
intent_status_eq paid_late paid_late = true
intent_status_eq _ _ = false

abbrev pub is_finalized : ChainStatus → Bool
is_finalized finalized = true
is_finalized _ = false

abbrev pub is_reverted : ChainStatus → Bool
is_reverted reverted = true
is_reverted _ = false

abbrev pub is_spendable : PoiStatus → Bool
is_spendable spendable = true
is_spendable _ = false

abbrev pub is_unknown : PoiStatus → Bool
is_unknown unknown = true
is_unknown _ = false

abbrev pub is_matched : MatchStatus → Bool
is_matched matched = true
is_matched _ = false

-- `amountAtomic` is the text that was signed.
pub record PaymentDescriptorPayload : Type 0 where
  pub version : ℕ
  pub chain_id : ℕ
  pub rail : Text
  pub token_address : Text
  pub decimals : ℕ
  pub amount_atomic : Text
  pub recipient_0zk : Text
  pub reference : Text
  pub expires_at : ℕ
  pub nonce : Text
  pub merchant_signer : Text

pub record SignedPaymentDescriptor : Type 0 where
  pub payload : PaymentDescriptorPayload
  pub open payload use *
  pub signature : Text

abbrev pub rail_name : Text
rail_name = codes "railgun"

pub record PaymentIntentRecord : Type 0 where
  pub id : Text
  pub external_reference : Text
  pub reference : Text
  pub chain_id : ℕ
  pub token_address : Text
  pub token_symbol : Text
  pub decimals : ℕ
  pub expected_amount_atomic : ℕ
  pub recipient_0zk : Text
  pub expires_at : ℕ
  pub descriptor : SignedPaymentDescriptor
  pub created_at : ℕ

pub record IntentProjection : Type 0 where
  pub intent_id : Text
  pub status : IntentStatus
  pub received_amount_atomic : ℕ
  pub pending_amount_atomic : ℕ
  pub overpayment_amount_atomic : ℕ
  pub revision : ℕ
  pub updated_at : ℕ

pub record NormalizedSettlement : Type 0 where
  pub unique_settlement_id : Text
  pub chain_id : ℕ
  pub txid_version : Text
  pub tree : ℕ
  pub position : ℕ
  pub transaction_hash : Text
  pub railgun_txid : Option Text
  pub token_address : Text
  pub amount_atomic : ℕ
  pub block_number : ℕ
  pub block_timestamp : ℕ
  pub balance_bucket : Text
  pub raw_ppoi_statuses : List (Text × Text)
  pub chain_status : ChainStatus
  pub poi_status : PoiStatus
  pub reference : Option Text

pub record SettlementRecord : Type 0 where
  pub settlement : NormalizedSettlement
  pub open settlement use *
  pub match_status : MatchStatus
  pub intent_id : Option Text
  pub first_seen_at : ℕ
  pub last_seen_at : ℕ
  pub eligible_at : Option ℕ

pub data EventType : Type 0 where
  settlement_observed payment_partial payment_confirmed payment_expired payment_reverted : EventType

pub record PpOpsEvent : Type 0 where
  pub schema_version : ℕ
  pub event_id : Text
  pub type : EventType
  pub occurred_at : ℕ
  pub intent_id : Text
  pub settlement_id : Option Text
  pub intent_status : IntentStatus
  pub received_amount_atomic : ℕ
  pub expected_amount_atomic : ℕ
  pub overpayment_amount_atomic : ℕ

-- An intent with its projection.
pub record PaymentIntentView : Type 0 where
  pub intent : PaymentIntentRecord
  pub projection : IntentProjection
