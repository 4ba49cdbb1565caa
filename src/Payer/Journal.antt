-- ===== src/Payer/Journal.antt =====
-- tools/ppops-payer/src/security/submission-journal.ts: the journal of submissions, its schema and
-- its file. `valid_address` is the RAILGUN library's check of an address; `text_size` is the number
-- of bytes of the journal's JSON text.
pub mod Schema
pub mod Calls
pub mod Marks
pub mod Methods
pub mod Places
pub mod Changes
pub mod Obeys
pub mod Phases
pub mod Nullifiers
pub mod Steps
pub mod Outcomes
pub mod Runs
pub mod Exclusive
pub mod Keeps
pub mod Readable
pub mod Settling
use ppops.Prelude.{
  ℕ, ◌*◌, Bool, true, false, not, ◌&&◌, ◌||◌, List, [], ◌∷◌, ◌++◌, Option, none, some, ltb, leb,
  ◌==◌, if◌then◌else◌, is_some, length, all, any, map, filter, Text, codes, text_eq, to_lower_case,
  replicate,
}
use ppops.Prelude.Results.{Result, ok, err, ◌>>=◌, ◌>>◌, guard}
use ppops.Prelude.Sorting.{sort}
use ppops.Descriptor.{max_safe_integer, is_positive_decimal}
use ppops.Domain.Memo.{is_hex}
use ppops.Intents.{is_space}
use ppops.Webhook.{strip_text, is_lower_hex, lower_hex_behind}
use ppops.Payer.Failures.{BroadcasterRejectionCode, BroadcasterAmbiguityCode}

pub data SubmissionMode : Type 0 where
  self_signed broadcaster : SubmissionMode

pub data SubmissionStatus : Type 0 where
  submitting submitted mined reverted rejected : SubmissionStatus

pub data AttemptOutcome : Type 0 where
  attempt_reserved attempt_rejected attempt_ambiguous attempt_reported : AttemptOutcome

pub record RetryAttempt : Type 0 where
  pub broadcaster_railgun_address : Text
  pub broadcaster_quote_fingerprint : Text
  pub broadcaster_fees_id_fingerprint : Text
  pub broadcaster_fee_amount_atomic : Text
  pub outcome : AttemptOutcome
  pub rejection_code : Option BroadcasterRejectionCode
  pub ambiguity_code : Option BroadcasterAmbiguityCode
  pub created_at : ℕ
  pub updated_at : ℕ

pub record SubmissionRecord : Type 0 where
  pub intent_id : Text
  pub request_fingerprint : Text
  pub submission_mode : Option SubmissionMode
  pub self_signer : Option Text
  pub payer_railgun_address : Option Text
  pub broadcaster_railgun_address : Option Text
  pub broadcaster_quote_fingerprint : Option Text
  pub broadcaster_fees_id_fingerprint : Option Text
  pub broadcaster_fee_amount_atomic : Option Text
  pub nullifiers : Option (List Text)
  pub broadcaster_retry_attempts : Option (List RetryAttempt)
  pub broadcaster_ambiguity_codes : Option (List BroadcasterAmbiguityCode)
  pub reported_transaction_hash : Option Text
  pub rejection_code : Option BroadcasterRejectionCode
  pub status : SubmissionStatus
  pub created_at : ℕ
  pub updated_at : ℕ
  pub nonce : Option ℕ
  pub transaction_hash : Option Text
  pub block_number : Option ℕ

pub data JournalError : Type 0 where
  journal_too_large invalid_journal invalid_hash already_recorded not_allowed : JournalError

abbrev pub is_rejected_attempt : AttemptOutcome → Bool
is_rejected_attempt attempt_rejected = true
is_rejected_attempt _ = false

abbrev pub is_ambiguous_attempt : AttemptOutcome → Bool
is_ambiguous_attempt attempt_ambiguous = true
is_ambiguous_attempt _ = false

abbrev pub is_reserved_attempt : AttemptOutcome → Bool
is_reserved_attempt attempt_reserved = true
is_reserved_attempt _ = false

abbrev pub is_submitting : SubmissionStatus → Bool
is_submitting submitting = true
is_submitting _ = false

abbrev pub is_submitted : SubmissionStatus → Bool
is_submitted submitted = true
is_submitted _ = false

abbrev pub is_mined : SubmissionStatus → Bool
is_mined mined = true
is_mined _ = false

abbrev pub is_reverted : SubmissionStatus → Bool
is_reverted reverted = true
is_reverted _ = false

abbrev pub is_rejected : SubmissionStatus → Bool
is_rejected rejected = true
is_rejected _ = false

-- record.submissionMode === "BROADCASTER"
abbrev pub is_broadcaster : Option SubmissionMode → Bool
is_broadcaster (some broadcaster) = true
is_broadcaster _ = false

-- Each present value passes the test.
abbrev pub if_present {ℓ} : {A : Type ℓ} → (A → Bool) → Option A → Bool
if_present test none = true
if_present test (some a) = test a

abbrev has_hex_behind : Text → ℕ → Text → Bool
has_hex_behind prefix size s = elim (strip_text prefix s) [
  | none ↦ false
  | some rest ↦ length rest == size && all is_hex rest
]

-- /^0x[0-9a-fA-F]{64}$/
unfoldable pub is_transaction_hash : Text → Bool
unfolding strip_text
is_transaction_hash s = has_hex_behind (codes "0x") 64 s

-- /^[0-9a-f]{64}$/
abbrev pub is_fingerprint : Text → Bool
is_fingerprint s = length s == 64 && all is_lower_hex s

-- /^0zk\S{32,256}$/
unfoldable pub is_zk_text : Text → Bool
unfolding strip_text
is_zk_text s = elim (strip_text (codes "0zk") s) [
  | none ↦ false
  | some rest ↦ leb 32 (length rest) && leb (length rest) 256 && all (λ c. not (is_space c)) rest
]

abbrev pub is_safe : ℕ → Bool
is_safe n = leb n max_safe_integer

-- new Set(values).size === values.length
unfoldable pub all_distinct : List Text → Bool
all_distinct [] = true
all_distinct (v ∷ values) = not (any (text_eq v) values) && all_distinct values

abbrev zero_nullifier : Text
zero_nullifier = codes "0x" ++ replicate 64 b'0'

-- Unique and nonzero, in lower case.
unfoldable pub are_nullifiers : List Text → Bool
unfolding all_distinct is_transaction_hash
are_nullifiers values =
    leb 1 (length values)
    && leb (length values) 64
    && all is_transaction_hash values
    && not (any (text_eq zero_nullifier) (map to_lower_case values))
    && all_distinct (map to_lower_case values)

module _ (valid_address : Text → Bool) where
  abbrev pub is_railgun_address : Text → Bool
  is_railgun_address s = is_zk_text s && valid_address s

  -- `BroadcasterRetryAttemptSchema`
  unfoldable pub satisfies_attempt : RetryAttempt → Bool
  satisfies_attempt a =
      is_railgun_address a.broadcaster_railgun_address
      && is_fingerprint a.broadcaster_quote_fingerprint
      && is_fingerprint a.broadcaster_fees_id_fingerprint
      && is_positive_decimal a.broadcaster_fee_amount_atomic
      && is_safe a.created_at
      && is_safe a.updated_at
      && (if is_rejected_attempt a.outcome
          then is_some a.rejection_code
          else not (is_some a.rejection_code))
      && (if is_ambiguous_attempt a.outcome
          then is_some a.ambiguity_code
          else not (is_some a.ambiguity_code))

  -- The fields of `SubmissionRecordSchema`, one by one.
  unfoldable pub has_valid_fields : SubmissionRecord → Bool
  unfolding are_nullifiers is_transaction_hash satisfies_attempt
  has_valid_fields r =
      lower_hex_behind (codes "pi_") 32 r.intent_id
      && is_fingerprint r.request_fingerprint
      && if_present (has_hex_behind (codes "0x") 40) r.self_signer
      && if_present is_railgun_address r.payer_railgun_address
      && if_present is_railgun_address r.broadcaster_railgun_address
      && if_present is_fingerprint r.broadcaster_quote_fingerprint
      && if_present is_fingerprint r.broadcaster_fees_id_fingerprint
      && if_present is_positive_decimal r.broadcaster_fee_amount_atomic
      && if_present are_nullifiers r.nullifiers
      && if_present (λ l. leb (length l) 3 && all satisfies_attempt l) r.broadcaster_retry_attempts
      && if_present (λ l. leb 1 (length l) && leb (length l) 4) r.broadcaster_ambiguity_codes
      && if_present is_transaction_hash r.reported_transaction_hash
      && is_safe r.created_at
      && is_safe r.updated_at
      && if_present is_safe r.nonce
      && if_present is_transaction_hash r.transaction_hash
      && if_present is_safe r.block_number
