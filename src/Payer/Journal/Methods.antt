-- ===== src/Payer/Journal/Methods.antt =====
-- tools/ppops-payer/src/security/submission-journal.ts: the methods of `SubmissionJournal`. `hash` is
-- the SHA-256 of a text, in hexadecimal digits.
use ppops.Prelude.{
  ℕ, Bool, false, not, ◌&&◌, List, [], ◌∷◌, ◌++◌, Option, none, some, ltb, is_some, length, any,
  Text, codes, text_eq, to_lower_case,
}
use ppops.Prelude.Results.{Result, ok, err, ◌>>◌, guard}
use ppops.Prelude.Tables.{find_by}
use ppops.Domain.Amount.{to_text}
use ppops.Payer.Failures.{BroadcasterRejectionCode, BroadcasterAmbiguityCode}
use ppops.Payer.Request.{PaymentRequest}
use ppops.Payer.Journal.{
  self_signed, broadcaster, submitting, RetryAttempt, attempt_reserved, SubmissionRecord,
  JournalError, already_recorded,
}
use ppops.Payer.Journal.Calls.{
  amend, attempts_of, has_active_broadcaster_nullifier_conflict, is_unresolved,
  normalized_nullifiers, record_key, same_nullifier_set,
}
use ppops.Payer.Journal.Marks.{
  mark_rejected, mark_broadcaster_retry_rejected, mark_broadcaster_ambiguous,
  mark_broadcaster_reported, mark_mined, mark_submitted,
}
use ppops.Payer.Journal.Schema.{Change}

-- What a broadcaster is asked to submit.
pub record BroadcasterInput : Type 0 where
  pub payer_railgun_address : Text
  pub broadcaster_railgun_address : Text
  pub broadcaster_quote_fingerprint : Text
  pub broadcaster_fees_id : Text
  pub broadcaster_fee_amount_atomic : ℕ
  pub nullifiers : List Text

-- A call that changes the journal, with its arguments.
pub data Call : Type 0 where
  reserve : PaymentRequest → Text → Text → ℕ → Call
  reserve_broadcaster reserve_broadcaster_retry : PaymentRequest → BroadcasterInput → Call
  rejected_by : Text → BroadcasterRejectionCode → Call
  retry_rejected : Text → Text → BroadcasterRejectionCode → Call
  ambiguous : Text → BroadcasterAmbiguityCode → Option Text → Call
  reported : Text → Text → Call
  mined_in : Text → ℕ → Bool → Call
  submitted_as : Text → Text → Call

abbrev pub has_record : Text → List SubmissionRecord → Bool
has_record id records = any (λ r. text_eq r.intent_id id) records

-- The calls that reserve a request append its record.
unfoldable pub reserve_with : Text → SubmissionRecord → Change
reserve_with id r records = do
  guard (not (has_record id records)) already_recorded
  ok (some (records ++ (r ∷ [])))

abbrev same_payer : Option Text → Text → Bool
same_payer none address = false
same_payer (some payer) address = text_eq (to_lower_case payer) (to_lower_case address)

abbrev pub same_nullifiers : Option (List Text) → List Text → Bool
same_nullifiers none nullifiers = false
same_nullifiers (some stored) nullifiers = same_nullifier_set stored nullifiers

abbrev pub get : Text → List SubmissionRecord → Option SubmissionRecord
get id records = find_by record_key id records

unfoldable pub assert_unused : Text → List SubmissionRecord → Result JournalError (Unit {0})
assert_unused id records = guard (not (is_some (get id records))) already_recorded

unfoldable pub assert_broadcaster_nullifiers_available :
    Text → List Text → List SubmissionRecord → Result JournalError (Unit {0})
unfolding has_active_broadcaster_nullifier_conflict
assert_broadcaster_nullifiers_available intent_id nullifiers records =
    guard (not (has_active_broadcaster_nullifier_conflict records intent_id nullifiers))
      already_recorded

module _ (hash : Text → Text) where
  unfoldable pub request_fingerprint : PaymentRequest → Text
  request_fingerprint q =
      hash (codes "ppops-payer-request:v1:" ++ q.id ++ codes ":" ++ q.descriptor.signature)

  unfoldable pub fingerprint_fees_id : Text → Text
  fingerprint_fees_id fees_id = hash (codes "ppops-broadcaster-fees-id:v1:" ++ fees_id)

  abbrev pub self_signed_record : PaymentRequest → Text → Text → ℕ → ℕ → SubmissionRecord
  self_signed_record q signer transaction_hash nonce now = record {
    intent_id = q.id;
    request_fingerprint = request_fingerprint q;
    submission_mode = some self_signed;
    self_signer = some signer;
    payer_railgun_address = none;
    broadcaster_railgun_address = none;
    broadcaster_quote_fingerprint = none;
    broadcaster_fees_id_fingerprint = none;
    broadcaster_fee_amount_atomic = none;
    nullifiers = none;
    broadcaster_retry_attempts = none;
    broadcaster_ambiguity_codes = none;
    reported_transaction_hash = none;
    rejection_code = none;
    status = submitting;
    created_at = now;
    updated_at = now;
    nonce = some nonce;
    transaction_hash = some transaction_hash;
    block_number = none;
  }

  abbrev pub broadcaster_record : PaymentRequest → BroadcasterInput → ℕ → SubmissionRecord
  broadcaster_record q input now = record {
    intent_id = q.id;
    request_fingerprint = request_fingerprint q;
    submission_mode = some broadcaster;
    self_signer = none;
    payer_railgun_address = some input.payer_railgun_address;
    broadcaster_railgun_address = some input.broadcaster_railgun_address;
    broadcaster_quote_fingerprint = some input.broadcaster_quote_fingerprint;
    broadcaster_fees_id_fingerprint = some (fingerprint_fees_id input.broadcaster_fees_id);
    broadcaster_fee_amount_atomic = some (to_text input.broadcaster_fee_amount_atomic);
    nullifiers = some (normalized_nullifiers input.nullifiers);
    broadcaster_retry_attempts = none;
    broadcaster_ambiguity_codes = none;
    reported_transaction_hash = none;
    rejection_code = none;
    status = submitting;
    created_at = now;
    updated_at = now;
    nonce = none;
    transaction_hash = none;
    block_number = none;
  }

  abbrev pub retry_attempt : BroadcasterInput → ℕ → RetryAttempt
  retry_attempt input now = record {
    broadcaster_railgun_address = input.broadcaster_railgun_address;
    broadcaster_quote_fingerprint = input.broadcaster_quote_fingerprint;
    broadcaster_fees_id_fingerprint = fingerprint_fees_id input.broadcaster_fees_id;
    broadcaster_fee_amount_atomic = to_text input.broadcaster_fee_amount_atomic;
    outcome = attempt_reserved;
    rejection_code = none;
    ambiguity_code = none;
    created_at = now;
    updated_at = now;
  }

  unfoldable pub reserve_broadcaster_with : PaymentRequest → BroadcasterInput → ℕ → Change
  unfolding has_active_broadcaster_nullifier_conflict normalized_nullifiers request_fingerprint
      fingerprint_fees_id to_text reserve_with
  reserve_broadcaster_with q input now records = do
    guard
        (not (has_record q.id records)
          && not (has_active_broadcaster_nullifier_conflict records q.id input.nullifiers))
        already_recorded
    ok (some (records ++ (broadcaster_record q input now ∷ [])))

  -- The test of `assertBroadcasterRetryable`; `reserveBroadcasterRetry` makes it too.
  unfoldable pub is_retryable : PaymentRequest → Text → SubmissionRecord → Bool
  unfolding request_fingerprint
  is_retryable q payer_railgun_address r =
      is_unresolved r
      && text_eq r.request_fingerprint (request_fingerprint q)
      && same_payer r.payer_railgun_address payer_railgun_address

  unfoldable pub append_retry :
      PaymentRequest
      → BroadcasterInput
      → ℕ
      → SubmissionRecord
      → Result JournalError (Option SubmissionRecord)
  unfolding is_retryable fingerprint_fees_id to_text same_nullifier_set
  append_retry q input now current = do
    guard
        (is_retryable q input.payer_railgun_address current
          && same_nullifiers current.nullifiers input.nullifiers)
        already_recorded
    guard (ltb (length (attempts_of current)) 3) already_recorded
    ok (
        some (record current {
          broadcaster_retry_attempts = some (attempts_of current ++ (retry_attempt input now ∷ []));
          updated_at = now;
        }))

  -- The record of a call's intent is changed, at the time `now`.
  unfoldable pub perform : Call → ℕ → Change
  unfolding reserve_with reserve_broadcaster_with amend append_retry mark_rejected
      mark_broadcaster_retry_rejected mark_broadcaster_ambiguous mark_broadcaster_reported
      mark_mined mark_submitted request_fingerprint
  perform (reserve q signer transaction_hash nonce) now =
      reserve_with q.id (self_signed_record q signer transaction_hash nonce now)
  perform (reserve_broadcaster q input) now = reserve_broadcaster_with q input now
  perform (reserve_broadcaster_retry q input) now = amend q.id (append_retry q input now)
  perform (rejected_by id code) now = amend id (mark_rejected code now)
  perform (retry_rejected id quote code) now =
      amend id (mark_broadcaster_retry_rejected quote code now)
  perform (ambiguous id code quote) now = amend id (mark_broadcaster_ambiguous code quote now)
  perform (reported id reported_hash) now = amend id (mark_broadcaster_reported reported_hash now)
  perform (mined_in id block succeeded) now = amend id (mark_mined block succeeded now)
  perform (submitted_as id transaction_hash) now = amend id (mark_submitted transaction_hash now)

  abbrev retryable_record :
      PaymentRequest → Text → Option SubmissionRecord → Result JournalError SubmissionRecord
  retryable_record q payer_railgun_address none = err already_recorded
  retryable_record q payer_railgun_address (some current) = do
    guard (is_retryable q payer_railgun_address current) already_recorded
    guard (ltb (length (attempts_of current)) 3) already_recorded
    ok current

  unfoldable pub assert_broadcaster_retryable :
      PaymentRequest → Text → List SubmissionRecord → Result JournalError SubmissionRecord
  unfolding is_retryable
  assert_broadcaster_retryable q payer_railgun_address records =
      retryable_record q payer_railgun_address (get q.id records)
