-- ===== src/Payer/Journal/Marks.antt =====
-- tools/ppops-payer/src/security/submission-journal.ts: the calls that change the record of an intent,
-- each as a function of that record: none where it returns without writing. A hash that is stored is
-- not the empty text, by the schema.
use ppops.Prelude.{
  ℕ, Bool, false, not, ◌&&◌, List, [], ◌∷◌, ◌++◌, Option, none, some, ◌==◌, if◌then◌else◌, is_some,
  length, any, Text, text_eq, to_lower_case,
}
use ppops.Prelude.Results.{Result, ok, err, ◌>>=◌, ◌>>◌, guard}
use ppops.Payer.Failures.{
  BroadcasterRejectionCode, BroadcasterAmbiguityCode, transaction_send_timeout,
  transaction_send_rpc_error, repeat_transaction, note_already_spent, transaction_underpriced,
  nonce_already_used, unknown_error, missing_response, bad_response, waku_request_timeout,
  invalid_transaction_hash, unclassified_failure,
}
use ppops.Payer.Journal.{
  SubmissionStatus, submitting, submitted, mined, reverted, rejected, attempt_rejected,
  attempt_ambiguous, attempt_reported, RetryAttempt, SubmissionRecord, JournalError, not_allowed,
  invalid_hash, is_reserved_attempt, is_submitting, is_submitted, is_mined, is_reverted,
  is_rejected, is_broadcaster, is_transaction_hash,
}
use ppops.Payer.Journal.Calls.{attempts_of, is_unresolved, update_last}

abbrev pub reserved_for : Text → RetryAttempt → Bool
reserved_for quote a =
    text_eq a.broadcaster_quote_fingerprint quote && is_reserved_attempt a.outcome

unfoldable pub mark_rejected :
    BroadcasterRejectionCode → ℕ → SubmissionRecord → Result JournalError (Option SubmissionRecord)
mark_rejected code now current =
    if is_unresolved current && length (attempts_of current) == 0
    then ok
        (some (record current { status = rejected; rejection_code = some code; updated_at = now }))
    else err not_allowed

abbrev reject_attempt : BroadcasterRejectionCode → ℕ → RetryAttempt → RetryAttempt
reject_attempt code now a = record a {
  outcome = attempt_rejected;
  rejection_code = some code;
  updated_at = now;
}

abbrev pub with_attempts :
    ℕ
    → SubmissionRecord
    → Option (List RetryAttempt)
    → Result JournalError (Option SubmissionRecord)
with_attempts now current none = err not_allowed
with_attempts now current (some attempts) =
    ok (some (record current { broadcaster_retry_attempts = some attempts; updated_at = now }))

unfoldable pub mark_broadcaster_retry_rejected :
    Text
    → BroadcasterRejectionCode
    → ℕ
    → SubmissionRecord
    → Result JournalError (Option SubmissionRecord)
unfolding update_last
mark_broadcaster_retry_rejected quote code now current =
    if is_unresolved current
    then with_attempts now current
        (update_last (reserved_for quote) (reject_attempt code now) (attempts_of current))
    else err not_allowed

abbrev ambiguous_attempt : BroadcasterAmbiguityCode → ℕ → RetryAttempt → RetryAttempt
ambiguous_attempt code now a = record a {
  outcome = attempt_ambiguous;
  ambiguity_code = some code;
  updated_at = now;
}

-- The place of a code in the list of codes, by which two codes are compared.
abbrev pub ambiguity_index : BroadcasterAmbiguityCode → ℕ
ambiguity_index transaction_send_timeout = 0
ambiguity_index transaction_send_rpc_error = 1
ambiguity_index repeat_transaction = 2
ambiguity_index note_already_spent = 3
ambiguity_index transaction_underpriced = 4
ambiguity_index nonce_already_used = 5
ambiguity_index unknown_error = 6
ambiguity_index missing_response = 7
ambiguity_index bad_response = 8
ambiguity_index waku_request_timeout = 9
ambiguity_index invalid_transaction_hash = 10
ambiguity_index unclassified_failure = 11

abbrev same_ambiguity : BroadcasterAmbiguityCode → BroadcasterAmbiguityCode → Bool
same_ambiguity a b = ambiguity_index a == ambiguity_index b

abbrev codes_of : SubmissionRecord → List BroadcasterAmbiguityCode
codes_of r = elim r.broadcaster_ambiguity_codes [ none ↦ [] | some l ↦ l ]

abbrev with_code :
    BroadcasterAmbiguityCode → List BroadcasterAmbiguityCode → List BroadcasterAmbiguityCode
with_code code l = if any (same_ambiguity code) l then l else l ++ (code ∷ [])

-- The attempts after an ambiguous response: those of a retry that it names, or none at all.
unfoldable pub attempts_after_ambiguity :
    BroadcasterAmbiguityCode
    → Option Text
    → ℕ
    → Option (List RetryAttempt)
    → Result JournalError (Option (List RetryAttempt))
unfolding update_last
attempts_after_ambiguity code (some (c ∷ quote)) now none = err not_allowed
attempts_after_ambiguity code (some (c ∷ quote)) now (some attempts) =
    elim (update_last (reserved_for (c ∷ quote)) (ambiguous_attempt code now) attempts) [
      | none ↦ err not_allowed
      | some updated ↦ ok (some updated)
    ]
attempts_after_ambiguity code _ now (some (a ∷ attempts)) = err not_allowed
attempts_after_ambiguity code _ now attempts = ok attempts

unfoldable pub mark_broadcaster_ambiguous :
    BroadcasterAmbiguityCode
    → Option Text
    → ℕ
    → SubmissionRecord
    → Result JournalError (Option SubmissionRecord)
unfolding attempts_after_ambiguity
mark_broadcaster_ambiguous code retry_quote now current = do
  guard (is_unresolved current) not_allowed
  attempts ← attempts_after_ambiguity code retry_quote now current.broadcaster_retry_attempts
  ok (
      some (record current {
        broadcaster_retry_attempts = attempts;
        broadcaster_ambiguity_codes = some (with_code code (codes_of current));
        updated_at = now;
      }))

abbrev report_attempt : ℕ → RetryAttempt → RetryAttempt
report_attempt now a = record a { outcome = attempt_reported; updated_at = now }

-- The last reserved attempt, if there is one, is the one that the hash answers.
unfoldable pub attempts_after_report : ℕ → Option (List RetryAttempt) → Option (List RetryAttempt)
unfolding update_last
attempts_after_report now none = none
attempts_after_report now (some attempts) =
    elim (update_last (λ a. is_reserved_attempt a.outcome) (report_attempt now) attempts) [
      | none ↦ some attempts
      | some updated ↦ some updated
    ]

-- A hash that stands in the record is another one only if it differs in lower case.
unfoldable pub differs_from : Option Text → Text → Bool
differs_from none hash = false
differs_from (some stored) hash = not (text_eq (to_lower_case stored) (to_lower_case hash))

unfoldable pub mark_broadcaster_reported :
    Text → ℕ → SubmissionRecord → Result JournalError (Option SubmissionRecord)
unfolding attempts_after_report differs_from is_transaction_hash
mark_broadcaster_reported hash now current = do
  guard (is_broadcaster current.submission_mode) not_allowed
  guard (is_submitting current.status) not_allowed
  guard (is_transaction_hash hash) invalid_hash
  guard (not (differs_from current.reported_transaction_hash hash)) not_allowed
  if is_some current.reported_transaction_hash
      then ok none
      else ok (
          some (record current {
            broadcaster_retry_attempts =
                attempts_after_report now current.broadcaster_retry_attempts;
            reported_transaction_hash = some (to_lower_case hash);
            updated_at = now;
          }))

abbrev pub target_status : Bool → SubmissionStatus
target_status succeeded = if succeeded then mined else reverted

abbrev pub has_status : SubmissionStatus → SubmissionStatus → Bool
has_status submitting s = is_submitting s
has_status submitted s = is_submitted s
has_status mined s = is_mined s
has_status reverted s = is_reverted s
has_status rejected s = is_rejected s

abbrev pub has_block : ℕ → Option ℕ → Bool
has_block b none = false
has_block b (some c) = b == c

unfoldable pub mark_mined :
    ℕ → Bool → ℕ → SubmissionRecord → Result JournalError (Option SubmissionRecord)
mark_mined block succeeded now current = do
  guard (is_some current.transaction_hash) not_allowed
  if has_status (target_status succeeded) current.status && has_block block current.block_number
      then ok none
      else if is_submitted current.status
      then ok (
          some (record current {
            status = target_status succeeded;
            block_number = some block;
            updated_at = now;
          }))
      else err not_allowed

unfoldable pub mark_submitted :
    Text → ℕ → SubmissionRecord → Result JournalError (Option SubmissionRecord)
unfolding differs_from
mark_submitted hash now current = do
  guard (not (differs_from current.transaction_hash hash)) not_allowed
  if is_submitted current.status
      then ok none
      else if is_submitting current.status
      then ok (
          some
            (record current { status = submitted; transaction_hash = some hash; updated_at = now }))
      else err not_allowed
