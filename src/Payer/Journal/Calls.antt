-- ===== src/Payer/Journal/Calls.antt =====
-- tools/ppops-payer/src/security/submission-journal.ts: what the calls of the journal share. The
-- records of the journal are found by their intent; `findIndex` takes the first, as `find` does.
use ppops.Prelude.{
  Bool, true, false, not, ◌&&◌, ◌||◌, List, [], ◌∷◌, Option, none, some, ltb, ◌==◌, if◌then◌else◌,
  is_some, any, map, Text, text_eq, to_lower_case,
}
use ppops.Prelude.Results.{Result, ok, err, ◌>>=◌}
use ppops.Prelude.Sorting.{sort}
use ppops.Prelude.Tables.{find_by}
use ppops.Payer.Journal.{
  RetryAttempt, SubmissionRecord, JournalError, not_allowed, is_submitting, is_reverted,
  is_rejected, is_broadcaster,
}
use ppops.Payer.Journal.Schema.{Change}

-- `left < right` on texts, by code units
unfoldable pub text_ltb : Text → Text → Bool
text_ltb [] [] = false
text_ltb [] (d ∷ t) = true
text_ltb (c ∷ s) [] = false
text_ltb (c ∷ s) (d ∷ t) = ltb c d || c == d && text_ltb s t

unfoldable pub normalized_nullifiers : List Text → List Text
unfolding text_ltb
normalized_nullifiers nullifiers = sort text_ltb (map to_lower_case nullifiers)

-- `values.includes(value)`
abbrev pub includes : List Text → Text → Bool
includes values value = any (text_eq value) values

abbrev pub record_key : SubmissionRecord → Text
record_key r = r.intent_id

abbrev pub shares_one : List Text → Option (List Text) → Bool
shares_one normalized none = false
shares_one normalized (some nullifiers) =
    any (λ v. includes normalized (to_lower_case v)) nullifiers

-- A broadcaster's record whose nullifiers may still be spent.
abbrev pub is_active : SubmissionRecord → Bool
is_active r =
    is_broadcaster r.submission_mode && not (is_rejected r.status) && not (is_reverted r.status)

unfoldable pub has_active_broadcaster_nullifier_conflict :
    List SubmissionRecord → Text → List Text → Bool
unfolding normalized_nullifiers
has_active_broadcaster_nullifier_conflict records intent_id nullifiers =
    any
      (λ r.
        not (text_eq r.intent_id intent_id)
        && is_active r
        && shares_one (normalized_nullifiers nullifiers) r.nullifiers)
      records

abbrev same_texts : List Text → List Text → Bool
same_texts [] [] = true
same_texts [] (t ∷ right) = false
same_texts (s ∷ left) [] = false
same_texts (s ∷ left) (t ∷ right) = text_eq s t && same_texts left right

unfoldable pub same_nullifier_set : List Text → List Text → Bool
same_nullifier_set left right =
    same_texts (normalized_nullifiers left) (normalized_nullifiers right)

-- `journal.records[index] = r` at the first record of an intent
unfoldable pub set_first : Text → SubmissionRecord → List SubmissionRecord → List SubmissionRecord
set_first id r [] = []
set_first id r (x ∷ records) =
    if text_eq x.intent_id id then r ∷ records else x ∷ set_first id r records

abbrev pub put_back :
    Text → List SubmissionRecord → Option SubmissionRecord → Option (List SubmissionRecord)
put_back id records none = none
put_back id records (some r) = some (set_first id r records)

abbrev amend_found :
    Option SubmissionRecord
    → Text
    → List SubmissionRecord
    → (SubmissionRecord → Result JournalError (Option SubmissionRecord))
    → Result JournalError (Option (List SubmissionRecord))
amend_found none id records f = err not_allowed
amend_found (some current) id records f = do r ← f current; ok (put_back id records r)

-- The calls that change the record of an intent; without one they throw.
unfoldable pub amend :
    Text → (SubmissionRecord → Result JournalError (Option SubmissionRecord)) → Change
unfolding set_first
amend id f records = amend_found (find_by record_key id records) id records f

-- `attempts[attempts.findLastIndex(test)] = f(attempt)`, none where no attempt passes
unfoldable pub update_last :
    (RetryAttempt → Bool)
    → (RetryAttempt → RetryAttempt)
    → List RetryAttempt
    → Option (List RetryAttempt)
update_last test f [] = none
update_last test f (a ∷ attempts) = elim (update_last test f attempts) [
  | some later ↦ some (a ∷ later)
  | none ↦ if test a then some (f a ∷ attempts) else none
]

abbrev pub attempts_of : SubmissionRecord → List RetryAttempt
attempts_of r = elim r.broadcaster_retry_attempts [ none ↦ [] | some attempts ↦ attempts ]

abbrev pub is_unresolved : SubmissionRecord → Bool
is_unresolved r =
    is_broadcaster r.submission_mode
    && is_submitting r.status
    && not (is_some r.transaction_hash)
    && not (is_some r.reported_transaction_hash)
