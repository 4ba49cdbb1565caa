-- ===== src/Payer/Journal/Settling.antt =====
-- From a reserved submission to its receipt.
use ppops.Prelude.{
  ℕ, ◌*◌, ◌≡◌, refl, Bool, true, false, List, [], ◌∷◌, Option, some, arith, leb, all, Text,
}
use ppops.Prelude.Results.{Result, ok}
use ppops.Prelude.Tables.{find_by, find_by-key}
use ppops.Payer.Journal.{
  submitting, submitted, SubmissionRecord, JournalError, has_valid_fields, is_safe,
  is_transaction_hash,
}
use ppops.Payer.Journal.Calls.{amend, record_key, set_first}
use ppops.Payer.Journal.Marks.{differs_from, mark_mined, mark_submitted, target_status}
use ppops.Payer.Journal.Methods.{get, mined_in, perform, submitted_as}
use ppops.Payer.Journal.Phases.{phase_of, phase_of-found}
use ppops.Payer.Journal.Places.{all-set_first, find_by-set_first_self, length-set_first}
use ppops.Payer.Journal.Runs.{records_of, run, submit}
use ppops.Payer.Journal.Schema.{
  is_consistent, read, satisfies_journal, satisfies_record, update_file, write,
}

abbrev submitted_record : Text → ℕ → SubmissionRecord → SubmissionRecord
submitted_record hash now r = record r {
  status = submitted;
  transaction_hash = some hash;
  updated_at = now;
}

abbrev settled_record : ℕ → Bool → ℕ → SubmissionRecord → SubmissionRecord
settled_record block succeeded now r = record r {
  status = target_status succeeded;
  block_number = some block;
  updated_at = now;
}

module _ (valid_address : Text → Bool) where
  valid-submitted :
      (hash : Text) (now : ℕ) (r : SubmissionRecord)
      → has_valid_fields valid_address r ≡ true
      → is_transaction_hash hash ≡ true
      → is_safe now ≡ true
      → has_valid_fields valid_address (submitted_record hash now r) ≡ true
  unfolding has_valid_fields
  valid-submitted hash now r h v s = ground arith

  consistent-submitted :
      (hash : Text) (now : ℕ) (r : SubmissionRecord)
      → is_consistent r ≡ true
      → r.status ≡ submitting
      → is_consistent (submitted_record hash now r) ≡ true
  unfolding is_consistent
  consistent-submitted hash now r h s = (let g = rw s at h in ground arith)

  consistent-settled :
      (block : ℕ) (succeeded : Bool) (now : ℕ) (r : SubmissionRecord)
      → is_consistent r ≡ true
      → r.status ≡ submitted
      → is_consistent (settled_record block succeeded now r) ≡ true
  unfolding is_consistent
  consistent-settled block true now r h s = (let g = rw s at h in ground arith)
  consistent-settled block false now r h s = (let g = rw s at h in ground arith)

  valid-settled :
      (block : ℕ) (succeeded : Bool) (now : ℕ) (r : SubmissionRecord)
      → has_valid_fields valid_address r ≡ true
      → is_safe block ≡ true
      → is_safe now ≡ true
      → has_valid_fields valid_address (settled_record block succeeded now r) ≡ true
  unfolding has_valid_fields
  valid-settled block succeeded now r h b s = ground arith

mark_submitted-written :
    (hash : Text) (now : ℕ) (r : SubmissionRecord)
    → r.status ≡ submitting
    → differs_from r.transaction_hash hash ≡ false
    → mark_submitted hash now r ≡ ok (some (submitted_record hash now r))
unfolding mark_submitted
mark_submitted-written hash now r s d = rw (s, d) refl

mark_mined-written :
    (block : ℕ) (succeeded : Bool) (now : ℕ) (hash : Text) (r : SubmissionRecord)
    → r.status ≡ submitted
    → r.transaction_hash ≡ some hash
    → mark_mined block succeeded now r ≡ ok (some (settled_record block succeeded now r))
unfolding mark_mined
mark_mined-written block true now hash r s t = rw (s, t) refl
mark_mined-written block false now hash r s t = rw (s, t) refl

found-all :
    (test : SubmissionRecord → Bool) (k : Text) (records : List SubmissionRecord)
    (r : SubmissionRecord)
    → all test records ≡ true
    → find_by record_key k records ≡ some r
    → test r ≡ true
found-all test k [] r h found = cc
found-all test k (x ∷ records) r h found = ground (arith, found-all test k records r)

-- The records fit in the file.
abbrev pub fits : (List SubmissionRecord → ℕ) → List SubmissionRecord → Bool
fits text_size records = leb (text_size records) (2 * 1_024 * 1_024)

module _ (valid_address : Text → Bool) (text_size : List SubmissionRecord → ℕ) where
  satisfies_journal-set_first :
      (id : Text) (new : SubmissionRecord) (records : List SubmissionRecord)
      → satisfies_journal valid_address records ≡ true
      → satisfies_record valid_address new ≡ true
      → satisfies_journal valid_address (set_first id new records) ≡ true
  unfolding satisfies_journal
  satisfies_journal-set_first id new records h n = ground (
    arith,
    length-set_first id new records,
    all-set_first id new (satisfies_record valid_address) records n,
  )

  update_file-amended :
      (id : Text) (f : SubmissionRecord → Result JournalError (Option SubmissionRecord))
      (records : List SubmissionRecord) (r new : SubmissionRecord)
      → fits text_size records ≡ true
      → satisfies_journal valid_address records ≡ true
      → get id records ≡ some r
      → f r ≡ ok (some new)
      → satisfies_record valid_address new ≡ true
      → update_file valid_address text_size (amend id f) (some records)
        ≡ ok (some (set_first id new records))
  unfolding update_file read write amend
  update_file-amended id f records r new small valid found made n =
      rw (small, valid, found, made, satisfies_journal-set_first id new records valid n) refl

submitted-satisfies :
    (valid_address : Text → Bool) (hash : Text) (now : ℕ) (r : SubmissionRecord)
    → satisfies_record valid_address r ≡ true
    → r.status ≡ submitting
    → is_transaction_hash hash ≡ true
    → is_safe now ≡ true
    → satisfies_record valid_address (submitted_record hash now r) ≡ true
unfolding satisfies_record
submitted-satisfies valid_address hash now r h s v n =
    ground (
      arith,
      valid-submitted valid_address hash now r,
      consistent-submitted valid_address hash now r,
    )

settled-satisfies :
    (valid_address : Text → Bool) (block : ℕ) (succeeded : Bool) (now : ℕ) (r : SubmissionRecord)
    → satisfies_record valid_address r ≡ true
    → r.status ≡ submitted
    → is_safe block ≡ true
    → is_safe now ≡ true
    → satisfies_record valid_address (settled_record block succeeded now r) ≡ true
unfolding satisfies_record
settled-satisfies valid_address block succeeded now r h s b n = ground (
  arith,
  valid-settled valid_address block succeeded now r,
  consistent-settled valid_address block succeeded now r,
)

-- A submission that is being made can always be brought to its receipt: in a journal that satisfies
-- its schema and fits in its file, before and after the first of the two calls, the call that
-- notes the hash of the transaction, the one that was reserved if any, and the call that notes the
-- receipt both succeed, and the record is mined or reverted as the receipt says.
pub run-settled :
    (valid_address : Text → Bool) (text_size : List SubmissionRecord → ℕ) (hash : Text → Text)
    (records : List SubmissionRecord) (id transaction_hash : Text) (r : SubmissionRecord)
    (now block later : ℕ) (succeeded : Bool)
    → satisfies_journal valid_address records ≡ true
    → fits text_size records ≡ true
    → get id records ≡ some r
    → r.status ≡ submitting
    → is_transaction_hash transaction_hash ≡ true
    → differs_from r.transaction_hash transaction_hash ≡ false
    → is_safe now ≡ true
    → is_safe block ≡ true
    → is_safe later ≡ true
    → fits text_size (set_first id (submitted_record transaction_hash now r) records) ≡ true
    → phase_of id (
        records_of (
          run valid_address text_size hash
            ((submitted_as id transaction_hash, now) ∷ (mined_in id block succeeded, later) ∷ [])
            (some records)))
      ≡ some (target_status succeeded)
unfolding run submit perform satisfies_journal
run-settled valid_address text_size hash records id h r now block later succeeded valid small found
      begins is_hash same n b l still =
    let one = submitted_record h now r in
    let two = settled_record block succeeded later one in
    let was = found-all (satisfies_record valid_address) id records r (ground arith) found in
    let is = submitted-satisfies valid_address h now r was begins is_hash n in
    let named = find_by-key record_key id records r found in
    let first =
      update_file-amended valid_address text_size id (mark_submitted h now) records r one small
        valid found (mark_submitted-written h now r begins same) is in
    let placed = find_by-set_first_self id one records r named found in
    let rest = satisfies_journal-set_first valid_address text_size id one records valid is in
    let second =
      update_file-amended valid_address text_size id (mark_mined block succeeded later)
        (set_first id one records) one two still rest placed
        (mark_mined-written block succeeded later h one refl refl)
        (settled-satisfies valid_address block succeeded later one is refl b l) in
    rw (first, second)
      (phase_of-found id (set_first id two (set_first id one records)) two
        (find_by-set_first_self id two (set_first id one records) one named placed))
