-- ===== src/Payer/Journal/Schema.antt =====
-- The rules between the fields of a record, the schema of the journal and its file.
use ppops.Prelude.{
  ℕ, ◌*◌, Bool, true, not, ◌&&◌, ◌||◌, List, [], Option, none, some, leb, if◌then◌else◌, is_some,
  length, all, Text,
}
use ppops.Prelude.Results.{Result, ok, ◌>>=◌, ◌>>◌, guard}
use ppops.Payer.Journal.{
  SubmissionRecord, JournalError, journal_too_large, invalid_journal, is_broadcaster, is_submitting,
  is_submitted, is_mined, is_reverted, is_rejected, has_valid_fields,
}

abbrev has_no_broadcaster_state : SubmissionRecord → Bool
has_no_broadcaster_state r =
    not (is_some r.payer_railgun_address)
    && not (is_some r.broadcaster_railgun_address)
    && not (is_some r.broadcaster_quote_fingerprint)
    && not (is_some r.broadcaster_fees_id_fingerprint)
    && not (is_some r.broadcaster_fee_amount_atomic)
    && not (is_some r.nullifiers)
    && not (is_some r.broadcaster_retry_attempts)
    && not (is_some r.broadcaster_ambiguity_codes)
    && not (is_some r.reported_transaction_hash)
    && not (is_some r.rejection_code)

abbrev has_quote : SubmissionRecord → Bool
has_quote r =
    is_some r.payer_railgun_address
    && is_some r.broadcaster_railgun_address
    && is_some r.broadcaster_quote_fingerprint
    && is_some r.broadcaster_fees_id_fingerprint
    && is_some r.broadcaster_fee_amount_atomic
    && is_some r.nullifiers

-- What the mode asks for; a record without a mode is self-signed.
abbrev fits_mode : SubmissionRecord → Bool
fits_mode r =
    if is_broadcaster r.submission_mode
    then has_quote r && not (is_some r.self_signer) && not (is_some r.nonce)
    else is_some r.self_signer && is_some r.transaction_hash && has_no_broadcaster_state r

-- What the status asks for of the transaction hash and the block.
abbrev fits_status : SubmissionRecord → Bool
fits_status r =
    (if is_submitted r.status || is_mined r.status || is_reverted r.status
      then is_some r.transaction_hash
      else true)
    && not
        (is_broadcaster r.submission_mode && is_submitting r.status && is_some r.transaction_hash)
    && (if is_mined r.status || is_reverted r.status
        then is_some r.block_number
        else not (is_some r.block_number))

abbrev fits_rejection : SubmissionRecord → Bool
fits_rejection r =
    if is_rejected r.status
    then is_broadcaster r.submission_mode
      && is_some r.rejection_code
      && not (is_some r.transaction_hash)
      && not (is_some r.reported_transaction_hash)
      && not (is_some r.block_number)
    else not (is_some r.rejection_code)

-- `superRefine`; the rule on nullifiers stands with their field.
unfoldable pub is_consistent : SubmissionRecord → Bool
is_consistent r = fits_mode r && fits_status r && fits_rejection r

-- The file: nothing while there is none.
abbrev pub JournalFile : Type 0
JournalFile = Option (List SubmissionRecord)

-- A call's effect on the records: none where it returns without writing.
abbrev pub Change : Type 0
Change = List SubmissionRecord → Result JournalError (Option (List SubmissionRecord))

module _ (valid_address : Text → Bool) where
  -- `SubmissionRecordSchema`
  unfoldable pub satisfies_record : SubmissionRecord → Bool
  unfolding is_consistent
  satisfies_record r = has_valid_fields valid_address r && is_consistent r

  -- `SubmissionJournalSchema`
  unfoldable pub satisfies_journal : List SubmissionRecord → Bool
  satisfies_journal records = leb (length records) 10_000 && all satisfies_record records

  -- The file is replaced as a whole; a journal that does not satisfy the schema is not written.
  unfoldable pub write : List SubmissionRecord → Result JournalError JournalFile
  write records = do guard (satisfies_journal records) invalid_journal; ok (some records)

  abbrev pub write_changed :
      JournalFile → Option (List SubmissionRecord) → Result JournalError JournalFile
  write_changed file none = ok file
  write_changed file (some records) = write records

module _ (valid_address : Text → Bool) (text_size : List SubmissionRecord → ℕ) where
  unfoldable pub read : JournalFile → Result JournalError (List SubmissionRecord)
  read none = ok []
  read (some records) = do
    guard (leb (text_size records) (2 * 1_024 * 1_024)) journal_too_large
    guard (satisfies_journal valid_address records) invalid_journal
    ok records

  -- A call: it reads the file, and writes what it changed.
  unfoldable pub update_file : Change → JournalFile → Result JournalError JournalFile
  unfolding read write
  update_file change file = do
    records ← read file
    changed ← change records
    write_changed valid_address file changed
