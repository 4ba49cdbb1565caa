-- ===== src/Payer/Journal/Runs.antt =====
-- tools/ppops-payer/src/security/submission-journal.ts: the calls of the journal one after another,
-- each on the file that the last one left. A call that throws leaves the file as it is.
use ppops.Prelude.{
  ℕ, ◌*◌, ◌≡◌, refl, ap, sym, subst, Bool, false, List, [], ◌∷◌, Option, none, some, inl, inr, leb,
  Text, text_eq,
}
use ppops.Prelude.Results.{Result, Result-cases, ok, err, guarded, ok-inj, >>=-eq-ok}
use ppops.Payer.Journal.{SubmissionRecord, JournalError, journal_too_large, invalid_journal}
use ppops.Payer.Journal.Methods.{Call, get, perform}
use ppops.Payer.Journal.Outcomes.{Added-found, Added-others, Done, added, amended, perform-Done}
use ppops.Payer.Journal.Phases.{next_phase, phase_of, subject}
use ppops.Payer.Journal.Schema.{
  JournalFile, read, satisfies_journal, update_file, write, write_changed,
}
use ppops.Payer.Journal.Steps.{applied}

abbrev pub records_of : JournalFile → List SubmissionRecord
records_of none = []
records_of (some records) = records

abbrev pub left_by : Result JournalError JournalFile → JournalFile → JournalFile
left_by (ok after) file = after
left_by (err thrown) file = file

module _ (valid_address : Text → Bool) (text_size : List SubmissionRecord → ℕ)
    (hash : Text → Text) where
  -- A call at a time.
  unfoldable pub submit : Call → ℕ → JournalFile → Result JournalError JournalFile
  unfolding update_file perform
  submit c now file = update_file valid_address text_size (perform hash c now) file

  unfoldable pub run : List (Call × ℕ) → JournalFile → JournalFile
  unfolding submit
  run [] file = file
  run ((c, now) ∷ calls) file = run calls (left_by (submit c now file) file)

  read-records_of :
      (file : JournalFile) (records : List SubmissionRecord)
      → read valid_address text_size file ≡ ok records
      → records_of file ≡ records
  unfolding read
  read-records_of none records h = ok-inj refl h
  read-records_of (some stored) records h =
      let (small, h1) =
        guarded (leb (text_size stored) (2 * 1_024 * 1_024)) journal_too_large _ h in
      let (valid, h2) = guarded (satisfies_journal valid_address stored) invalid_journal _ h1 in
      ok-inj refl h2

  write_changed-applied :
      (file after : JournalFile) (changed : Option (List SubmissionRecord))
      → write_changed valid_address file changed ≡ ok after
      → applied changed (records_of file) ≡ records_of after
  unfolding write
  write_changed-applied file after none h = ap records_of (ok-inj refl h)
  write_changed-applied file after (some records) h =
      let (valid, h1) = guarded (satisfies_journal valid_address records) invalid_journal _ h in
      ap records_of (ok-inj refl h1)

  -- What a call that succeeds does to the records of the file.
  submit-Done :
      (c : Call) (now : ℕ) (file after : JournalFile)
      → submit c now file ≡ ok after
      → Done c (records_of file) (records_of after)
  unfolding submit update_file
  submit-Done c now file after h =
      let (records, got, h1) = >>=-eq-ok (read valid_address text_size file) _ h in
      let (changed, made, h2) = >>=-eq-ok (perform hash c now records) _ h1 in
      let same = read-records_of file records got in
      subst (Done c (records_of file)) (write_changed-applied file after changed h2) (
        perform-Done hash c now (records_of file) changed
          (subst (λ x. perform hash c now x ≡ ok changed) (sym same) made))

  -- A call that succeeds takes its intent to the phase that the journal promises and leaves the
  -- record of every other intent as it is.
  pub submit-next_phase :
      (c : Call) (now : ℕ) (file after : JournalFile) (k : Text)
      → submit c now file ≡ ok after
      → text_eq (subject c) k ≡ false
      → (next_phase c (phase_of (subject c) (records_of file))
          ≡ some (phase_of (subject c) (records_of after)))
        × (get k (records_of after) ≡ get k (records_of file))
  submit-next_phase c now file after k h apart = elim (submit-Done c now file after h) [
    | added a e ↦ (
      cc (
        ap (λ f. f (phase_of (subject c) (records_of file))) e,
        a.unused,
        a.begins,
        Added-found (subject c) (records_of file) (records_of after) a,
      ),
      Added-others (subject c) (records_of file) (records_of after) a k apart,
    )
    | amended move a e ↦ (
      cc (
        ap (λ f. f (phase_of (subject c) (records_of file))) e,
        a.found,
        a.placed,
        a.evolves.moves,
      ),
      a.others k apart,
    )
  ]

  left_by-preserves {κ} :
      (P : List SubmissionRecord → Type κ)
      → ((c : Call) (records after : List SubmissionRecord)
          → Done c records after
          → P records
          → P after)
      → (c : Call) (now : ℕ) (file : JournalFile) → P (records_of file)
      → P (records_of (left_by (submit c now file) file))
  left_by-preserves P step c now file p = elim (Result-cases (submit c now file)) [
    | inl (after, e) ↦
        rw e (step c (records_of file) (records_of after) (submit-Done c now file after e) p)
    | inr (thrown, e) ↦ rw e p
  ]

  -- What every call that succeeds preserves, every run preserves.
  pub run-preserves {κ} :
      (P : List SubmissionRecord → Type κ)
      → ((c : Call) (records after : List SubmissionRecord)
          → Done c records after
          → P records
          → P after)
      → (calls : List (Call × ℕ)) (file : JournalFile) → P (records_of file)
      → P (records_of (run calls file))
  unfolding run
  run-preserves P step [] file p = p
  run-preserves P step ((c, now) ∷ calls) file p =
      run-preserves P step calls (left_by (submit c now file) file)
        (left_by-preserves P step c now file p)
