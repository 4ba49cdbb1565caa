-- ===== src/Payer/Journal/Readable.antt =====
-- Reading the file that calls leave.
use ppops.Prelude.{
  ℕ, ◌*◌, ◌≡◌, refl, subst, Bool, true, List, [], ◌∷◌, Option, none, some, leb, if◌then◌else◌,
  Bool-cases, inl, inr, Text,
}
use ppops.Prelude.Results.{Result-cases, ok, err, guarded, ok-inj, >>=-eq-ok}
use ppops.Payer.Journal.{SubmissionRecord, journal_too_large, invalid_journal}
use ppops.Payer.Journal.Methods.{Call, perform}
use ppops.Payer.Journal.Runs.{left_by, run, submit}
use ppops.Payer.Journal.Schema.{
  JournalFile, read, satisfies_journal, update_file, write, write_changed,
}

module _ (valid_address : Text → Bool) (text_size : List SubmissionRecord → ℕ)
    (hash : Text → Text) where
  abbrev IsValidFile : JournalFile → Type 0
  IsValidFile none = Unit
  IsValidFile (some records) = satisfies_journal valid_address records ≡ true

  write_changed-IsValidFile :
      (file after : JournalFile) (changed : Option (List SubmissionRecord))
      → write_changed valid_address file changed ≡ ok after
      → IsValidFile file
      → IsValidFile after
  unfolding write
  write_changed-IsValidFile file after none h v = subst IsValidFile (ok-inj refl h) v
  write_changed-IsValidFile file after (some records) h v =
      let (valid, h1) = guarded (satisfies_journal valid_address records) invalid_journal _ h in
      subst IsValidFile (ok-inj refl h1) valid

  submit-IsValidFile :
      (c : Call) (now : ℕ) (file : JournalFile)
      → IsValidFile file
      → IsValidFile (left_by (submit valid_address text_size hash c now file) file)
  unfolding submit update_file
  submit-IsValidFile c now file v =
      elim (Result-cases (submit valid_address text_size hash c now file)) [
        | inl (after, e) ↦
            let (records, got, h1) = >>=-eq-ok (read valid_address text_size file) _ e in
            let (changed, made, h2) = >>=-eq-ok (perform hash c now records) _ h1 in
            rw e (write_changed-IsValidFile file after changed h2 v)
        | inr (thrown, e) ↦ rw e v
      ]

  run-IsValidFile :
      (calls : List (Call × ℕ)) (file : JournalFile)
      → IsValidFile file
      → IsValidFile (run valid_address text_size hash calls file)
  unfolding run
  run-IsValidFile [] file v = v
  run-IsValidFile ((c, now) ∷ calls) file v =
      run-IsValidFile calls _ (submit-IsValidFile c now file v)

  -- The file that any calls leave is refused by the next one for nothing but its size: it is read
  -- back where its text has at most 2 MiB, and refused where it has more.
  pub read-run :
      (calls : List (Call × ℕ)) (records : List SubmissionRecord)
      → run valid_address text_size hash calls none ≡ some records
      → read valid_address text_size (run valid_address text_size hash calls none) ≡ (
          if leb (text_size records) (2 * 1_024 * 1_024) then ok records else err journal_too_large)
  unfolding read
  read-run calls records h =
      let valid : satisfies_journal valid_address records ≡ true =
        subst IsValidFile h (run-IsValidFile calls none tt) in
      rw (h, valid)
        (elim (Bool-cases (leb (text_size records) (2 * 1_024 * 1_024))) [
          | inl e ↦ rw e refl
          | inr e ↦ rw e refl
        ])
