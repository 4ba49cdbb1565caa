-- ===== src/Payer/Journal/Keeps.antt =====
-- What the records of the journal keep over calls.
use ppops.Prelude.{
  ℕ, ◌≡◌, refl, sym, ◌∙◌, subst, Bool, true, List, [], ◌∷◌, Option, none, some, Bool-cases, inl,
  inr, Text, text_eq, text_eq_iff,
}
use ppops.Prelude.Tables.{find_by-append_some}
use ppops.Payer.Journal.{SubmissionRecord}
use ppops.Payer.Journal.Calls.{record_key}
use ppops.Payer.Journal.Changes.{KeepsHash, KeepsHash-refl, Move, is_final}
use ppops.Payer.Journal.Methods.{Call, get}
use ppops.Payer.Journal.Outcomes.{Done, added, amended}
use ppops.Payer.Journal.Phases.{subject}
use ppops.Payer.Journal.Runs.{records_of, run, run-preserves}
use ppops.Payer.Journal.Schema.{JournalFile}
use ppops.Payer.Journal.Steps.{Amended, Evolves}

-- The mode, the nullifiers and each hash that is set stay, a final record as a whole.
pub record Kept (r new : SubmissionRecord) : Type 0 where
  pub same_mode : new.submission_mode ≡ r.submission_mode
  pub same_nullifiers : new.nullifiers ≡ r.nullifiers
  pub final_stays : is_final r.status ≡ true → new ≡ r
  pub keeps_reported : KeepsHash r.reported_transaction_hash new.reported_transaction_hash
  pub keeps_transaction : KeepsHash r.transaction_hash new.transaction_hash

Kept-refl : (r : SubmissionRecord) → Kept r r
Kept-refl r = record {
  same_mode = refl;
  same_nullifiers = refl;
  final_stays = λ f. refl;
  keeps_reported = KeepsHash-refl r.reported_transaction_hash;
  keeps_transaction = KeepsHash-refl r.transaction_hash;
}

Evolves-Kept : (move : Move) (r new : SubmissionRecord) → Evolves move r new → Kept r new
Evolves-Kept move r new e = record {
  same_mode = e.same_mode;
  same_nullifiers = e.same_nullifiers;
  final_stays = e.final_stays;
  keeps_reported = e.keeps_reported;
  keeps_transaction = e.keeps_transaction;
}

KeepsHash-trans : (a b c : Option Text) → KeepsHash a b → KeepsHash b c → KeepsHash a c
KeepsHash-trans none b c h k = tt
KeepsHash-trans (some a) none c h k = absurd h
KeepsHash-trans (some a) (some b) none h k = absurd k
KeepsHash-trans (some a) (some b) (some c) h k = k ∙ h

Kept-trans : (r s t : SubmissionRecord) → Kept r s → Kept s t → Kept r t
Kept-trans r s t h k = record {
  same_mode = k.same_mode ∙ h.same_mode;
  same_nullifiers = k.same_nullifiers ∙ h.same_nullifiers;
  final_stays = λ f.
      k.final_stays (subst (λ x. is_final x.status ≡ true) (sym (h.final_stays f)) f)
      ∙ h.final_stays f;
  keeps_reported =
      KeepsHash-trans _ s.reported_transaction_hash _ h.keeps_reported k.keeps_reported;
  keeps_transaction =
      KeepsHash-trans _ s.transaction_hash _ h.keeps_transaction k.keeps_transaction;
}

-- The records have one of an intent that keeps what `r` had.
abbrev pub StillHas : Text → SubmissionRecord → List SubmissionRecord → Type 0
StillHas k r records = (new : SubmissionRecord) × (get k records ≡ some new) × Kept r new

Amended-StillHas :
    (move : Move) (id : Text) (records after : List SubmissionRecord) (k : Text)
    (r : SubmissionRecord)
    → Amended move id records after
    → StillHas k r records
    → StillHas k r after
Amended-StillHas move id records after k r a (old, found, kept) = elim (Bool-cases (text_eq id k)) [
  | inl e ↦
      let same : id ≡ k = (text_eq_iff id k).0 e in
      let here : a.old ≡ old = cc (found, subst (λ i. get i records ≡ some a.old) same a.found) in
      (
        a.new,
        subst (λ i. get i after ≡ some a.new) same a.placed,
        Kept-trans r old a.new kept
            (subst (λ x. Kept x a.new) here (Evolves-Kept move a.old a.new a.evolves)),
      )
  | inr e ↦ (old, a.others k e ∙ found, kept)
]

Done-StillHas :
    (k : Text) (r : SubmissionRecord) (c : Call) (records after : List SubmissionRecord)
    → Done c records after
    → StillHas k r records
    → StillHas k r after
Done-StillHas k r c records after (added a opened) (old, found, kept) = (
  old,
  subst (λ l. get k l ≡ some old) a.appended
      (find_by-append_some record_key k records (a.new ∷ []) old found),
  kept,
)
Done-StillHas k r c records after (amended move a moved) has =
    Amended-StillHas move (subject c) records after k r a has

-- Whatever calls follow, the record of an intent is still there, with its mode and its nullifiers; a
-- hash that was set is the same in lower case, and a mined, reverted or rejected record is the same
-- as a whole.
pub run-StillHas :
    (valid_address : Text → Bool) (text_size : List SubmissionRecord → ℕ) (hash : Text → Text)
    (calls : List (Call × ℕ)) (file : JournalFile) (k : Text) (r : SubmissionRecord)
    → get k (records_of file) ≡ some r
    → StillHas k r (records_of (run valid_address text_size hash calls file))
run-StillHas valid_address text_size hash calls file k r found =
    run-preserves valid_address text_size hash (StillHas k r) (Done-StillHas k r) calls file
      (r, found, Kept-refl r)
