-- ===== src/Payer/Journal/Steps.antt =====
-- What a call of the journal does to its records.
use ppops.Prelude.{
  ◌≡◌, refl, ◌∙◌, subst, true, false, List, Option, none, some, Option-cases, inl, inr, Text,
  text_eq,
}
use ppops.Prelude.Results.{Result, ok, ok-inj, >>=-eq-ok}
use ppops.Prelude.Tables.{Distinct, find_by, find_by-key}
use ppops.Payer.Journal.{SubmissionRecord, JournalError}
use ppops.Payer.Journal.Calls.{amend, put_back, record_key}
use ppops.Payer.Journal.Changes.{Changed, Follows, KeepsHash, KeepsHash-refl, Move, Obeys, is_final}
use ppops.Payer.Journal.Methods.{get}
use ppops.Payer.Journal.Places.{Distinct-set_first, find_by-set_first_other, find_by-set_first_self}

-- The records after a call, which writes none or all.
abbrev pub applied : Option (List SubmissionRecord) → List SubmissionRecord → List SubmissionRecord
applied none records = records
applied (some changed) records = changed

-- What a call makes of a record, which it may leave as it is.
pub record Evolves (move : Move) (r new : SubmissionRecord) : Type 0 where
  pub same_id : new.intent_id ≡ r.intent_id
  pub same_mode : new.submission_mode ≡ r.submission_mode
  pub same_nullifiers : new.nullifiers ≡ r.nullifiers
  pub final_stays : is_final r.status ≡ true → new ≡ r
  pub moves : move r.status ≡ some new.status
  pub keeps_reported : KeepsHash r.reported_transaction_hash new.reported_transaction_hash
  pub keeps_transaction : KeepsHash r.transaction_hash new.transaction_hash

Changed-Evolves : (move : Move) (r new : SubmissionRecord) → Changed move r new → Evolves move r new
Changed-Evolves move r new c = record {
  same_id = c.same_id;
  same_mode = c.same_mode;
  same_nullifiers = c.same_nullifiers;
  final_stays = λ f. cc (f, c.was_open);
  moves = c.moves;
  keeps_reported = c.keeps_reported;
  keeps_transaction = c.keeps_transaction;
}

Evolves-refl :
    (move : Move) (r : SubmissionRecord) → move r.status ≡ some r.status → Evolves move r r
Evolves-refl move r m = record {
  same_id = refl;
  same_mode = refl;
  same_nullifiers = refl;
  final_stays = λ f. refl;
  moves = m;
  keeps_reported = KeepsHash-refl r.reported_transaction_hash;
  keeps_transaction = KeepsHash-refl r.transaction_hash;
}

-- Only the record of the intent evolves.
pub record Amended (move : Move) (id : Text) (records after : List SubmissionRecord) : Type 0 where
  pub old : SubmissionRecord
  pub new : SubmissionRecord
  pub found : get id records ≡ some old
  pub placed : get id after ≡ some new
  pub evolves : Evolves move old new
  pub others : (k : Text) → text_eq id k ≡ false → get k after ≡ get k records
  pub distinct : Distinct record_key records → Distinct record_key after

written-Amended :
    (move : Move) (id : Text) (records : List SubmissionRecord) (r : SubmissionRecord)
    (o : Option SubmissionRecord)
    → get id records ≡ some r
    → Follows move r o
    → Amended move id records (applied (put_back id records o) records)
written-Amended move id records r none e m = record {
  old = r;
  new = r;
  found = e;
  placed = e;
  evolves = Evolves-refl move r m;
  others = λ k apart. refl;
  distinct = λ d. d;
}
written-Amended move id records r (some new) e c =
    let key = find_by-key record_key id records r e in
    let same : new.intent_id ≡ id = c.same_id ∙ key in
    record {
      old = r;
      new = new;
      found = e;
      placed = find_by-set_first_self id new records r same e;
      evolves = Changed-Evolves move r new c;
      others = λ k apart. find_by-set_first_other id new k records same apart;
      distinct = λ d. Distinct-set_first id new records same d;
    }

pub amend-Amended :
    (move : Move) (id : Text) (f : SubmissionRecord → Result JournalError (Option SubmissionRecord))
    → Obeys move f
    → (records : List SubmissionRecord) (changed : Option (List SubmissionRecord))
    → amend id f records ≡ ok changed
    → Amended move id records (applied changed records)
unfolding amend
amend-Amended move id f obeys records changed h =
    elim (Option-cases (find_by record_key id records)) [
      | inl e ↦ cc (rw e at h)
      | inr (r, e) ↦
          let (o, fo, written) = >>=-eq-ok (f r) _ (rw e at h) in
          subst (λ w. Amended move id records (applied w records)) (ok-inj refl written)
            (written-Amended move id records r o e (obeys r o fo))
    ]
