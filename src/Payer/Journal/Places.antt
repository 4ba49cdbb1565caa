-- ===== src/Payer/Journal/Places.antt =====
-- The place of a record in the journal: `records[index] = r` at the first record of an intent.
use ppops.Prelude.{
  ◌≡◌, refl, sym, ◌∙◌, subst, Bool, true, false, List, [], ◌∷◌, none, some, arith, Bool-cases, inl,
  inr, length, all, Text, text_eq, text_eq_iff,
}
use ppops.Prelude.Tables.{find_by, Distinct}
use ppops.Payer.Journal.{SubmissionRecord}
use ppops.Payer.Journal.Calls.{record_key, set_first}

module _ (id : Text) (r : SubmissionRecord) where
  pub find_by-set_first_self :
      (records : List SubmissionRecord) (old : SubmissionRecord)
      → r.intent_id ≡ id
      → find_by record_key id records ≡ some old
      → find_by record_key id (set_first id r records) ≡ some r
  unfolding set_first
  find_by-set_first_self [] old same h = cc
  find_by-set_first_self (x ∷ records) old same h =
      ground (arith, text_eq_iff r.intent_id id, find_by-set_first_self records old same)

  pub find_by-set_first_other :
      (k : Text) (records : List SubmissionRecord)
      → r.intent_id ≡ id
      → text_eq id k ≡ false
      → find_by record_key k (set_first id r records) ≡ find_by record_key k records
  unfolding set_first
  find_by-set_first_other k [] same apart = refl
  find_by-set_first_other k (x ∷ records) same apart = ground (
    arith,
    text_eq_iff id k,
    text_eq_iff x.intent_id id,
    text_eq_iff x.intent_id k,
    text_eq_iff r.intent_id k,
    find_by-set_first_other k records same apart,
  )

  find_by-set_first-none :
      (k : Text) (records : List SubmissionRecord)
      → r.intent_id ≡ id
      → find_by record_key k records ≡ none
      → find_by record_key k (set_first id r records) ≡ none
  unfolding set_first
  find_by-set_first-none k [] same h = refl
  find_by-set_first-none k (x ∷ records) same h =
      ground (arith, text_eq_iff x.intent_id id, find_by-set_first-none k records same)

  pub Distinct-set_first :
      (records : List SubmissionRecord)
      → r.intent_id ≡ id
      → Distinct record_key records
      → Distinct record_key (set_first id r records)
  unfolding set_first
  Distinct-set_first [] same d = tt
  Distinct-set_first (x ∷ records) same d = elim (Bool-cases (text_eq x.intent_id id)) [
    | inl e ↦
        let moved : x.intent_id ≡ r.intent_id = (text_eq_iff x.intent_id id).0 e ∙ sym same in
        rw e (subst (λ k. find_by record_key k records ≡ none) moved d.0, d.1)
    | inr e ↦
        rw e
          (find_by-set_first-none x.intent_id records same d.0, Distinct-set_first records same d.1)
  ]

  pub length-set_first :
      (records : List SubmissionRecord) → length (set_first id r records) ≡ length records
  unfolding set_first
  length-set_first [] = refl
  length-set_first (x ∷ records) = ground (arith, length-set_first records)

  pub all-set_first :
      (test : SubmissionRecord → Bool) (records : List SubmissionRecord)
      → test r ≡ true
      → all test records ≡ true
      → all test (set_first id r records) ≡ true
  unfolding set_first
  all-set_first test [] new h = refl
  all-set_first test (x ∷ records) new h = ground (arith, all-set_first test records new)
