-- ===== src/Payer/Journal/Exclusive.antt =====
-- The intents and the nullifiers of the records, over runs of calls.
use ppops.Prelude.{
  ℕ, ◌≡◌, refl, ap, sym, ◌∙◌, subst, Bool, true, false, List, none, some, arith, Bool-cases, inl,
  inr, Text, text_eq, text_eq_iff,
}
use ppops.Prelude.Tables.{Distinct, Distinct-append}
use ppops.Payer.Journal.{
  SubmissionRecord, SubmissionStatus, submitting, submitted, mined, reverted, rejected, is_rejected,
  is_reverted,
}
use ppops.Payer.Journal.Calls.{is_active, record_key}
use ppops.Payer.Journal.Changes.{Move, is_final}
use ppops.Payer.Journal.Methods.{Call, get}
use ppops.Payer.Journal.Nullifiers.{meets, meets_sym}
use ppops.Payer.Journal.Outcomes.{Added, Added-found, Added-others, Done, added, amended}
use ppops.Payer.Journal.Phases.{subject}
use ppops.Payer.Journal.Runs.{records_of, run, run-preserves}
use ppops.Payer.Journal.Steps.{Amended, Evolves}

-- Two records of different intents that are active share no nullifier.
abbrev pub IsExclusive : List SubmissionRecord → Type 0
IsExclusive records =
    (i j : Text) (r s : SubmissionRecord)
    → text_eq i j ≡ false
    → get i records ≡ some r
    → get j records ≡ some s
    → is_active r ≡ true
    → is_active s ≡ true
    → meets r.nullifiers s.nullifiers ≡ false

-- Each record comes from one with its nullifiers that was active if it is.
abbrev Descends : List SubmissionRecord → List SubmissionRecord → Type 0
Descends records after =
    (k : Text) (new : SubmissionRecord)
    → get k after ≡ some new
    → (old : SubmissionRecord) × (get k records ≡ some old)
      × (new.nullifiers ≡ old.nullifiers)
      × (is_active new ≡ true → is_active old ≡ true)

Descends-IsExclusive :
    (records after : List SubmissionRecord)
    → Descends records after
    → IsExclusive records
    → IsExclusive after
Descends-IsExclusive records after d e i j r s apart found also active too =
    let (r0, f0, n0, a0) = d i r found in
    let (s0, f1, n1, a1) = d j s also in rw (n0, n1) (e i j r0 s0 apart f0 f1 (a0 active) (a1 too))

open-unspent :
    (s : SubmissionStatus) → is_final s ≡ false → (is_rejected s ≡ false) × (is_reverted s ≡ false)
open-unspent submitting h = (refl, refl)
open-unspent submitted h = (refl, refl)
open-unspent mined h = cc
open-unspent reverted h = cc
open-unspent rejected h = cc

Evolves-active :
    (move : Move) (old new : SubmissionRecord)
    → Evolves move old new
    → is_active new ≡ true
    → is_active old ≡ true
Evolves-active move old new e active = elim (Bool-cases (is_final old.status)) [
  | inl f ↦ subst (λ r. is_active r ≡ true) (e.final_stays f) active
  | inr f ↦ ground (arith, open-unspent old.status f, e.same_mode)
]

Amended-Descends :
    (move : Move) (id : Text) (records after : List SubmissionRecord)
    → Amended move id records after
    → Descends records after
Amended-Descends move id records after a k new found = elim (Bool-cases (text_eq id k)) [
  | inl e ↦
      let same : id ≡ k = (text_eq_iff id k).0 e in
      let here : new ≡ a.new = cc (found, subst (λ i. get i after ≡ some a.new) same a.placed) in
      (
        a.old,
        subst (λ i. get i records ≡ some a.old) same a.found,
        ap (λ r. r.nullifiers) here ∙ a.evolves.same_nullifiers,
        λ active.
            Evolves-active move a.old a.new a.evolves (subst (λ r. is_active r ≡ true) here active),
      )
  | inr e ↦ (new, sym (a.others k e) ∙ found, refl, λ active. active)
]

Added-newest :
    (id : Text) (records after : List SubmissionRecord) (a : Added id records after) (k : Text)
    (r : SubmissionRecord)
    → text_eq id k ≡ true
    → get k after ≡ some r
    → r ≡ a.new
Added-newest id records after a k r same found =
    let here : id ≡ k = (text_eq_iff id k).0 same in
    cc (found, subst (λ i. get i after ≡ some a.new) here (Added-found id records after a))

-- The new record is apart from each other active one.
Added-apart :
    (id : Text) (records after : List SubmissionRecord) (a : Added id records after) (j k : Text)
    (r s : SubmissionRecord)
    → text_eq id j ≡ true
    → text_eq j k ≡ false
    → get j after ≡ some r
    → get k after ≡ some s
    → is_active r ≡ true
    → is_active s ≡ true
    → meets r.nullifiers s.nullifiers ≡ false
Added-apart id records after a j k r s same apart found also active too =
    let here = Added-newest id records after a j r same found in
    let other : text_eq id k ≡ false = ground (arith, text_eq_iff id j) in
    let before = sym (Added-others id records after a k other) ∙ also in
    subst (λ x. meets x.nullifiers s.nullifiers ≡ false) (sym here)
      (a.apart k s other before (subst (λ x. is_active x ≡ true) here active) too)

Added-IsExclusive :
    (id : Text) (records after : List SubmissionRecord)
    → Added id records after
    → IsExclusive records
    → IsExclusive after
Added-IsExclusive id records after a e i j r s apart found also active too =
    elim (Bool-cases (text_eq id i)) [
      | inl ei ↦ Added-apart id records after a i j r s ei apart found also active too
      | inr ei ↦ elim (Bool-cases (text_eq id j)) [
        | inl ej ↦
            let flip : text_eq j i ≡ false = ground (arith, text_eq_iff i j, text_eq_iff j i) in
            meets_sym r.nullifiers s.nullifiers
            ∙ Added-apart id records after a j i s r ej flip also found too active
        | inr ej ↦
            e i j r s apart (sym (Added-others id records after a i ei) ∙ found)
              (sym (Added-others id records after a j ej) ∙ also) active too
      ]
    ]

Done-IsExclusive :
    (c : Call) (records after : List SubmissionRecord)
    → Done c records after
    → IsExclusive records
    → IsExclusive after
Done-IsExclusive c records after (added a opened) e =
    Added-IsExclusive (subject c) records after a e
Done-IsExclusive c records after (amended move a moved) e =
    Descends-IsExclusive records after (Amended-Descends move (subject c) records after a) e

Done-Distinct :
    (c : Call) (records after : List SubmissionRecord)
    → Done c records after
    → Distinct record_key records
    → Distinct record_key after
Done-Distinct c records after (added a opened) d = subst (Distinct record_key) a.appended (
    Distinct-append record_key records a.new d
      (subst (λ k. get k records ≡ none) (sym a.named) a.unused))
Done-Distinct c records after (amended move a moved) d = a.distinct d

module _ (valid_address : Text → Bool) (text_size : List SubmissionRecord → ℕ)
    (hash : Text → Text) where
  -- Whatever calls are made of a journal that begins without a file, each intent has at most one
  -- record.
  pub run-Distinct :
      (calls : List (Call × ℕ))
      → Distinct record_key (records_of (run valid_address text_size hash calls none))
  run-Distinct calls =
      run-preserves valid_address text_size hash (Distinct record_key) Done-Distinct calls none tt

  -- Whatever calls are made of a journal that begins without a file, the records of two intents
  -- that may still spend their nullifiers share none of them, in lower case.
  pub run-exclusive :
      (calls : List (Call × ℕ)) (i j : Text) (r s : SubmissionRecord)
      → text_eq i j ≡ false
      → get i (records_of (run valid_address text_size hash calls none)) ≡ some r
      → get j (records_of (run valid_address text_size hash calls none)) ≡ some s
      → is_active r ≡ true
      → is_active s ≡ true
      → meets r.nullifiers s.nullifiers ≡ false
  run-exclusive calls =
      run-preserves valid_address text_size hash IsExclusive Done-IsExclusive calls none
        (λ i j r s apart found also active too. cc)
