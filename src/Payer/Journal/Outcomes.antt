-- ===== src/Payer/Journal/Outcomes.antt =====
-- The two outcomes of a call of the journal that succeeds: a record is added, or one is amended.
use ppops.Prelude.{
  ℕ, ◌≡◌, refl, ap, sym, subst, true, false, not, ◌&&◌, List, [], ◌∷◌, ◌++◌, Option, none, some,
  arith, Text, text_eq,
}
use ppops.Prelude.Results.{ok, guarded, ok-inj}
use ppops.Prelude.Tables.{find_by-append_other, find_by-append_self}
use ppops.Payer.Journal.{submitting, SubmissionRecord, already_recorded}
use ppops.Payer.Request.{PaymentRequest}
use ppops.Payer.Journal.Calls.{has_active_broadcaster_nullifier_conflict, is_active, record_key}
use ppops.Payer.Journal.Changes.{Move, rejects, settles, stays, submits}
use ppops.Payer.Journal.Methods.{
  BroadcasterInput, Call, reserve, reserve_broadcaster, reserve_broadcaster_retry, rejected_by,
  retry_rejected, ambiguous, reported, mined_in, submitted_as, get, has_record, perform,
  reserve_with, reserve_broadcaster_with, self_signed_record, broadcaster_record, append_retry,
}
use ppops.Payer.Journal.Nullifiers.{available-apart, meets}
use ppops.Payer.Journal.Obeys
use ppops.Payer.Journal.Phases.{subject, next_phase, opens, advances}
use ppops.Payer.Journal.Steps.{Amended, amend-Amended, applied}

-- The record of an intent is added behind the others; it shares no nullifier with an active one.
pub record Added (id : Text) (records after : List SubmissionRecord) : Type 0 where
  pub new : SubmissionRecord
  pub named : new.intent_id ≡ id
  pub begins : new.status ≡ submitting
  pub unused : get id records ≡ none
  pub appended : records ++ new ∷ [] ≡ after
  pub apart :
      (k : Text) (r : SubmissionRecord)
      → text_eq id k ≡ false
      → get k records ≡ some r
      → is_active new ≡ true
      → is_active r ≡ true
      → meets new.nullifiers r.nullifiers ≡ false

pub Added-found :
    (id : Text) (records after : List SubmissionRecord) (a : Added id records after)
    → get id after ≡ some a.new
Added-found id records after a =
    subst (λ l. get id l ≡ some a.new) a.appended
      (subst (λ k. get k records ≡ none → get k (records ++ a.new ∷ []) ≡ some a.new) a.named
        (find_by-append_self record_key records a.new) a.unused)

pub Added-others :
    (id : Text) (records after : List SubmissionRecord)
    → Added id records after
    → (k : Text) → text_eq id k ≡ false
    → get k after ≡ get k records
Added-others id records after a k apart =
    subst (λ l. get k l ≡ get k records) a.appended
      (find_by-append_other record_key k records a.new
        (subst (λ i. text_eq i k ≡ false) (sym a.named) apart))

pub data Done (c : Call) (records after : List SubmissionRecord) : Type 0 where
  added : Added (subject c) records after → next_phase c ≡ opens → Done c records after
  amended :
      (move : Move)
      → Amended move (subject c) records after
      → next_phase c ≡ advances move
      → Done c records after

has_record-none :
    (id : Text) (records : List SubmissionRecord)
    → has_record id records ≡ false
    → get id records ≡ none
has_record-none id [] h = refl
has_record-none id (r ∷ records) h = ground (arith, has_record-none id records)

module _ (hash : Text → Text) where
  reserve-Added :
      (q : PaymentRequest) (signer transaction_hash : Text) (nonce now : ℕ)
      (records : List SubmissionRecord) (changed : Option (List SubmissionRecord))
      → reserve_with q.id (self_signed_record hash q signer transaction_hash nonce now) records
        ≡ ok changed
      → Added q.id records (applied changed records)
  unfolding reserve_with
  reserve-Added q signer transaction_hash nonce now records changed h =
      let new = self_signed_record hash q signer transaction_hash nonce now in
      let (fresh, written) = guarded (not (has_record q.id records)) already_recorded _ h in
      record {
        new = new;
        named = refl;
        begins = refl;
        unused = has_record-none q.id records (ground arith);
        appended = ap (λ w. applied w records) (ok-inj refl written);
        apart = λ k r other found active also. cc;
      }

  reserve_broadcaster-Added :
      (q : PaymentRequest) (input : BroadcasterInput) (now : ℕ) (records : List SubmissionRecord)
      (changed : Option (List SubmissionRecord))
      → reserve_broadcaster_with hash q input now records ≡ ok changed
      → Added q.id records (applied changed records)
  unfolding reserve_broadcaster_with
  reserve_broadcaster-Added q input now records changed h =
      let new = broadcaster_record hash q input now in
      let (fresh, written) =
        guarded
          (not (has_record q.id records)
            && not (has_active_broadcaster_nullifier_conflict records q.id input.nullifiers))
          already_recorded _ h in
      record {
        new = new;
        named = refl;
        begins = refl;
        unused = has_record-none q.id records (ground arith);
        appended = ap (λ w. applied w records) (ok-inj refl written);
        apart = λ k r other found active also.
            available-apart records q.id input.nullifiers k r (ground arith) other found also;
      }

  pub perform-Done :
      (c : Call) (now : ℕ) (records : List SubmissionRecord)
      (changed : Option (List SubmissionRecord))
      → perform hash c now records ≡ ok changed
      → Done c records (applied changed records)
  unfolding perform
  perform-Done (reserve q signer transaction_hash nonce) now records changed h =
      added (reserve-Added q signer transaction_hash nonce now records changed h) refl
  perform-Done (reserve_broadcaster q input) now records changed h =
      added (reserve_broadcaster-Added q input now records changed h) refl
  perform-Done (reserve_broadcaster_retry q input) now records changed h =
      amended stays
        (amend-Amended stays q.id (append_retry hash q input now)
          (Obeys.append_retry-Obeys hash q input now) records changed h)
        refl
  perform-Done (rejected_by id code) now records changed h =
      amended rejects
        (amend-Amended rejects id _ (Obeys.mark_rejected-Obeys code now) records changed h) refl
  perform-Done (retry_rejected id quote code) now records changed h =
      amended stays
        (amend-Amended stays id _ (Obeys.mark_broadcaster_retry_rejected-Obeys quote code now)
          records changed h)
        refl
  perform-Done (ambiguous id code quote) now records changed h =
      amended stays
        (amend-Amended stays id _ (Obeys.mark_broadcaster_ambiguous-Obeys code quote now) records
          changed h)
        refl
  perform-Done (reported id reported_hash) now records changed h =
      amended stays
        (amend-Amended stays id _ (Obeys.mark_broadcaster_reported-Obeys reported_hash now) records
          changed h)
        refl
  perform-Done (mined_in id block succeeded) now records changed h =
      amended (settles succeeded)
        (amend-Amended (settles succeeded) id _ (Obeys.mark_mined-Obeys block succeeded now) records
          changed h)
        refl
  perform-Done (submitted_as id transaction_hash) now records changed h =
      amended submits
        (amend-Amended submits id _ (Obeys.mark_submitted-Obeys transaction_hash now) records
          changed h)
        refl
