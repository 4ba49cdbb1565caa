-- ===== src/Payer/Journal/Obeys.antt =====
-- The calls on the record of an intent, as changes of it.
use ppops.Prelude.{
  ℕ, ◌≡◌, refl, ap, sym, ◌∙◌, subst, Bool, true, false, not, ◌&&◌, List, Option, none, some, arith,
  if◌then◌else◌, Bool-cases, Option-cases, inl, inr, ltb, ◌==◌, length, is_some, Text,
  to_lower_case,
}
use ppops.Prelude.Results.{Result, ok, guarded, ok-inj, >>=-eq-ok}
use ppops.Payer.Failures.{BroadcasterRejectionCode, BroadcasterAmbiguityCode}
use ppops.Payer.Journal.{
  SubmissionStatus, submitting, submitted, mined, reverted, rejected, RetryAttempt,
  SubmissionRecord, JournalError, already_recorded, not_allowed, invalid_hash, is_submitting,
  is_submitted, is_broadcaster, is_transaction_hash,
}
use ppops.Payer.Journal.Calls.{attempts_of, is_unresolved}
use ppops.Payer.Journal.Marks.{
  differs_from, has_block, has_status, mark_rejected, mark_broadcaster_retry_rejected,
  mark_broadcaster_ambiguous, attempts_after_ambiguity, mark_broadcaster_reported, mark_mined,
  mark_submitted, target_status, with_attempts,
}
use ppops.Payer.Journal.Changes.{
  Changed, Follows, KeepsHash, KeepsHash-refl, KeepsHash-same, Obeys, is_final, rejects, settles,
  stays, stays-submitting, submits, submitted-only, submitting-only, unresolved-submitting,
}
use ppops.Payer.Journal.Methods.{BroadcasterInput, append_retry, is_retryable, same_nullifiers}
use ppops.Payer.Request.{PaymentRequest}

-- New attempts of an unresolved record change nothing else that matters.
attempts-Changed :
    (r : SubmissionRecord) (attempts : Option (List RetryAttempt))
    (ambiguity : Option (List BroadcasterAmbiguityCode)) (now : ℕ)
    → is_unresolved r ≡ true
    → Changed stays r (record r {
      broadcaster_retry_attempts = attempts;
      broadcaster_ambiguity_codes = ambiguity;
      updated_at = now;
    })
attempts-Changed r attempts ambiguity now h =
    let s = unresolved-submitting r h in
    record {
      same_id = refl;
      same_mode = refl;
      same_nullifiers = refl;
      was_open = ap is_final s;
      moves = stays-submitting r.status s;
      keeps_reported = KeepsHash-refl r.reported_transaction_hash;
      keeps_transaction = KeepsHash-refl r.transaction_hash;
    }

pub mark_rejected-Obeys :
    (code : BroadcasterRejectionCode) (now : ℕ) → Obeys rejects (mark_rejected code now)
unfolding mark_rejected
mark_rejected-Obeys code now r o h =
    elim (Bool-cases (is_unresolved r && length (attempts_of r) == 0)) [
      | inl e ↦
          let s = unresolved-submitting r (ground arith) in
          subst (Follows rejects r) (ok-inj refl (rw e at h)) (record {
            same_id = refl;
            same_mode = refl;
            same_nullifiers = refl;
            was_open = ap is_final s;
            moves = ap rejects s;
            keeps_reported = KeepsHash-refl r.reported_transaction_hash;
            keeps_transaction = KeepsHash-refl r.transaction_hash;
          })
      | inr e ↦ cc (rw e at h)
    ]

with_attempts-Obeys :
    (now : ℕ) (r : SubmissionRecord) (attempts : Option (List RetryAttempt))
    (o : Option SubmissionRecord)
    → is_unresolved r ≡ true
    → with_attempts now r attempts ≡ ok o
    → Follows stays r o
with_attempts-Obeys now r none o e h = cc
with_attempts-Obeys now r (some attempts) o e h =
    subst (Follows stays r) (ok-inj refl h)
      (attempts-Changed r (some attempts) r.broadcaster_ambiguity_codes now e)

pub mark_broadcaster_retry_rejected-Obeys :
    (quote : Text) (code : BroadcasterRejectionCode) (now : ℕ)
    → Obeys stays (mark_broadcaster_retry_rejected quote code now)
unfolding mark_broadcaster_retry_rejected
mark_broadcaster_retry_rejected-Obeys quote code now r o h = elim (Bool-cases (is_unresolved r)) [
  | inl e ↦ with_attempts-Obeys now r _ o e (rw e at h)
  | inr e ↦ cc (rw e at h)
]

pub mark_broadcaster_ambiguous-Obeys :
    (code : BroadcasterAmbiguityCode) (quote : Option Text) (now : ℕ)
    → Obeys stays (mark_broadcaster_ambiguous code quote now)
unfolding mark_broadcaster_ambiguous
mark_broadcaster_ambiguous-Obeys code quote now r o h =
    let (e, rest) = guarded (is_unresolved r) not_allowed _ h in
    let (attempts, found, written) =
      >>=-eq-ok (attempts_after_ambiguity code quote now r.broadcaster_retry_attempts) _ rest in
    subst (Follows stays r) (ok-inj refl written) (attempts-Changed r attempts _ now e)

reported-Obeys :
    (r new : SubmissionRecord) (o : Option SubmissionRecord)
    → is_submitting r.status ≡ true
    → (r.reported_transaction_hash ≡ none → Changed stays r new)
    → if◌then◌else◌ {A = Result JournalError (Option SubmissionRecord)}
        (is_some r.reported_transaction_hash)
        (ok none)
        (ok (some new))
      ≡ ok o
    → Follows stays r o
reported-Obeys r new o e change h = elim (Option-cases r.reported_transaction_hash) [
  | inl none_yet ↦ subst (Follows stays r) (ok-inj refl (rw none_yet at h)) (change none_yet)
  | inr (hash, set) ↦
      subst (Follows stays r) (ok-inj refl (rw set at h))
        (stays-submitting r.status (submitting-only r.status e))
]

pub mark_broadcaster_reported-Obeys :
    (hash : Text) (now : ℕ) → Obeys stays (mark_broadcaster_reported hash now)
unfolding mark_broadcaster_reported
mark_broadcaster_reported-Obeys hash now r o h =
    let (b, h1) = guarded (is_broadcaster r.submission_mode) not_allowed _ h in
    let (e, h2) = guarded (is_submitting r.status) not_allowed _ h1 in
    let (valid, h3) = guarded (is_transaction_hash hash) invalid_hash _ h2 in
    let (same, h4) =
      guarded (not (differs_from r.reported_transaction_hash hash)) not_allowed _ h3 in
    let s = submitting-only r.status e in
    reported-Obeys r _ o e
      (λ unreported. record {
        same_id = refl;
        same_mode = refl;
        same_nullifiers = refl;
        was_open = ap is_final s;
        moves = stays-submitting r.status s;
        keeps_reported =
            subst (λ old. KeepsHash old (some (to_lower_case hash))) (sym unreported) tt;
        keeps_transaction = KeepsHash-refl r.transaction_hash;
      })
      h4

has_status-settles :
    (succeeded : Bool) (s : SubmissionStatus)
    → has_status (target_status succeeded) s ≡ true
    → settles succeeded s ≡ some s
has_status-settles true submitting h = cc
has_status-settles true submitted h = cc
has_status-settles true mined h = refl
has_status-settles true reverted h = cc
has_status-settles true rejected h = cc
has_status-settles false submitting h = cc
has_status-settles false submitted h = cc
has_status-settles false mined h = cc
has_status-settles false reverted h = refl
has_status-settles false rejected h = cc

pub mark_mined-Obeys :
    (block : ℕ) (succeeded : Bool) (now : ℕ)
    → Obeys (settles succeeded) (mark_mined block succeeded now)
unfolding mark_mined
mark_mined-Obeys block succeeded now r o h =
    let (t, h1) = guarded (is_some r.transaction_hash) not_allowed _ h in
    elim (Bool-cases
      (has_status (target_status succeeded) r.status && has_block block r.block_number)) [
        | inl same ↦
            subst (Follows (settles succeeded) r) (ok-inj refl (rw same at h1))
              (has_status-settles succeeded r.status (ground arith))
        | inr fresh ↦ elim (Bool-cases (is_submitted r.status)) [
          | inl e ↦
              let s = submitted-only r.status e in
              subst (Follows (settles succeeded) r) (ok-inj refl (rw (fresh, e) at h1)) (record {
                same_id = refl;
                same_mode = refl;
                same_nullifiers = refl;
                was_open = ap is_final s;
                moves = ap (settles succeeded) s;
                keeps_reported = KeepsHash-refl r.reported_transaction_hash;
                keeps_transaction = KeepsHash-refl r.transaction_hash;
              })
          | inr e ↦ cc (rw (fresh, e) at h1)
        ]
      ]

pub mark_submitted-Obeys : (hash : Text) (now : ℕ) → Obeys submits (mark_submitted hash now)
unfolding mark_submitted
mark_submitted-Obeys hash now r o h =
    let (t, h1) = guarded (not (differs_from r.transaction_hash hash)) not_allowed _ h in
    elim (Bool-cases (is_submitted r.status)) [
      | inl e ↦
          subst (Follows submits r) (ok-inj refl (rw e at h1))
            (ap submits (submitted-only r.status e) ∙ ap some (sym (submitted-only r.status e)))
      | inr e ↦ elim (Bool-cases (is_submitting r.status)) [
        | inl f ↦
            let s = submitting-only r.status f in
            subst (Follows submits r) (ok-inj refl (rw (e, f) at h1)) (record {
              same_id = refl;
              same_mode = refl;
              same_nullifiers = refl;
              was_open = ap is_final s;
              moves = ap submits s;
              keeps_reported = KeepsHash-refl r.reported_transaction_hash;
              keeps_transaction = KeepsHash-same r.transaction_hash hash t;
            })
        | inr f ↦ cc (rw (e, f) at h1)
      ]
    ]

pub append_retry-Obeys :
    (hash : Text → Text) (q : PaymentRequest) (input : BroadcasterInput) (now : ℕ)
    → Obeys stays (append_retry hash q input now)
unfolding append_retry is_retryable
append_retry-Obeys hash q input now r o h =
    let (allowed, h1) =
      guarded
        (is_retryable hash q input.payer_railgun_address r
          && same_nullifiers r.nullifiers input.nullifiers)
        already_recorded _ h in
    let (few, written) = guarded (ltb (length (attempts_of r)) 3) already_recorded _ h1 in
    subst (Follows stays r) (ok-inj refl written)
      (attempts-Changed r _ r.broadcaster_ambiguity_codes now (ground arith))
