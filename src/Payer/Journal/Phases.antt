-- ===== src/Payer/Journal/Phases.antt =====
-- The phases that the journal takes an intent through: what a call of the journal promises, without
-- the records.
use ppops.Prelude.{◌≡◌, refl, List, Option, none, some, Text}
use ppops.Payer.Journal.{SubmissionStatus, submitting, SubmissionRecord}
use ppops.Payer.Journal.Changes.{Move, rejects, settles, stays, submits}
use ppops.Payer.Journal.Methods.{
  Call, reserve, reserve_broadcaster, reserve_broadcaster_retry, rejected_by, retry_rejected,
  ambiguous, reported, mined_in, submitted_as, get,
}

-- The intent that a call is about.
abbrev pub subject : Call → Text
subject (reserve q signer transaction_hash nonce) = q.id
subject (reserve_broadcaster q input) = q.id
subject (reserve_broadcaster_retry q input) = q.id
subject (rejected_by id code) = id
subject (retry_rejected id quote code) = id
subject (ambiguous id code quote) = id
subject (reported id hash) = id
subject (mined_in id block succeeded) = id
subject (submitted_as id hash) = id

-- An intent has no phase until it is reserved.
abbrev pub Phase : Type 0
Phase = Option SubmissionStatus

abbrev pub phase_of : Text → List SubmissionRecord → Phase
phase_of id records = elim (get id records) [ none ↦ none | some r ↦ some r.status ]

pub phase_of-found :
    (id : Text) (records : List SubmissionRecord) (r : SubmissionRecord)
    → get id records ≡ some r
    → phase_of id records ≡ some r.status
phase_of-found id records r h = rw (phase_of, h) refl

abbrev arrived : Option SubmissionStatus → Option Phase
arrived none = none
arrived (some s) = some (some s)

abbrev pub opens : Phase → Option Phase
opens none = some (some submitting)
opens (some s) = none

abbrev pub advances : Move → Phase → Option Phase
advances move none = none
advances move (some s) = arrived (move s)

-- The phase after a call: none where it throws.
abbrev pub next_phase : Call → Phase → Option Phase
next_phase (reserve q signer transaction_hash nonce) p = opens p
next_phase (reserve_broadcaster q input) p = opens p
next_phase (reserve_broadcaster_retry q input) p = advances stays p
next_phase (rejected_by id code) p = advances rejects p
next_phase (retry_rejected id quote code) p = advances stays p
next_phase (ambiguous id code quote) p = advances stays p
next_phase (reported id hash) p = advances stays p
next_phase (mined_in id block succeeded) p = advances (settles succeeded) p
next_phase (submitted_as id hash) p = advances submits p
