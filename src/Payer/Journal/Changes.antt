-- ===== src/Payer/Journal/Changes.antt =====
-- What a call may change in the record of an intent.
use ppops.Prelude.{
  ◌≡◌, refl, ap, sym, ◌∙◌, Bool, true, false, not, Option, none, some, arith, if◌then◌else◌, Text,
  text_eq_iff, to_lower_case,
}
use ppops.Prelude.Results.{Result, ok}
use ppops.Payer.Journal.{
  SubmissionStatus, submitting, submitted, mined, reverted, rejected, SubmissionRecord,
  JournalError, is_submitting, is_submitted,
}
use ppops.Payer.Journal.Calls.{is_unresolved}
use ppops.Payer.Journal.Marks.{differs_from, has_status, target_status}

-- A status that no call leaves.
abbrev pub is_final : SubmissionStatus → Bool
is_final submitting = false
is_final submitted = false
is_final _ = true

-- A step of the status: none where the call throws.
abbrev pub Move : Type 0
Move = SubmissionStatus → Option SubmissionStatus

abbrev pub stays : Move
stays submitting = some submitting
stays _ = none

abbrev pub rejects : Move
rejects submitting = some rejected
rejects _ = none

abbrev pub submits : Move
submits submitting = some submitted
submits submitted = some submitted
submits _ = none

abbrev pub settles : Bool → Move
settles succeeded submitted = some (target_status succeeded)
settles succeeded s = if has_status (target_status succeeded) s then some s else none

-- A hash that is set stays, except for the case of its digits.
abbrev pub KeepsHash : Option Text → Option Text → Type 0
KeepsHash none new = Unit
KeepsHash (some old) none = ⊥
KeepsHash (some old) (some new) = to_lower_case new ≡ to_lower_case old

pub KeepsHash-refl : (hash : Option Text) → KeepsHash hash hash
KeepsHash-refl none = tt
KeepsHash-refl (some hash) = refl

pub KeepsHash-same :
    (stored : Option Text) (hash : Text)
    → not (differs_from stored hash) ≡ true
    → KeepsHash stored (some hash)
unfolding differs_from
KeepsHash-same none hash h = tt
KeepsHash-same (some stored) hash h =
    sym ((text_eq_iff (to_lower_case stored) (to_lower_case hash)).0 (ground arith))

-- A call's change of a record that moves its status.
pub record Changed (move : Move) (r new : SubmissionRecord) : Type 0 where
  pub same_id : new.intent_id ≡ r.intent_id
  pub same_mode : new.submission_mode ≡ r.submission_mode
  pub same_nullifiers : new.nullifiers ≡ r.nullifiers
  pub was_open : is_final r.status ≡ false
  pub moves : move r.status ≡ some new.status
  pub keeps_reported : KeepsHash r.reported_transaction_hash new.reported_transaction_hash
  pub keeps_transaction : KeepsHash r.transaction_hash new.transaction_hash

-- A call that writes nothing leaves the status.
abbrev pub Follows : Move → SubmissionRecord → Option SubmissionRecord → Type 0
Follows move r none = move r.status ≡ some r.status
Follows move r (some new) = Changed move r new

-- What a call on the record of an intent does where it succeeds.
abbrev pub Obeys :
    Move → (SubmissionRecord → Result JournalError (Option SubmissionRecord)) → Type 0
Obeys move f = (r : SubmissionRecord) (o : Option SubmissionRecord) → f r ≡ ok o → Follows move r o

pub submitting-only : (s : SubmissionStatus) → is_submitting s ≡ true → s ≡ submitting
submitting-only submitting h = refl
submitting-only submitted h = cc
submitting-only mined h = cc
submitting-only reverted h = cc
submitting-only rejected h = cc

pub submitted-only : (s : SubmissionStatus) → is_submitted s ≡ true → s ≡ submitted
submitted-only submitting h = cc
submitted-only submitted h = refl
submitted-only mined h = cc
submitted-only reverted h = cc
submitted-only rejected h = cc

pub unresolved-submitting : (r : SubmissionRecord) → is_unresolved r ≡ true → r.status ≡ submitting
unresolved-submitting r h = submitting-only r.status (ground arith)

pub stays-submitting : (s : SubmissionStatus) → s ≡ submitting → stays s ≡ some s
stays-submitting s e = ap stays e ∙ ap some (sym e)
