-- ===== src/Scenarios/Payments.antt =====
-- A payer's journal with two submissions to a broadcaster, of which a third is refused.
use ppops.Prelude.{
  ℕ, ◌≤◌, arith, Option, ◌*◌, ◌≡◌, refl, Bool, true, false, List, [], ◌∷◌, ◌++◌, none, some,
  replicate, Text, codes, length, leb, if◌then◌else◌, to_lower_case,
}
use ppops.Prelude.Results.{ok, err}
use ppops.Domain.{opened, rail_name}
use ppops.Payer.Failures.{
  raised, bad_token_fee, classify_apart, classify_definitive_broadcaster_rejection,
  classify_ambiguous_broadcaster_response, response_error,
}
use ppops.Payer.Request.{PaymentRequest}
use ppops.Payer.GasQuorum.{healthy_of, select_conservative, select_conservative-bounds}
use ppops.Payer.Journal.{SubmissionRecord, mined, journal_too_large}
use ppops.Domain.Amount.{to_text}
use ppops.Payer.Journal.Marks.{differs_from}
use ppops.Payer.Journal.Calls.{normalized_nullifiers, set_first}
use ppops.Payer.Journal.Exclusive.{run-exclusive}
use ppops.Payer.Journal.Keeps.{StillHas, run-StillHas}
use ppops.Payer.Journal.Methods.{
  BroadcasterInput, Call, reserve_broadcaster, submitted_as, mined_in, broadcaster_record, get,
  request_fingerprint, fingerprint_fees_id,
}
use ppops.Payer.Journal.Nullifiers.{meets}
use ppops.Payer.Journal.Phases.{next_phase, phase_of}
use ppops.Payer.Journal.Readable.{read-run}
use ppops.Payer.Journal.Runs.{records_of, run, submit, submit-next_phase}
use ppops.Payer.Journal.Schema.{read, satisfies_journal, satisfies_record}
use ppops.Payer.Journal.{has_valid_fields, is_zk_text}
use ppops.Prelude.Sorting.{sort}
use ppops.Payer.Journal.Settling.{run-settled}
use ppops.Scenarios.Shop.{hex64, signed, usdc}

abbrev any_address : Text → Bool
any_address text = true

-- Each record takes a kilobyte.
abbrev text_size : List SubmissionRecord → ℕ
text_size records = 1000 * length records

abbrev sha256 : Text → Text
sha256 text = hex64

abbrev name : ℕ → Text
name c = codes "pi_" ++ replicate 32 c

abbrev zk_address : Text
zk_address = codes "0zk" ++ replicate 40 b'q'

abbrev asked : ℕ → PaymentRequest
asked c = record {
  id = name c;
  chain_id = 42161;
  token_address = usdc;
  token_symbol = codes "USDC";
  decimals = 6;
  amount_atomic = codes "100";
  amount_formatted = codes "0.0001";
  received_amount_atomic = codes "0";
  pending_amount_atomic = codes "0";
  status = opened;
  expires_at = 1000;
  rail = rail_name;
  recipient = zk_address;
  memo = codes "ppops:v1:";
  descriptor = signed;
  expected_merchant_signer = codes "0xBB";
  reconciliation_ready = some true;
  payment_stage = none;
  simulated = none;
}

abbrev nullifier : ℕ → Text
nullifier c = codes "0x" ++ replicate 64 c

abbrev input : ℕ → BroadcasterInput
input c = record {
  payer_railgun_address = zk_address;
  broadcaster_railgun_address = zk_address;
  broadcaster_quote_fingerprint = hex64;
  broadcaster_fees_id = codes "fees";
  broadcaster_fee_amount_atomic = 7;
  nullifiers = nullifier c ∷ [];
}

-- The third asks for the nullifier of the second, in upper case.
abbrev calls : List (Call × ℕ)
calls =
    (reserve_broadcaster (asked b'a') (input b'c'), 10)
    ∷ (reserve_broadcaster (asked b'b') (input b'd'), 11)
    ∷ (reserve_broadcaster (asked b'c') (input b'D'), 12)
    ∷ []

abbrev entry : ℕ → ℕ → ℕ → SubmissionRecord
entry c d now = broadcaster_record sha256 (asked c) (input d) now

abbrev two_entries : List SubmissionRecord
two_entries = entry b'a' b'c' 10 ∷ entry b'b' b'd' 11 ∷ []

calls_leave_two : run any_address text_size sha256 calls none ≡ some two_entries
unfolding run satisfies_journal satisfies_record has_valid_fields is_zk_text sort to_lower_case
calls_leave_two = refl

classify_apart_example :
    classify_ambiguous_broadcaster_response
      (raised response_error (some (codes "Error: Bad token fee.")))
    ≡ none
unfolding classify_definitive_broadcaster_rejection
classify_apart_example =
    classify_apart (raised response_error (some (codes "Error: Bad token fee."))) bad_token_fee refl

submit-next_phase_example :
    (next_phase
        (reserve_broadcaster (asked b'b') (input b'd'))
        (phase_of (name b'b') (entry b'a' b'c' 10 ∷ []))
      ≡ some (phase_of (name b'b') two_entries))
    × (get (name b'a') two_entries ≡ get (name b'a') (entry b'a' b'c' 10 ∷ []))
unfolding submit satisfies_journal satisfies_record has_valid_fields is_zk_text sort to_lower_case
submit-next_phase_example =
    submit-next_phase any_address text_size sha256 (reserve_broadcaster (asked b'b') (input b'd'))
      11 (some (entry b'a' b'c' 10 ∷ [])) (some two_entries) (name b'a') refl refl

run-exclusive_example :
    meets (entry b'a' b'c' 10).nullifiers (entry b'b' b'd' 11).nullifiers ≡ false
unfolding run satisfies_journal satisfies_record has_valid_fields is_zk_text sort to_lower_case
run-exclusive_example =
    run-exclusive any_address text_size sha256 calls (name b'a') (name b'b') (entry b'a' b'c' 10)
      (entry b'b' b'd' 11) refl refl refl refl refl

run-StillHas_example : StillHas (name b'a') (entry b'a' b'c' 10) (
    records_of (
      run any_address text_size sha256
        ((submitted_as (name b'a') (nullifier b'e'), 20) ∷ [])
        (some two_entries)))
run-StillHas_example =
    run-StillHas any_address text_size sha256 ((submitted_as (name b'a') (nullifier b'e'), 20) ∷ [])
      (some two_entries) (name b'a') (entry b'a' b'c' 10) refl

read-run_example : read any_address text_size (run any_address text_size sha256 calls none) ≡ (
    if leb (text_size two_entries) (2 * 1_024 * 1_024)
    then ok two_entries
    else err journal_too_large)
unfolding run satisfies_journal satisfies_record has_valid_fields is_zk_text sort to_lower_case
read-run_example = read-run any_address text_size sha256 calls two_entries refl

run-settled_example :
    phase_of (name b'a') (
      records_of (
        run any_address text_size sha256
          ((submitted_as (name b'a') (nullifier b'e'), 20)
            ∷ (mined_in (name b'a') 500 true, 30)
            ∷ [])
          (some two_entries)))
    ≡ some mined
unfolding satisfies_journal satisfies_record has_valid_fields is_zk_text sort to_lower_case
    request_fingerprint fingerprint_fees_id to_text normalized_nullifiers differs_from set_first
run-settled_example =
    run-settled any_address text_size sha256 two_entries (name b'a') (nullifier b'e')
      (entry b'a' b'c' 10) 20 500 30 true refl refl refl refl refl refl refl refl refl refl

-- Four providers, of which one fails and one asks too much.
abbrev readings : List (Option ℕ)
readings = some 12 ∷ none ∷ some 1000 ∷ some 10 ∷ []

select_conservative-bounds_example :
    (10 ≤ 12) × (12 ≤ 12) × (3 ≡ length (healthy_of readings)) × (3 ≤ 3)
unfolding select_conservative sort healthy_of
select_conservative-bounds_example =
    select_conservative-bounds readings 3 10 12 12 3 refl (omega arith) (omega arith)
