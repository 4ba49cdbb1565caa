-- ===== src/Payer/Failures.antt =====
-- tools/ppops-payer/src/broadcaster/failures.ts: what a broadcaster's error says of a submission.
use ppops.Prelude.{
  ◌≡◌, refl, Bool, true, false, ◌&&◌, not, List, [], ◌∷◌, Option, none, some, arith, if◌then◌else◌,
  subst, Text, codes, text_eq, text_eq_iff, is_some, Bool-cases, inl, inr,
}

pub data BroadcasterRejectionCode : Type 0 where
  bad_token_fee failed_quorum gas_price_too_low gas_estimate_error : BroadcasterRejectionCode
  gas_estimate_revert rejected_packaged_fee failed_to_extract_packaged_fee :
      BroadcasterRejectionCode
  broadcaster_out_of_gas poi_invalid unsupported_network : BroadcasterRejectionCode
  missing_required_field no_broadcaster_fee : BroadcasterRejectionCode

pub data BroadcasterAmbiguityCode : Type 0 where
  transaction_send_timeout transaction_send_rpc_error repeat_transaction : BroadcasterAmbiguityCode
  note_already_spent transaction_underpriced nonce_already_used : BroadcasterAmbiguityCode
  unknown_error missing_response bad_response waku_request_timeout : BroadcasterAmbiguityCode
  invalid_transaction_hash unclassified_failure : BroadcasterAmbiguityCode

-- A thrown value: an `Error` by its text, `String(error)`, with the text of its cause where that is
-- an `Error` too; or something else.
pub data Raised : Type 0 where
  raised : Text → Option Text → Raised
  other : Raised

-- `new Map([...])`
abbrev pub Messages : Type 0 → Type 0
Messages A = List (Text × A)

-- `map.get(key)`; the keys are distinct.
pub get_message : {A : Type 0} → Text → Messages A → Option A
get_message key [] = none
get_message key ((text, code) ∷ rest) = if text_eq text key then some code else get_message key rest

abbrev pub definitive_rejection_messages : Messages BroadcasterRejectionCode
definitive_rejection_messages =
    (codes "Error: Bad token fee.", bad_token_fee)
    ∷ (
      codes "Error: Gas Price was rejected as too low to guarantee inclusion into the next block.",
      failed_quorum,
    )
    ∷ (codes "Error: Gas price rejected as too low.", gas_price_too_low)
    ∷ (codes "Error: Gas estimate error. Possible connection failure.", gas_estimate_error)
    ∷ (
      codes "Error: Gas estimate error. Possible connection failure. Please try again.",
      gas_estimate_revert,
    )
    ∷ (
      codes
          "Error: Network Gas Price has changed dramatically and the Broadcaster Fee was rejected.",
      rejected_packaged_fee,
    )
    ∷ (
      codes "Error: Failed to extract Broadcaster Fee from transaction. Please try again.",
      failed_to_extract_packaged_fee,
    )
    ∷ (
      codes
          "Error: Broadcaster is out of gas, or currently does not have enough to process this transaction.",
      broadcaster_out_of_gas,
    )
    ∷ (
      codes
          "Error: Could not validate Proof of Innocence - Broadcaster cannot process this transaction.",
      poi_invalid,
    )
    ∷ (codes "Error: Broadcaster does not support this network.", unsupported_network)
    ∷ (codes "Error: Missing required field.", missing_required_field)
    ∷ (codes "Error: No Broadcaster Fee included in transaction.", no_broadcaster_fee)
    ∷ []

abbrev pub ambiguous_response_messages : Messages BroadcasterAmbiguityCode
ambiguous_response_messages =
    (
      codes
          "Error: WARNING: Timed out while sending to the blockchain. The transaction may be processing on-chain, but we can't find the receipt. This can occur when a Broadcaster has a connection issue. You will not see this transaction in your history, but your balance will reflect it if successful. We recommend waiting at least 15 minutes before trying again.",
      transaction_send_timeout,
    )
    ∷ (
      codes
          "Error: WARNING: Broadcaster received an error while sending the transaction, The transaction may still be processing on-chain, but we can't find the receipt. This can occur when a Broadcaster has a connection issue. Your balance should reflect it if successful.  We recommend waiting at least 15 minutes before trying again.",
      transaction_send_rpc_error,
    )
    ∷ (codes "Error: Transaction has already been sent.", repeat_transaction)
    ∷ (
      codes
          "Error: ALREADY SPENT: One of the notes contained in this transaction have already been spent!",
      note_already_spent,
    )
    ∷ (
      codes
          "Error: RPC Rejected Transction: Gas fee too low. Please select a higher gas price and resubmit.",
      transaction_underpriced,
    )
    ∷ (
      codes
          "Error: WARNING: Broadcaster recieved an error from the RPC: Nonce already used. There is no way to tell if the transaction made it. We did not recieve a tx hash. Please check the chain, if nothing happens within 15 minutes. It is safe to try again.",
      nonce_already_used,
    )
    ∷ (codes "Error: Unknown Broadcaster error.", unknown_error)
    ∷ (codes "Error: RPC response is missing.", missing_response)
    ∷ (codes "Error: Server responded 512. ", bad_response)
    ∷ []

abbrev pub response_error : Text
response_error = codes "Error: Received response error from broadcaster."

-- What the cause of a response error says.
abbrev by_cause : {A : Type 0} → Option Text → Messages A → Option A
by_cause none messages = none
by_cause (some cause) messages = get_message cause messages

unfoldable pub classify_definitive_broadcaster_rejection : Raised → Option BroadcasterRejectionCode
unfolding get_message
classify_definitive_broadcaster_rejection other = none
classify_definitive_broadcaster_rejection (raised text cause) =
    if text_eq text response_error then by_cause cause definitive_rejection_messages else none

unfoldable pub classify_ambiguous_broadcaster_response : Raised → Option BroadcasterAmbiguityCode
unfolding get_message
classify_ambiguous_broadcaster_response other = none
classify_ambiguous_broadcaster_response (raised text cause) =
    if text_eq text (codes "Error: Request timed out.")
    then some waku_request_timeout
    else if text_eq text response_error
    then by_cause cause ambiguous_response_messages
    else none

-- No key of the one map is one of the other.
are_apart : {A B : Type 0} → Messages A → Messages B → Bool
are_apart [] later = true
are_apart ((text, code) ∷ rest) later =
    not (is_some (get_message text later)) && are_apart rest later

tables_apart : are_apart definitive_rejection_messages ambiguous_response_messages ≡ true
unfolding are_apart get_message
tables_apart = refl

is_none : {A : Type 0} (o : Option A) → is_some o ≡ false → o ≡ none
is_none none h = refl
is_none (some a) h = cc

get_message-apart :
    {A B : Type 0} (key : Text) (m : Messages A) (n : Messages B) (a : A)
    → are_apart m n ≡ true
    → get_message key m ≡ some a
    → get_message key n ≡ none
unfolding are_apart get_message
get_message-apart key [] n a h e = cc
get_message-apart key ((text, code) ∷ m) n a h e = elim (Bool-cases (text_eq text key)) [
  | inl same ↦
      let absent : is_some (get_message text n) ≡ false = ground arith in
      is_none (get_message key n)
        (subst (λ k. is_some (get_message k n) ≡ false) ((text_eq_iff text key).0 same) absent)
  | inr apart ↦ get_message-apart key m n a (ground arith) (ground arith)
]

by_cause-apart :
    (cause : Option Text) (c : BroadcasterRejectionCode)
    → by_cause cause definitive_rejection_messages ≡ some c
    → by_cause cause ambiguous_response_messages ≡ none
by_cause-apart none c h = cc
by_cause-apart (some cause) c h =
    get_message-apart cause definitive_rejection_messages ambiguous_response_messages c tables_apart
      h

timed_out_is_no_response : text_eq (codes "Error: Request timed out.") response_error ≡ false
timed_out_is_no_response = refl

-- No failure counts both as a definitive rejection, after which the notes are free again, and as an
-- ambiguous response, after which the transaction may still be mined.
pub classify_apart :
    (error : Raised) (c : BroadcasterRejectionCode)
    → classify_definitive_broadcaster_rejection error ≡ some c
    → classify_ambiguous_broadcaster_response error ≡ none
unfolding classify_definitive_broadcaster_rejection classify_ambiguous_broadcaster_response
classify_apart other c h = cc
classify_apart (raised text cause) c h = elim (Bool-cases (text_eq text response_error)) [
  | inr apart ↦ absurd (ground arith)
  | inl same ↦
      let definitive : by_cause cause definitive_rejection_messages ≡ some c = ground arith in
      let ambiguous = by_cause-apart cause c definitive in
      let text_same = (text_eq_iff text response_error).0 same in rw text_same ambiguous
]
