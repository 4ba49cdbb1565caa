-- ===== src/Payer/Request/Verified.antt =====
-- The payer's tool on what the daemon serves of the intents that it makes.
use ppops.Prelude.{
  ℕ, ◌≡◌, refl, ap, sym, ◌∙◌, subst, Bool, true, false, ◌&&◌, List, ◌++◌, some, arith, leb,
  Bool-cases, inl, inr, length, Text, codes, text_eq_refl, to_lower_case,
}
use ppops.Prelude.Results.{ok, ok-inj, >>=-eq-ok}
use ppops.Domain.{PaymentIntentRecord, PaymentIntentView, SettlementRecord, IntentProjection}
use ppops.Domain.Amount.{
  big_int, is_canonical, to_text, to_text-big_int, is_canonical-printed, is_positive_atomic_amount,
}
use ppops.Domain.Memo.{is_reference, memo_for_reference, memo_prefix}
use ppops.Descriptor.{Ethers, satisfies_schema, verify_signed_descriptor}
use ppops.Descriptor.Trust.{SignsFor, verify_signed_descriptor-IsTrusted}
use ppops.Intents.{CreateIntentInput, Draws, Network, validate_input}
use ppops.Intents.Creating.{prepare_record}
use ppops.Webhook.{lower_hex_behind}
use ppops.Checkout.{CheckoutRequest, checkout_intent, or_internal, served_request}
use ppops.Checkout.Serving.{or_internal-eq-ok}
use ppops.Payer.Request.{
  PaymentRequest, payer_chain_id, payer_token_decimals, payer_token_symbol, is_zk_recipient,
  payer_token_address, satisfies_request, signs_request, verify_payment_request_descriptor,
}
use ppops.Payer.Request.Accepting.{as_payment_request}
use ppops.Payer.Request.Made.{
  descriptor_of, is_memo-printed, lower-printed, made, prepare_record-made, verify_descriptor-made,
}

-- What the payer asks of the network, the recipient and the drawn UUID.
pub record FitsPayer (network : Network) (valid_address : Text → Bool) (recipient_0zk : Text)
    (draws : Draws) : Type 0 where
  pub chain : network.chain_id ≡ payer_chain_id
  pub token : to_lower_case network.token_address ≡ payer_token_address
  pub symbol : network.token_symbol ≡ payer_token_symbol
  pub decimals : network.token_decimals ≡ payer_token_decimals
  pub recipient : is_zk_recipient valid_address recipient_0zk ≡ true
  pub uuid : lower_hex_behind (codes "pi_") 32 (codes "pi_" ++ draws.uuid_hex) ≡ true

module _ (ethers : Ethers) (valid_address : Text → Bool) (format_units : Text → ℕ → Text)
    (network : Network) (recipient_0zk key signer : Text) (input : CreateIntentInput)
    (external_reference : Text) (now : ℕ) (draws : Draws)
    (fits : FitsPayer network valid_address recipient_0zk draws)
    (size : (leb 1 (length (format_units input.amount_atomic network.token_decimals))
        && leb (length (format_units input.amount_atomic network.token_decimals)) 128)
      ≡ true)
    (canonical : is_canonical input.amount_atomic ≡ true) where
  abbrev made_view : Text → IntentProjection → PaymentIntentView
  made_view token p = record {
    intent = made ethers network recipient_0zk key signer input external_reference now draws token;
    projection = p;
  }

  abbrev request_of : Text → IntentProjection → List SettlementRecord → Bool → PaymentRequest
  request_of token p settlements ready = as_payment_request (
      served_request format_units (made_view token p) settlements ready false
        (memo_prefix ++ to_lower_case (codes "0x" ++ draws.reference_hex)))

  amount_printed : to_text (big_int input.amount_atomic) ≡ input.amount_atomic
  amount_printed = to_text-big_int input.amount_atomic canonical

  satisfies_request-made :
      (token : Text) (p : IntentProjection) (settlements : List SettlementRecord) (ready : Bool)
      → is_reference (codes "0x" ++ draws.reference_hex) ≡ true
      → satisfies_schema ethers (
          descriptor_of ethers network recipient_0zk key signer input external_reference now draws
            token)
        ≡ true
      → satisfies_request ethers valid_address (request_of token p settlements ready) ≡ true
  unfolding satisfies_request satisfies_schema
  satisfies_request-made token p settlements ready reference schema =
      let memo = is_memo-printed (codes "0x" ++ draws.reference_hex) reference in
      rw (amount_printed, fits.uuid, size, memo, fits.recipient)
        (ground (
          arith,
          schema,
          fits.recipient,
          is_canonical-printed p.received_amount_atomic,
          is_canonical-printed p.pending_amount_atomic,
        ))

  signs_request-made :
      (token : Text) (p : IntentProjection) (settlements : List SettlementRecord) (ready : Bool)
      → to_lower_case token ≡ to_lower_case network.token_address
      → signs_request format_units (request_of token p settlements ready) ≡ true
  unfolding signs_request
  signs_request-made token p settlements ready lower =
      let memo = lower-printed (codes "0x" ++ draws.reference_hex) in
      rw (fits.chain, lower, fits.token, fits.symbol, fits.decimals, amount_printed, memo)
        (ground (
          arith,
          text_eq_refl input.amount_atomic,
          text_eq_refl recipient_0zk,
          text_eq_refl (format_units input.amount_atomic payer_token_decimals),
          text_eq_refl
              (memo_prefix ++ to_lower_case (to_lower_case (codes "0x" ++ draws.reference_hex))),
        ))

  verify_request-made :
      (token verified : Text) (p : IntentProjection) (settlements : List SettlementRecord)
      (ready : Bool)
      → SignsFor ethers key signer
      → to_lower_case token ≡ to_lower_case network.token_address
      → is_reference (codes "0x" ++ draws.reference_hex) ≡ true
      → verify_signed_descriptor ethers
          (descriptor_of ethers network recipient_0zk key signer input external_reference now draws
            token)
          signer
        ≡ ok verified
      → verify_payment_request_descriptor ethers valid_address format_units
          (request_of token p settlements ready)
          signer
        ≡ ok (request_of token p settlements ready)
  unfolding verify_payment_request_descriptor
  verify_request-made token verified p settlements ready signs lower reference checked =
      let t = verify_signed_descriptor-IsTrusted ethers _ signer verified checked in
      rw
        (
          satisfies_request-made token p settlements ready reference t.schema,
          verify_descriptor-made ethers network recipient_0zk key signer input external_reference
              now draws valid_address token verified fits.recipient t,
          signs_request-made token p settlements ready lower,
          signs.checksummed,
          text_eq_refl signer,
        )
        refl

memo_for_reference-eq-ok :
    (reference memo : Text)
    → memo_for_reference reference ≡ ok memo
    → (is_reference reference ≡ true) × (memo_prefix ++ to_lower_case reference ≡ memo)
unfolding memo_for_reference
memo_for_reference-eq-ok reference memo h = elim (Bool-cases (is_reference reference)) [
  | inl e ↦ (e, ok-inj refl (rw e at h))
  | inr e ↦ cc (rw e at h)
]

validate_input-canonical :
    (input : CreateIntentInput) (now : ℕ) (external_reference : Text)
    → validate_input input now ≡ ok external_reference
    → is_canonical input.amount_atomic ≡ true
unfolding validate_input is_positive_atomic_amount
validate_input-canonical input now external_reference h = ground arith

-- What the daemon serves of an intent that it made, whatever has been paid since, the payer's tool
-- verifies for the merchant's own address: the daemon runs on the payer's network with a
-- recipient that is a RAILGUN address, ethers signs for the key and its checksum changes the token's
-- address in case only, the drawn UUID has 32 hexadecimal digits, and the amount is formatted with 1
-- to 128 characters.
pub verify-checkout_intent :
    (ethers : Ethers) (valid_address : Text → Bool) (format_units : Text → ℕ → Text)
    (network : Network) (recipient_0zk key signer : Text) (input : CreateIntentInput)
    (external_reference : Text) (now : ℕ) (draws : Draws) (r : PaymentIntentRecord)
    (p : IntentProjection) (settlements : List SettlementRecord) (ready : Bool)
    (served : CheckoutRequest)
    → SignsFor ethers key signer
    → ((token : Text)
        → ethers.get_address network.token_address ≡ some token
        → to_lower_case token ≡ to_lower_case network.token_address)
    → FitsPayer network valid_address recipient_0zk draws
    → (leb 1 (length (format_units input.amount_atomic network.token_decimals))
        && leb (length (format_units input.amount_atomic network.token_decimals)) 128)
      ≡ true
    → validate_input input now ≡ ok external_reference
    → prepare_record ethers network recipient_0zk key input external_reference now draws ≡ ok r
    → checkout_intent format_units (record { intent = r; projection = p }) settlements ready false
      ≡ ok served
    → verify_payment_request_descriptor ethers valid_address format_units
        (as_payment_request served)
        signer
      ≡ ok (as_payment_request served)
unfolding checkout_intent
verify-checkout_intent ethers valid_address format_units network recipient_0zk key signer input
      external_reference now draws r p settlements ready served signs same_case fits size valid
      prepared shown =
    let (token, verified, address, checked, is) =
      prepare_record-made ethers network recipient_0zk key signer input external_reference now draws
        r signs.wallet prepared in
    let (memo, printed, rest) = >>=-eq-ok (or_internal (memo_for_reference r.reference)) _ shown in
    let (reference, same) =
      memo_for_reference-eq-ok r.reference memo (or_internal-eq-ok _ memo printed) in
    let canonical = validate_input-canonical input now external_reference valid in
    let shape =
      ap
        (λ (i : PaymentIntentRecord).
          served_request format_units (record { intent = i; projection = p }) settlements ready
            false (memo_prefix ++ to_lower_case i.reference))
        is
      ∙ ap
          (λ m.
            served_request format_units (record { intent = r; projection = p }) settlements ready
              false m)
          same
      ∙ ok-inj refl rest in
    subst
      (λ x.
        verify_payment_request_descriptor ethers valid_address format_units (as_payment_request x)
          signer
        ≡ ok (as_payment_request x))
      shape
      (verify_request-made ethers valid_address format_units network recipient_0zk key signer input
        external_reference now draws fits size canonical token verified p settlements ready signs
        (same_case token address)
        (subst (λ (i : PaymentIntentRecord). is_reference i.reference ≡ true) (sym is) reference)
        checked)
