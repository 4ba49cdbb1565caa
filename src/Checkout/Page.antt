-- ===== src/Checkout/Page.antt =====
-- src/api/checkout-model.ts: the checks of the checkout page, and what it shows.
use ppops.Prelude.{
  ℕ, zero, suc, ◌+◌, ◌-◌, Bool, true, false, not, ◌&&◌, ◌||◌, [], ◌∷◌, ◌++◌, Option, none, some,
  ltb, leb, ◌==◌, if◌then◌else◌, length, replicate, take, Text, codes, text_eq, to_lower_case,
  truthy,
}
use ppops.Prelude.Results.{Result, ok, err, ◌>>=◌, ◌>>◌, guard}
use ppops.Domain.{opened, paid, paid_late, expired, intent_status_eq, rail_name}
use ppops.Domain.Amount.{big_int, is_canonical, to_text}
use ppops.Domain.Memo.{memo_prefix}
use ppops.Descriptor.{Ethers}
use ppops.Webhook.{lower_hex_behind}
use ppops.Checkout.{
  CheckoutRequest, PaymentStage, awaiting_payment, payment_complete, payment_reverted,
  privacy_checks_pending, is_complete,
}

pub data CheckoutError : Type 0 where
  bad_request ethers_failure fields_differ unsupported_profile : CheckoutError
  invalid_request inconsistent_status : CheckoutError

-- `CheckoutHttpSchema`; a time is not negative by its type.
unfoldable pub satisfies_checkout : CheckoutRequest → Bool
satisfies_checkout r =
    is_canonical r.amount_atomic
    && is_canonical r.received_amount_atomic
    && is_canonical r.pending_amount_atomic
    && is_canonical r.overpayment_amount_atomic
    && text_eq r.rail rail_name
    && r.descriptor.version == 1
    && ltb 0 r.descriptor.chain_id
    && text_eq r.descriptor.rail rail_name
    && leb r.descriptor.decimals 255
    && is_canonical r.descriptor.amount_atomic

abbrev pub is_payment_complete : PaymentStage → Bool
is_payment_complete payment_complete = true
is_payment_complete _ = false

abbrev pub is_awaiting_payment : PaymentStage → Bool
is_awaiting_payment awaiting_payment = true
is_awaiting_payment _ = false

abbrev is_payment_reverted : PaymentStage → Bool
is_payment_reverted payment_reverted = true
is_payment_reverted _ = false

abbrev is_privacy_pending : PaymentStage → Bool
is_privacy_pending privacy_checks_pending = true
is_privacy_pending _ = false

abbrev same_bool : Bool → Bool → Bool
same_bool true b = b
same_bool false b = not b

abbrev pub usdc_address : Text
usdc_address = codes "0xaf88d065e77c8cc2239327c5edb3a432268e5831"

-- The one profile of real payments.
abbrev pub is_supported : CheckoutRequest → Bool
is_supported r =
    r.chain_id == 42_161
    && r.decimals == 6
    && text_eq r.token_symbol (codes "USDC")
    && text_eq (to_lower_case r.token_address) usdc_address

-- The descriptor signs the fields of the request.
abbrev pub signs_fields : CheckoutRequest → Bool
signs_fields r =
    r.descriptor.decimals == r.decimals
    && text_eq r.descriptor.amount_atomic r.amount_atomic
    && text_eq r.descriptor.recipient_0zk r.recipient
    && r.descriptor.expires_at == r.expires_at
    && text_eq (to_lower_case r.memo) (memo_prefix ++ to_lower_case r.descriptor.reference)

abbrev pub is_consistent_status : CheckoutRequest → Bool
is_consistent_status r =
    same_bool (is_complete r.status) (is_payment_complete r.payment_stage)
    && not
        (is_complete r.status && ltb (big_int r.received_amount_atomic) (big_int r.amount_atomic))

module _ (ethers : Ethers) where
  abbrev pub or_failure : Option Text → Result CheckoutError Text
  or_failure none = err ethers_failure
  or_failure (some a) = ok a

  -- `sameAddress`, which must hold
  unfoldable pub same_address : Text → Text → Result CheckoutError Text
  same_address a b = do
    left ← or_failure (ethers.get_address a)
    right ← or_failure (ethers.get_address b)
    guard (text_eq left right) fields_differ
    ok left

  abbrev same_as_pinned : Text → Option Text → Result CheckoutError Text
  same_as_pinned signer none = ok signer
  same_as_pinned signer (some pinned) = same_address signer pinned

  unfoldable pub verify_checkout_request :
      CheckoutRequest → Option Text → Result CheckoutError CheckoutRequest
  unfolding satisfies_checkout same_address big_int
  verify_checkout_request r pinned_signer = do
    guard (satisfies_checkout r) bad_request
    signer ← or_failure (ethers.verify_typed_data r.descriptor.payload r.descriptor.signature)
    named ← same_address signer r.descriptor.merchant_signer
    expected ← same_address signer r.expected_merchant_signer
    pinned ← same_as_pinned signer (truthy pinned_signer)
    guard (r.descriptor.version == 1 && r.descriptor.chain_id == r.chain_id) fields_differ
    guard (text_eq r.descriptor.rail r.rail) fields_differ
    token ← same_address r.descriptor.token_address r.token_address
    guard (signs_fields r) fields_differ
    guard (r.simulated || is_supported r) unsupported_profile
    guard (lower_hex_behind (codes "pi_") 32 r.id) invalid_request
    guard (ltb 0 (big_int r.amount_atomic)) invalid_request
    guard (is_consistent_status r) inconsistent_status
    ok r

-- `text.replace(/0+$/, "")`
unfoldable pub strip_zeros : Text → Text
strip_zeros [] = []
strip_zeros (c ∷ s) =
    let rest = strip_zeros s in if c == b'0' && length rest == 0 then [] else c ∷ rest

-- What stands behind the first `n`.
pub drop : ℕ → Text → Text
drop zero s = s
drop (suc n) [] = []
drop (suc n) (c ∷ s) = drop n s

abbrev pad_start : ℕ → Text → Text
pad_start n s = replicate (n - length s) b'0' ++ s

abbrev pad_end : ℕ → Text → Text
pad_end n s = s ++ replicate (n - length s) b'0'

unfoldable pub format_atomic : Text → ℕ → Text
unfolding strip_zeros drop
format_atomic value decimals =
    let text = pad_start (decimals + 1) value in
    let whole = length text - decimals in
    if decimals == 0
    then text
    else take whole text
      ++ codes "."
      ++ pad_end (if ltb decimals 2 then decimals else 2) (strip_zeros (drop whole text))

pub record Presentation : Type 0 where
  pub paid : Bool
  pub expired : Bool
  pub pending : Bool
  pub partial : Bool
  pub remaining : Text
  pub title : Text
  pub message : Text
  pub can_pay : Bool

-- The title and the message, by the first case that holds.
abbrev title_and_message :
    CheckoutRequest → (is_expired is_pending is_partial : Bool) → Text → Text × Text
title_and_message r is_expired is_pending is_partial remaining =
    if intent_status_eq r.status paid
    then (
      codes "Payment complete",
      codes "Your payment has been accepted. You can close this page.",
    )
    else if intent_status_eq r.status paid_late
    then (
      codes "Payment received after expiration",
      codes
          "The merchant must review this payment. Contact the merchant before expecting delivery.",
    )
    else if is_payment_reverted r.payment_stage
    then (
      codes "Payment needs review",
      codes
          "A previously detected transfer was reversed. Contact the merchant before paying again.",
    )
    else if is_privacy_pending r.payment_stage
    then (
      codes "Payment confirmed onchain",
      codes "It cannot be accepted yet. Privacy validation is still pending.",
    )
    else if is_pending
    then (codes "Payment detected", codes "Waiting for confirmation. Do not send another payment.")
    else if is_partial
    then (
      if is_expired
          then codes "Partial payment · request expired"
          else codes "Partial payment received",
      format_atomic remaining r.decimals
          ++ codes " "
          ++ r.token_symbol
          ++ codes " remaining. Ask the merchant how to complete this order.",
    )
    else if is_expired || intent_status_eq r.status expired
    then (
      codes "Payment request expired",
      codes "Contact the merchant to request a new payment link. Do not pay this request.",
    )
    else (
      codes "Awaiting payment",
      if r.simulated
          then codes
              "Use Simulate payment to try acceptance and merchant fulfillment without a wallet or funds."
          else codes "Review the amount, then use a compatible private-payment wallet.",
    )

unfoldable pub checkout_presentation : CheckoutRequest → ℕ → Presentation
unfolding big_int to_text format_atomic
checkout_presentation r now =
    let is_paid = is_complete r.status in
    let is_expired = leb r.expires_at now in
    let is_pending = ltb 0 (big_int r.pending_amount_atomic) in
    let is_partial = not is_paid && ltb 0 (big_int r.received_amount_atomic) in
    let remaining = to_text (big_int r.amount_atomic - big_int r.received_amount_atomic) in
    let shown = title_and_message r is_expired is_pending is_partial remaining in
    record {
      paid = is_paid;
      expired = is_expired;
      pending = is_pending;
      partial = is_partial;
      remaining = remaining;
      title = shown.0;
      message = shown.1;
      can_pay =
          not is_paid
          && not is_expired
          && not is_pending
          && not is_partial
          && intent_status_eq r.status opened
          && is_awaiting_payment r.payment_stage
          && r.reconciliation_ready;
    }
