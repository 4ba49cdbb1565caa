-- ===== src/Checkout.antt =====
-- src/api/payin.ts, the checkout routes of src/api/app.ts and src/api/checkout-model.ts: the payment
-- request that the daemon serves, and what the checkout page makes of it. `format_units` is that of
-- ethers. The page's clock is in whole seconds; a request expires at a whole second.
pub mod Page
pub mod Serving
use ppops.Prelude.{
  ℕ, ◌+◌, ◌≡◌, Bool, true, false, not, ◌&&◌, ◌||◌, List, Option, none, some, ltb, leb, any, filter,
  if◌then◌else◌, Text, codes, option_text_eq, sum_of,
}
use ppops.Prelude.Results.{Result, ok, err, ◌>>=◌}
use ppops.Domain.{
  IntentStatus, paid, paid_late, PaymentIntentView, SettlementRecord, SignedPaymentDescriptor,
  is_finalized, is_matched, is_reverted, is_spendable, rail_name,
}
use ppops.Domain.Amount.{to_text}
use ppops.Domain.Memo.{memo_for_reference}
use ppops.Database.{Database, Failure}
use ppops.Database.Settlements.{list_settlements_for_intent}
use ppops.Intents.{get}

pub data PaymentStage : Type 0 where
  awaiting_payment payment_detected privacy_checks_pending payment_complete : PaymentStage
  payment_reverted : PaymentStage

-- status === "PAID" || status === "PAID_LATE"
abbrev pub is_complete : IntentStatus → Bool
is_complete paid = true
is_complete paid_late = true
is_complete _ = false

abbrev matched_to : Text → SettlementRecord → Bool
matched_to id s = is_matched s.match_status && option_text_eq s.intent_id (some id)

abbrev awaits_privacy : SettlementRecord → Bool
awaits_privacy s = is_finalized s.chain_status && not (is_spendable s.poi_status)

unfoldable pub payment_stage : PaymentIntentView → List SettlementRecord → PaymentStage
payment_stage v settlements =
    let matched = filter (matched_to v.intent.id) settlements in
    let finalized_pending = sum_of (λ s. s.amount_atomic) (filter awaits_privacy matched) in
    if is_complete v.projection.status
    then payment_complete
    else if ltb 0 finalized_pending
        && leb v.intent.expected_amount_atomic
            (finalized_pending + v.projection.received_amount_atomic)
    then privacy_checks_pending
    else if ltb 0 v.projection.pending_amount_atomic
    then payment_detected
    else if any (λ s. is_reverted s.chain_status) matched
    then payment_reverted
    else awaiting_payment

-- `CheckoutRequest`, what the route serves.
pub record CheckoutRequest : Type 0 where
  pub id : Text
  pub chain_id : ℕ
  pub token_address : Text
  pub token_symbol : Text
  pub decimals : ℕ
  pub amount_atomic : Text
  pub amount_formatted : Text
  pub received_amount_atomic : Text
  pub pending_amount_atomic : Text
  pub status : IntentStatus
  pub expires_at : ℕ
  pub rail : Text
  pub recipient : Text
  pub memo : Text
  pub descriptor : SignedPaymentDescriptor
  pub expected_merchant_signer : Text
  pub reconciliation_ready : Bool
  pub payment_stage : PaymentStage
  pub overpayment_amount_atomic : Text
  pub simulated : Bool

-- What the route answers where it does not serve a request.
pub data RouteError : Type 0 where
  not_found internal_error : RouteError

abbrev pub or_internal {ℓ κ} : {E : Type ℓ} {A : Type κ} → Result E A → Result RouteError A
or_internal (ok a) = ok a
or_internal (err e) = err internal_error

abbrev pub or_not_found : Option PaymentIntentView → Result RouteError PaymentIntentView
or_not_found none = err not_found
or_not_found (some v) = ok v

module _ (format_units : Text → ℕ → Text) where
  abbrev pub served_request :
      PaymentIntentView → List SettlementRecord → Bool → Bool → Text → CheckoutRequest
  served_request v settlements ready demo memo = record {
    id = v.intent.id;
    chain_id = v.intent.chain_id;
    token_address = v.intent.token_address;
    token_symbol = v.intent.token_symbol;
    decimals = v.intent.decimals;
    amount_atomic = to_text v.intent.expected_amount_atomic;
    amount_formatted = format_units (to_text v.intent.expected_amount_atomic) v.intent.decimals;
    received_amount_atomic = to_text v.projection.received_amount_atomic;
    pending_amount_atomic = to_text v.projection.pending_amount_atomic;
    status = v.projection.status;
    expires_at = v.intent.expires_at;
    rail = rail_name;
    recipient = v.intent.recipient_0zk;
    memo = memo;
    descriptor = v.intent.descriptor;
    expected_merchant_signer = v.intent.descriptor.merchant_signer;
    reconciliation_ready = ready;
    payment_stage = payment_stage v settlements;
    overpayment_amount_atomic = to_text v.projection.overpayment_amount_atomic;
    simulated = demo;
  }

  -- `checkoutIntent`, with the fields that the route adds
  unfoldable pub checkout_intent :
      PaymentIntentView → List SettlementRecord → Bool → Bool → Result RouteError CheckoutRequest
  unfolding payment_stage
  checkout_intent v settlements ready demo = do
    memo ← or_internal (memo_for_reference v.intent.reference)
    ok (served_request v settlements ready demo memo)

  -- GET /pay/:id/request.json
  unfoldable pub request_json : Text → Bool → Bool → Database → Result RouteError CheckoutRequest
  unfolding checkout_intent get list_settlements_for_intent
  request_json id ready demo db = do
    found ← or_internal (get id db)
    v ← or_not_found found
    checkout_intent v (list_settlements_for_intent v.intent.id db) ready demo
