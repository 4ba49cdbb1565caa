-- ===== src/Payer/Request/Accepting.antt =====
-- The checkout page and the payer's tool on one request.
use ppops.Prelude.{
  ℕ, zero, ◌≡◌, ◌↔◌, refl, ap, sym, ◌∙◌, Bool, true, false, not, Option, none, some, arith, ltb,
  Bool-cases, inl, inr, Text, codes, text_eq, text_eq_iff,
}
use ppops.Prelude.Results.{ok, guarded}
use ppops.Domain.{IntentStatus, opened, partial, paid, expired, paid_late, intent_status_eq}
use ppops.Domain.Amount.{big_int, is_canonical, to_text, big_int-to_text, to_text-big_int}
use ppops.Descriptor.{Ethers}
use ppops.Database.{Database}
use ppops.Checkout.{
  CheckoutRequest, PaymentStage, awaiting_payment, payment_detected, privacy_checks_pending,
  payment_complete, payment_reverted, request_json, is_complete,
}
use ppops.Checkout.Page.{checkout_presentation, is_awaiting_payment}
use ppops.Checkout.Serving.{request_json-texts}
use ppops.Payer.Request.{
  PaymentRequest, not_payable, is_payable, may_await, verify_payment_request,
  verify_payment_request_descriptor,
}

abbrev stage_text : PaymentStage → Text
stage_text awaiting_payment = codes "AWAITING_PAYMENT"
stage_text payment_detected = codes "PAYMENT_DETECTED"
stage_text privacy_checks_pending = codes "PRIVACY_CHECKS_PENDING"
stage_text payment_complete = codes "PAYMENT_COMPLETE"
stage_text payment_reverted = codes "PAYMENT_REVERTED"

abbrev simulated_flag : Bool → Option Bool
simulated_flag true = some true
simulated_flag false = none

-- The request as the payer's schema reads it from the JSON that the route serves.
abbrev pub as_payment_request : CheckoutRequest → PaymentRequest
as_payment_request r = record {
  id = r.id;
  chain_id = r.chain_id;
  token_address = r.token_address;
  token_symbol = r.token_symbol;
  decimals = r.decimals;
  amount_atomic = r.amount_atomic;
  amount_formatted = r.amount_formatted;
  received_amount_atomic = r.received_amount_atomic;
  pending_amount_atomic = r.pending_amount_atomic;
  status = r.status;
  expires_at = r.expires_at;
  rail = r.rail;
  recipient = r.recipient;
  memo = r.memo;
  descriptor = r.descriptor;
  expected_merchant_signer = r.expected_merchant_signer;
  reconciliation_ready = some r.reconciliation_ready;
  payment_stage = some (stage_text r.payment_stage);
  simulated = simulated_flag r.simulated;
}

may_await-stage_text : (s : PaymentStage) → may_await (some (stage_text s)) ≡ is_awaiting_payment s
may_await-stage_text awaiting_payment = refl
may_await-stage_text payment_detected = refl
may_await-stage_text privacy_checks_pending = refl
may_await-stage_text payment_complete = refl
may_await-stage_text payment_reverted = refl

to_text-zero : to_text zero ≡ codes "0"
unfolding to_text
to_text-zero = refl

big_int-zero : big_int (codes "0") ≡ zero
big_int-zero = ap big_int (sym to_text-zero) ∙ big_int-to_text 0

-- A canonical text is "0" where its number is.
zero_text : (s : Text) → is_canonical s ≡ true → text_eq s (codes "0") ≡ not (ltb 0 (big_int s))
zero_text s h = elim (Bool-cases (ltb 0 (big_int s))) [
  | inl e ↦ elim (Bool-cases (text_eq s (codes "0"))) [
    | inl same ↦
        absurd (ground (arith, ap big_int ((text_eq_iff s (codes "0")).0 same), big_int-zero))
    | inr apart ↦ rw (e, apart) refl
  ]
  | inr e ↦
      let none_at_all : big_int s ≡ 0 = ground arith in
      let same : s ≡ codes "0" =
        sym (to_text-big_int s h) ∙ ap to_text none_at_all ∙ to_text-zero in
      rw (e, (text_eq_iff s (codes "0")).1 same) refl
]

opened-incomplete : (s : IntentStatus) → intent_status_eq s opened ≡ true → is_complete s ≡ false
opened-incomplete opened h = refl
opened-incomplete partial h = refl
opened-incomplete paid h = cc
opened-incomplete expired h = refl
opened-incomplete paid_late h = cc

can_pay-is_payable :
    (r : CheckoutRequest) (now : ℕ)
    → is_canonical r.received_amount_atomic ≡ true
    → is_canonical r.pending_amount_atomic ≡ true
    → (checkout_presentation r now).can_pay ≡ is_payable (as_payment_request r) now
unfolding checkout_presentation is_payable
can_pay-is_payable r now received pending = ground (
  arith,
  zero_text r.received_amount_atomic received,
  zero_text r.pending_amount_atomic pending,
  opened-incomplete r.status,
  may_await-stage_text r.payment_stage,
)

module _ (ethers : Ethers) (valid_address : Text → Bool) (format_units : Text → ℕ → Text) where
  verify_payment_request_iff :
      (q : PaymentRequest) (signer : Text) (now : ℕ)
      → verify_payment_request_descriptor ethers valid_address format_units q signer ≡ ok q
      → (verify_payment_request ethers valid_address format_units q signer now ≡ ok q)
        ↔ (is_payable q now ≡ true)
  unfolding verify_payment_request
  verify_payment_request_iff q signer now verified = (
    λ h. (guarded (is_payable q now) not_payable _ (rw verified at h)).0,
    λ p. rw (verified, p) refl,
  )

  -- Of a request that the daemon serves, and whose descriptor the payer's tool verifies for the
  -- signer it trusts, the checkout page says that it can be paid exactly when the payer's tool
  -- accepts it, at any time.
  pub can_pay-verify_payment_request :
      (id : Text) (ready demo : Bool) (db : Database) (r : CheckoutRequest) (signer : Text)
      (now : ℕ)
      → request_json format_units id ready demo db ≡ ok r
      → verify_payment_request_descriptor ethers valid_address format_units
          (as_payment_request r)
          signer
        ≡ ok (as_payment_request r)
      → ((checkout_presentation r now).can_pay ≡ true) ↔ (
          verify_payment_request ethers valid_address format_units (as_payment_request r) signer now
          ≡ ok (as_payment_request r))
  can_pay-verify_payment_request id ready demo db r signer now served verified =
      let (received, pending) = request_json-texts format_units id ready demo db r served in
      let same = can_pay-is_payable r now received pending in
      let (payable, accepts) =
        verify_payment_request_iff (as_payment_request r) signer now verified in
      (λ h. accepts (sym same ∙ h), λ h. same ∙ payable h)
