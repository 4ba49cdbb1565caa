-- ===== src/Scenarios/Buying.antt =====
-- A request that the daemon serves, the checkout page that shows it and the payer's tool.
use ppops.Prelude.{
  ℕ, ◌≡◌, ◌↔◌, refl, Bool, true, false, [], ◌∷◌, ◌++◌, some, replicate, Text, codes, text_eq,
  if◌then◌else◌, to_lower_case,
}
use ppops.Prelude.Results.{ok}
use ppops.Domain.{PaymentIntentRecord, PaymentIntentView, SignedPaymentDescriptor, rail_name}
use ppops.Domain.Amount.{big_int, is_canonical, is_positive_atomic_amount, to_text}
use ppops.Domain.Memo.{is_hex_text, memo_for_reference}
use ppops.Prelude.Sorting.{sort}
use ppops.Database.{Database, empty}
use ppops.Database.Intents.{get_intent, get_projection, initial_projection}
use ppops.Descriptor.{Ethers, create_signed_descriptor, satisfies_schema, verify_signed_descriptor}
use ppops.Checkout.{CheckoutRequest, request_json, served_request, payment_stage}
use ppops.Checkout.Page.{checkout_presentation, format_atomic, is_consistent_status, usdc_address}
use ppops.Checkout.Serving.{request_json-consistent}
use ppops.Payer.Request.{verify_payment_request, verify_payment_request_descriptor}
use ppops.Payer.Request.Accepting.{as_payment_request, can_pay-verify_payment_request}
use ppops.Descriptor.Trust.{SignsFor}
use ppops.Intents.{CreateIntentInput, Draws, Network, validate_input}
use ppops.Intents.Creating.{prepare_record}
use ppops.Payer.Request.{is_zk_recipient}
use ppops.Payer.Request.Verified.{FitsPayer, verify-checkout_intent}
use ppops.Checkout.{checkout_intent}
use ppops.Scenarios.Shop.{hex64, order, reference, shop, shop-IsCoherent}

abbrev signer : Text
signer = codes "0xBB"

-- Any text is an address, that of the merchant if it is not the token's, and every signature is the
-- merchant's.
abbrev trusting_ethers : Ethers
trusting_ethers = record {
  get_address = λ a. if text_eq a usdc_address then some usdc_address else some signer;
  is_address = λ a. true;
  wallet_address = λ key. some signer;
  sign_typed_data = λ key payload. codes "0x" ++ replicate 130 b'0';
  verify_typed_data = λ payload signature. some signer;
}

abbrev any_address : Text → Bool
any_address text = true

abbrev plain_units : Text → ℕ → Text
plain_units text decimals = text

abbrev zk_address : Text
zk_address = codes "0zk" ++ replicate 40 b'q'

abbrev sale_id : Text
sale_id = codes "pi_" ++ replicate 32 b'a'

abbrev sale_descriptor : SignedPaymentDescriptor
sale_descriptor = record {
  payload = record {
    version = 1;
    chain_id = 42161;
    rail = rail_name;
    token_address = usdc_address;
    decimals = 6;
    amount_atomic = codes "100";
    recipient_0zk = zk_address;
    reference = reference;
    expires_at = 1000;
    nonce = reference;
    merchant_signer = signer;
  };
  signature = codes "0x" ++ replicate 130 b'0';
}

abbrev sale : PaymentIntentRecord
sale = record order {
  id = sale_id;
  token_address = usdc_address;
  recipient_0zk = zk_address;
  descriptor = sale_descriptor;
}

abbrev store : Database
store = record empty {
  payment_intents = sale ∷ [];
  intent_projections = initial_projection sale_id 10 ∷ [];
}

abbrev sale_view : PaymentIntentView
sale_view = record { intent = sale; projection = initial_projection sale_id 10 }

abbrev served : CheckoutRequest
served = served_request plain_units sale_view [] true false (codes "ppops:v1:" ++ reference)

can_pay-verify_payment_request_example : ((checkout_presentation served 500).can_pay ≡ true) ↔ (
    verify_payment_request trusting_ethers any_address plain_units
      (as_payment_request served)
      signer
      500
    ≡ ok (as_payment_request served))
unfolding request_json verify_payment_request_descriptor get_intent get_projection
    memo_for_reference is_hex_text to_lower_case sort to_text is_canonical big_int
can_pay-verify_payment_request_example =
    can_pay-verify_payment_request trusting_ethers any_address plain_units sale_id true false store
      served signer 500 refl refl

served_can_pay : (checkout_presentation served 500).can_pay ≡ true
unfolding checkout_presentation payment_stage
served_can_pay = refl

dollars_and_cents : format_atomic (codes "1230000") 6 ≡ codes "1.23"
unfolding format_atomic
dollars_and_cents = refl

request_json-consistent_example :
    is_consistent_status (
      served_request plain_units
        (record { intent = order; projection = initial_projection order.id 10 })
        []
        true
        false
        (codes "ppops:v1:" ++ reference))
    ≡ true
unfolding request_json get_intent get_projection memo_for_reference is_hex_text to_lower_case sort
    to_text
request_json-consistent_example =
    request_json-consistent plain_units order.id true false shop
      (served_request plain_units
        (record { intent = order; projection = initial_projection order.id 10 }) [] true false
        (codes "ppops:v1:" ++ reference))
      shop-IsCoherent refl

abbrev daemon_network : Network
daemon_network = record {
  chain_id = 42161;
  token_address = usdc_address;
  token_decimals = 6;
  token_symbol = codes "USDC";
}

abbrev sale_draws : Draws
sale_draws = record { reference_hex = hex64; nonce_hex = hex64; uuid_hex = replicate 32 b'a' }

abbrev sale_input : CreateIntentInput
sale_input = record {
  external_reference = codes "order-1";
  amount_atomic = codes "100";
  expires_at = 1000;
}

trusting_SignsFor : SignsFor trusting_ethers (codes "key") signer
unfolding is_hex_text
trusting_SignsFor = record {
  wallet = refl;
  checksummed = refl;
  address = refl;
  checksum_address = λ a b e. refl;
  recovers = λ p. refl;
  signature_size = λ p. refl;
}

sale_FitsPayer : FitsPayer daemon_network any_address zk_address sale_draws
unfolding is_zk_recipient to_lower_case
sale_FitsPayer = record {
  chain = refl;
  token = refl;
  symbol = refl;
  decimals = refl;
  recipient = refl;
  uuid = refl;
}

verify-checkout_intent_example :
    verify_payment_request_descriptor trusting_ethers any_address plain_units
      (as_payment_request served)
      signer
    ≡ ok (as_payment_request served)
unfolding prepare_record validate_input is_positive_atomic_amount create_signed_descriptor
    verify_signed_descriptor satisfies_schema is_hex_text to_lower_case checkout_intent
    memo_for_reference
verify-checkout_intent_example =
    verify-checkout_intent trusting_ethers any_address plain_units daemon_network zk_address
      (codes "key") signer sale_input (codes "order-1") 10 sale_draws sale
      (initial_projection sale_id 10) [] true served trusting_SignsFor (λ token e. cc)
      sale_FitsPayer refl refl refl refl
