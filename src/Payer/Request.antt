-- ===== src/Payer/Request.antt =====
-- tools/ppops-payer/src/request.ts, with the schema and the check of tools/ppops-payer/src/descriptor.ts
-- and the profile of tools/ppops-payer/src/constants.ts. `valid_address` is the RAILGUN library's
-- check of an address; `format_units` is that of ethers.
pub mod Accepting
pub mod Made
pub mod Verified
use ppops.Prelude.{
  ℕ, ◌≡◌, Bool, true, false, not, ◌&&◌, ◌||◌, List, [], ◌∷◌, ◌++◌, Option, none, some, ltb, leb,
  ◌==◌, if◌then◌else◌, length, all, Text, codes, text_eq, option_text_eq, to_lower_case, lower,
}
use ppops.Prelude.Results.{Result, ok, err, ◌>>=◌, ◌>>◌, guard}
use ppops.Domain.{IntentStatus, opened, SignedPaymentDescriptor, intent_status_eq, rail_name}
use ppops.Domain.Amount.{big_int, is_canonical}
use ppops.Domain.Memo.{is_hex_text, is_reference, memo_prefix, strip_prefix}
use ppops.Descriptor.{Ethers, is_positive_decimal, is_positive_safe, max_uint256}
use ppops.Intents.{is_space}
use ppops.Webhook.{lower_hex_behind, strip_text}

-- `PaymentRequest`, what the schema keeps of a request.
pub record PaymentRequest : Type 0 where
  pub id : Text
  pub chain_id : ℕ
  pub token_address : Text
  pub token_symbol : Text
  pub decimals : ℕ
  pub amount_atomic : Text
  pub amount_formatted : Text
  pub received_amount_atomic : Text
  pub pending_amount_atomic : Text
  pub status : IntentStatus
  pub expires_at : ℕ
  pub rail : Text
  pub recipient : Text
  pub memo : Text
  pub descriptor : SignedPaymentDescriptor
  pub expected_merchant_signer : Text
  pub reconciliation_ready : Option Bool
  pub payment_stage : Option Text
  pub simulated : Option Bool

abbrev pub payer_chain_id : ℕ
payer_chain_id = 42_161

abbrev pub payer_token_address : Text
payer_token_address = codes "0xaf88d065e77c8cc2239327c5edb3a432268e5831"

abbrev pub payer_token_symbol : Text
payer_token_symbol = codes "USDC"

abbrev pub payer_token_decimals : ℕ
payer_token_decimals = 6

pub data RequestError : Type 0 where
  bad_request ethers_failure untrusted_signer mismatch not_payable : RequestError

-- /^0zk\S{32,256}$/, of the RAILGUN library's form
unfoldable pub is_zk_recipient : (Text → Bool) → Text → Bool
unfolding strip_text
is_zk_recipient valid_address s = elim (strip_text (codes "0zk") s) [
  | none ↦ false
  | some rest ↦
      leb 32 (length rest)
      && leb (length rest) 256
      && all (λ c. not (is_space c)) rest
      && valid_address s
]

-- /^ppops:v1:0x[0-9a-f]{64}$/i
unfoldable pub is_memo : Text → Bool
unfolding strip_prefix
is_memo s = elim (strip_prefix memo_prefix s) [ none ↦ false | some rest ↦ is_reference rest ]

-- The value is not `true`; is not `false`.
abbrev not_true : Option Bool → Bool
not_true (some true) = false
not_true _ = true

abbrev pub not_false : Option Bool → Bool
not_false (some false) = false
not_false _ = true

abbrev pub may_await : Option Text → Bool
may_await none = true
may_await (some stage) = text_eq stage (codes "AWAITING_PAYMENT")

-- The request may be paid now.
unfoldable pub is_payable : PaymentRequest → ℕ → Bool
is_payable q now =
    intent_status_eq q.status opened
    && text_eq q.received_amount_atomic (codes "0")
    && text_eq q.pending_amount_atomic (codes "0")
    && ltb now q.expires_at
    && not_false q.reconciliation_ready
    && may_await q.payment_stage

module _ (ethers : Ethers) (valid_address : Text → Bool) where
  -- `SignedPaymentDescriptorSchema` of the payer
  unfoldable pub payer_schema : SignedPaymentDescriptor → Bool
  unfolding is_zk_recipient
  payer_schema d =
      d.version == 1
      && is_positive_safe d.chain_id
      && text_eq d.rail rail_name
      && ethers.is_address d.token_address
      && leb d.decimals 255
      && (is_positive_decimal d.amount_atomic && leb (big_int d.amount_atomic) max_uint256)
      && is_zk_recipient valid_address d.recipient_0zk
      && is_reference d.reference
      && is_positive_safe d.expires_at
      && is_reference d.nonce
      && ethers.is_address d.merchant_signer
      && is_hex_text 130 d.signature

  abbrev pub or_throw : Option Text → Result RequestError Text
  or_throw none = err ethers_failure
  or_throw (some a) = ok a

  -- `verifySignedDescriptor` of the payer
  unfoldable pub verify_descriptor_of_payer :
      SignedPaymentDescriptor → Text → Result RequestError Text
  unfolding payer_schema
  verify_descriptor_of_payer d expected_signer = do
    guard (payer_schema d) bad_request
    recovered ← or_throw (ethers.verify_typed_data d.payload d.signature)
    trusted ← or_throw (ethers.get_address expected_signer)
    signer ← or_throw (ethers.get_address d.merchant_signer)
    guard (text_eq signer trusted) untrusted_signer
    address ← or_throw (ethers.get_address recovered)
    guard (text_eq address trusted) untrusted_signer
    ok recovered

  -- `PaymentRequestSchema`
  unfoldable pub satisfies_request : PaymentRequest → Bool
  unfolding payer_schema is_zk_recipient is_memo
  satisfies_request q =
      lower_hex_behind (codes "pi_") 32 q.id
      && is_positive_safe q.chain_id
      && leb q.decimals 255
      && is_positive_decimal q.amount_atomic
      && (leb 1 (length q.amount_formatted) && leb (length q.amount_formatted) 128)
      && is_canonical q.received_amount_atomic
      && is_canonical q.pending_amount_atomic
      && is_positive_safe q.expires_at
      && text_eq q.rail rail_name
      && is_zk_recipient valid_address q.recipient
      && is_memo q.memo
      && payer_schema q.descriptor

-- The comparisons of `verifyPaymentRequestDescriptor`, the signers' aside
unfoldable pub signs_request : (Text → ℕ → Text) → PaymentRequest → Bool
signs_request format_units q =
    not_true q.simulated
    && q.descriptor.expires_at == q.expires_at
    && q.chain_id == payer_chain_id
    && q.descriptor.chain_id == q.chain_id
    && text_eq (to_lower_case q.token_address) payer_token_address
    && text_eq (to_lower_case q.descriptor.token_address) (to_lower_case q.token_address)
    && text_eq q.token_symbol payer_token_symbol
    && q.decimals == payer_token_decimals
    && q.descriptor.decimals == q.decimals
    && text_eq q.descriptor.amount_atomic q.amount_atomic
    && text_eq q.amount_formatted (format_units q.amount_atomic q.decimals)
    && text_eq q.descriptor.recipient_0zk q.recipient
    && text_eq (to_lower_case q.memo) (memo_prefix ++ to_lower_case q.descriptor.reference)

module _ (ethers : Ethers) (valid_address : Text → Bool) (format_units : Text → ℕ → Text) where
  unfoldable pub verify_payment_request_descriptor :
      PaymentRequest → Text → Result RequestError PaymentRequest
  unfolding satisfies_request verify_descriptor_of_payer signs_request
  verify_payment_request_descriptor q expected_signer = do
    guard (satisfies_request ethers valid_address q) bad_request
    recovered ← verify_descriptor_of_payer ethers valid_address q.descriptor expected_signer
    guard (signs_request format_units q) mismatch
    named ← or_throw ethers valid_address (ethers.get_address q.expected_merchant_signer)
    trusted ← or_throw ethers valid_address (ethers.get_address expected_signer)
    guard (text_eq named trusted) mismatch
    ok q

  unfoldable pub verify_payment_request :
      PaymentRequest → Text → ℕ → Result RequestError PaymentRequest
  unfolding verify_payment_request_descriptor is_payable
  verify_payment_request q expected_signer now = do
    request ← verify_payment_request_descriptor q expected_signer
    guard (is_payable request now) not_payable
    ok request
