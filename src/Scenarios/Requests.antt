-- ===== src/Scenarios/Requests.antt =====
-- Memos, amounts, descriptors and requests for intents.
use ppops.Prelude.{
  map, ℕ, ◌<◌, ◌≡◌, ◌↔◌, refl, true, false, ◌++◌, some, replicate, Text, codes, to_lower_case,
  text_eq, ap,
}
use ppops.Prelude.Results.{ok, err}
use ppops.Domain.{rail_name, SignedPaymentDescriptor, PaymentIntentView, IntentProjection, paid}
use ppops.Domain.Amount.{is_positive_atomic_amount, big_int, to_text, is_positive_atomic_amount_iff}
use ppops.Domain.Memo.{
  is_hex_text, memo_prefix, parse_ppops_reference, memo_for_reference, parse-memo_for_reference,
  memo_for_reference-parse,
}
use ppops.Descriptor.{Ethers, satisfies_schema, verify_signed_descriptor, create_signed_descriptor}
use ppops.Descriptor.Trust.{IsTrusted, SignsFor, IsSignable, verify-create_signed_descriptor}
use ppops.Database.{Database, idempotency_conflict, transaction}
use ppops.Database.Intents.{
  initial_projection, get_intent, get_projection, get_intent_idempotency, insert_intent,
  insert_intent_idempotency,
}
use ppops.Intents.{Network, CreateIntentInput, Draws, trim, get, require_view}
use ppops.Intents.Creating.{create_record, create_idempotent, fingerprint_for, is_idempotency_key}
use ppops.Intents.Creating.{verify_descriptor}
use ppops.Intents.Verifying.{verify_descriptor-IsTrusted}
use ppops.Intents.Idempotence.{create_idempotent-retry, create_idempotent-conflict}
use ppops.Scenarios.Shop.{hex64, reference, usdc, signed, shop, digest}

abbrev shouted_reference : Text
shouted_reference = codes "0X" ++ replicate 64 b'A'

parse-memo_for_reference_example :
    parse_ppops_reference (some (memo_prefix ++ to_lower_case shouted_reference))
    ≡ some (to_lower_case shouted_reference)
unfolding memo_for_reference is_hex_text to_lower_case
parse-memo_for_reference_example =
    parse-memo_for_reference shouted_reference (memo_prefix ++ to_lower_case shouted_reference) refl

abbrev shouted_memo : Text
shouted_memo = codes "PPOPS:V1:" ++ shouted_reference

memo_for_reference-parse_example : memo_for_reference reference ≡ ok (to_lower_case shouted_memo)
unfolding parse_ppops_reference is_hex_text to_lower_case
memo_for_reference-parse_example = memo_for_reference-parse shouted_memo reference refl

is_positive_atomic_amount_iff_example :
    (is_positive_atomic_amount (codes "1250") ≡ true)
    ↔ ((n : ℕ) × (0 < n) × (codes "1250" ≡ to_text n) × (big_int (codes "1250") ≡ n))
is_positive_atomic_amount_iff_example = is_positive_atomic_amount_iff (codes "1250")

-- One wallet, whose signature is constant.
abbrev toy_ethers : Ethers
toy_ethers = record {
  get_address = λ a. some (codes "0xBB");
  is_address = λ a. true;
  wallet_address = λ key. some (codes "0xBB");
  sign_typed_data = λ key payload. signed.signature;
  verify_typed_data = λ payload signature. some (codes "0xBB");
}

toy_SignsFor : SignsFor toy_ethers (codes "key") (codes "0xBB")
unfolding is_hex_text
toy_SignsFor = record {
  wallet = refl;
  checksummed = refl;
  address = refl;
  checksum_address = λ a b e. refl;
  recovers = λ p. refl;
  signature_size = λ p. refl;
}

order_IsSignable :
    IsSignable toy_ethers 42161 6 usdc (codes "100") (codes "0zk") shouted_reference 1000 hex64
unfolding is_hex_text big_int
order_IsSignable = record {
  chain = refl;
  token_checksum = codes "0xBB";
  token_address = refl;
  decimals_byte = refl;
  amount_positive = refl;
  amount_bound = refl;
  recipient_size = refl;
  reference_size = refl;
  expiry = refl;
  nonce_size = refl;
}

verify-create_signed_descriptor_example :
    (d : SignedPaymentDescriptor) × (create_signed_descriptor toy_ethers 42161 usdc 6
        (codes "100")
        (codes "0zk")
        shouted_reference
        1000
        hex64
        (codes "key")
      ≡ ok d)
    × (verify_signed_descriptor toy_ethers d (codes "0xBB") ≡ ok (codes "0xBB"))
    × (d.amount_atomic ≡ codes "100")
    × (d.recipient_0zk ≡ codes "0zk")
    × (d.expires_at ≡ 1000)
    × (d.reference ≡ to_lower_case shouted_reference)
verify-create_signed_descriptor_example =
    verify-create_signed_descriptor toy_ethers (codes "key") (codes "0xBB") toy_SignsFor 42161 6
      usdc (codes "100") (codes "0zk") shouted_reference 1000 hex64 order_IsSignable

abbrev network : Network
network = record {
  chain_id = 42161;
  token_address = usdc;
  token_decimals = 6;
  token_symbol = codes "USDC";
}

abbrev request : Text → CreateIntentInput
request amount = record {
  external_reference = codes " order-2 ";
  amount_atomic = amount;
  expires_at = 5000;
}

abbrev draws : Draws
draws = record { reference_hex = replicate 64 b'b'; nonce_hex = hex64; uuid_hex = codes "2" }

abbrev request_text : Text → Text → ℕ → Text
request_text external amount expiry = external ++ amount ++ to_text expiry

abbrev key : Text
key = codes "request-0001"

abbrev undisturbed : Database → Database
undisturbed db = db

-- The intent that the request creates, and its view.
abbrev placed : PaymentIntentView
placed = record {
  intent = record {
    id = codes "pi_2";
    external_reference = codes "order-2";
    reference = codes "0x" ++ replicate 64 b'b';
    chain_id = 42161;
    token_address = codes "0xBB";
    token_symbol = codes "USDC";
    decimals = 6;
    expected_amount_atomic = 7;
    recipient_0zk = codes "0zk";
    expires_at = 5000;
    descriptor = record {
      payload = record {
        version = 1;
        chain_id = 42161;
        rail = rail_name;
        token_address = codes "0xBB";
        decimals = 6;
        amount_atomic = codes "7";
        recipient_0zk = codes "0zk";
        reference = codes "0x" ++ replicate 64 b'b';
        expires_at = 5000;
        nonce = reference;
        merchant_signer = codes "0xBB";
      };
      signature = signed.signature;
    };
    created_at = 100;
  };
  projection = initial_projection (codes "pi_2") 100;
}

-- The tables after it.
abbrev shop_after : Database
shop_after =
    (create_idempotent digest request_text toy_ethers network (codes "0zk") (codes "key")
      (request (codes "7")) key 100 draws undisturbed shop).1

answered :
    create_idempotent digest request_text toy_ethers network
      (codes "0zk")
      (codes "key")
      (request (codes "7"))
      key
      100
      draws
      undisturbed
      shop
    ≡ (ok (placed, false), shop_after)
unfolding create_idempotent is_idempotency_key get_intent_idempotency create_record
    is_positive_atomic_amount create_signed_descriptor verify_signed_descriptor satisfies_schema
    is_hex_text to_lower_case transaction insert_intent insert_intent_idempotency require_view
answered = refl

-- By then the intent is paid.
abbrev paid_shop : Database
paid_shop = record shop_after {
  intent_projections =
      map
        (λ (p : IntentProjection). record p {
          status = paid;
          received_amount_atomic = 7;
          revision = 1;
        })
        shop_after.intent_projections;
}

abbrev placed_and_paid : PaymentIntentView
placed_and_paid = record placed {
  projection = record placed.projection { status = paid; received_amount_atomic = 7; revision = 1 };
}

create_idempotent-retry_example :
    (create_idempotent digest request_text toy_ethers network
        (codes "0zk")
        (codes "key")
        (request (codes "7"))
        key
        300
        draws
        undisturbed
        paid_shop
      ≡ (ok (placed_and_paid, true), paid_shop))
    × (placed_and_paid.intent.id ≡ placed.intent.id)
    × (require_view placed.intent.id shop_after ≡ ok placed)
unfolding require_view get get_intent get_projection get_intent_idempotency create_idempotent
    is_idempotency_key create_record is_positive_atomic_amount create_signed_descriptor
    verify_signed_descriptor satisfies_schema is_hex_text to_lower_case transaction insert_intent
    insert_intent_idempotency
create_idempotent-retry_example =
    create_idempotent-retry digest request_text toy_ethers network (codes "0zk") (codes "key")
      (request (codes "7")) (request (codes "7")) key 100 300 draws draws undisturbed undisturbed
      shop shop_after paid_shop placed placed_and_paid false answered refl refl refl

create_idempotent-conflict_example :
    create_idempotent digest request_text toy_ethers network
      (codes "0zk")
      (codes "key")
      (request (codes "8"))
      key
      300
      draws
      undisturbed
      shop_after
    ≡ (err idempotency_conflict, shop_after)
unfolding fingerprint_for to_text trim
create_idempotent-conflict_example =
    create_idempotent-conflict digest request_text toy_ethers network (codes "0zk") (codes "key")
      (request (codes "7")) (request (codes "8")) key 100 300 draws draws undisturbed undisturbed
      shop shop_after placed false answered
      (λ e. let impossible : true ≡ false = ap (text_eq (codes "order-275000")) e in cc impossible)

verify_descriptor-IsTrusted_example :
    (signer : Text) × (toy_ethers.wallet_address (codes "key") ≡ some signer)
    × IsTrusted toy_ethers signed signer (codes "0xBB")
    × (signed.chain_id ≡ network.chain_id)
    × (to_lower_case signed.token_address ≡ to_lower_case network.token_address)
    × (signed.decimals ≡ network.token_decimals)
    × (signed.recipient_0zk ≡ codes "0zk")
    × (999 < signed.expires_at)
unfolding verify_descriptor verify_signed_descriptor satisfies_schema big_int is_hex_text
    to_lower_case
verify_descriptor-IsTrusted_example =
    verify_descriptor-IsTrusted toy_ethers network (codes "0zk") (codes "key") signed 999
      (codes "0xBB") refl
