-- ===== src/Intents/Creating.antt =====
-- src/intents/service.ts: from a request to its intent, and `verifyDescriptor`.
use ppops.Prelude.{
  ℕ, Bool, true, false, ◌&&◌, ◌||◌, ◌++◌, Option, none, some, ltb, leb, ◌==◌, if◌then◌else◌, length,
  all, Text, codes, text_eq, to_lower_case,
}
use ppops.Prelude.Results.{Result, ok, err, ◌>>=◌, ◌>>◌, guard}
use ppops.Domain.{SignedPaymentDescriptor, PaymentIntentRecord, PaymentIntentView}
use ppops.Domain.Amount.{big_int}
use ppops.Descriptor.{Ethers, or_throw, create_signed_descriptor, verify_signed_descriptor}
use ppops.Database.{
  Database, Failure, invalid_idempotency_key, unexpected_replay, wrong_instance, descriptor_expired,
}
use ppops.Intents.{
  CreateIntentInput, Creation, Draws, Idempotency, Network, commit_record, created, look_up,
  or_rejected, replayed, require_view, trim, validate_input,
}

module _ (ethers : Ethers) (network : Network) (recipient_0zk merchant_private_key : Text) where
  -- From the checked input to the record: the descriptor is signed and verified.
  unfoldable pub prepare_record :
      CreateIntentInput → Text → ℕ → Draws → Result Failure PaymentIntentRecord
  prepare_record input external_reference now draws = do
    let reference = codes "0x" ++ draws.reference_hex
    merchant_signer ← or_rejected (or_throw ethers (ethers.wallet_address merchant_private_key))
    descriptor ← or_rejected (
        create_signed_descriptor ethers network.chain_id network.token_address
          network.token_decimals input.amount_atomic recipient_0zk reference input.expires_at
          draws.nonce_hex merchant_private_key)
    verified ← or_rejected (verify_signed_descriptor ethers descriptor merchant_signer)
    token_address ← or_rejected (or_throw ethers (ethers.get_address network.token_address))
    ok (record {
      id = codes "pi_" ++ draws.uuid_hex;
      external_reference = external_reference;
      reference = reference;
      chain_id = network.chain_id;
      token_address = token_address;
      token_symbol = network.token_symbol;
      decimals = network.token_decimals;
      expected_amount_atomic = big_int input.amount_atomic;
      recipient_0zk = recipient_0zk;
      expires_at = input.expires_at;
      descriptor = descriptor;
      created_at = now;
    })

  abbrev pub commit_prepared :
      Result Failure PaymentIntentRecord
      → Option Idempotency
      → Database
      → Result Failure Creation × Database
  commit_prepared (err e) idempotency db = (err e, db)
  commit_prepared (ok intent) idempotency db = commit_record intent idempotency db

  abbrev pub create_checked :
      Result Failure Text
      → CreateIntentInput
      → ℕ
      → Option Idempotency
      → Draws
      → (Database → Database)
      → Database
      → Result Failure Creation × Database
  create_checked (err e) input now idempotency draws meanwhile db = (err e, db)
  create_checked (ok external_reference) input now idempotency draws meanwhile db =
      commit_prepared (prepare_record input external_reference now draws) idempotency (meanwhile db)

  unfoldable pub create_record :
      CreateIntentInput
      → ℕ
      → Option Idempotency
      → Draws
      → (Database → Database)
      → Database
      → Result Failure Creation × Database
  unfolding prepare_record commit_record validate_input
  create_record input now idempotency draws meanwhile db =
      create_checked (validate_input input now) input now idempotency draws meanwhile db

  abbrev pub matches_instance : SignedPaymentDescriptor → Bool
  matches_instance d =
      d.chain_id == network.chain_id
      && text_eq (to_lower_case d.token_address) (to_lower_case network.token_address)
      && d.decimals == network.token_decimals
      && text_eq d.recipient_0zk recipient_0zk

  -- `verifyDescriptor`
  unfoldable pub verify_descriptor : SignedPaymentDescriptor → ℕ → Result Failure Text
  verify_descriptor d now = do
    merchant_signer ← or_rejected (or_throw ethers (ethers.wallet_address merchant_private_key))
    recovered ← or_rejected (verify_signed_descriptor ethers d merchant_signer)
    guard (matches_instance d) wrong_instance
    guard (ltb now d.expires_at) descriptor_expired
    ok recovered

  abbrev pub only_created : Result Failure Creation → Result Failure PaymentIntentView
  only_created (err e) = err e
  only_created (ok (created view)) = ok view
  only_created (ok (replayed id)) = err unexpected_replay

  -- `create`, with no idempotency key
  unfoldable pub create :
      CreateIntentInput
      → ℕ
      → Draws
      → (Database → Database)
      → Database
      → Result Failure PaymentIntentView × Database
  unfolding create_record
  create input now draws meanwhile db =
      let (result, db') = create_record input now none draws meanwhile db in
      (only_created result, db')

-- [A-Za-z0-9._:-]
abbrev pub is_key_character : ℕ → Bool
is_key_character c =
    leb b'A' c && leb c b'Z'
    || leb b'a' c && leb c b'z'
    || leb b'0' c && leb c b'9'
    || c == b'.'
    || c == b'_'
    || c == b':'
    || c == b'-'

-- /^[A-Za-z0-9._:-]{8,128}$/
unfoldable pub is_idempotency_key : Text → Bool
is_idempotency_key key = leb 8 (length key) && leb (length key) 128 && all is_key_character key

-- A view, and whether the key had it already.
abbrev pub Reply : Type 0
Reply = PaymentIntentView × Bool

abbrev pub replay_view : Text → Database → Result Failure Reply
replay_view id db = do view ← require_view id db; ok (view, true)

abbrev pub reply_of : Result Failure Creation → Database → Result Failure Reply
reply_of (err e) db = err e
reply_of (ok (created view)) db = ok (view, false)
reply_of (ok (replayed id)) db = replay_view id db

-- `sha256_hex` is node's digest; `request_json` is `JSON.stringify` of the three request fields.
module _ (sha256_hex : Text → Text) (request_json : Text → Text → ℕ → Text) (ethers : Ethers)
    (network : Network) (recipient_0zk merchant_private_key : Text) where
  unfoldable pub fingerprint_for : CreateIntentInput → Text
  fingerprint_for input =
      sha256_hex (request_json (trim input.external_reference) input.amount_atomic input.expires_at)

  abbrev pub idempotency_of : CreateIntentInput → Text → Idempotency
  idempotency_of input key = record {
    idempotency_key = sha256_hex key;
    fingerprint = fingerprint_for input;
  }

  abbrev pub create_unless_known :
      Result Failure (Option Text)
      → CreateIntentInput
      → Text
      → ℕ
      → Draws
      → (Database → Database)
      → Database
      → Result Failure Reply × Database
  create_unless_known (err e) input key now draws meanwhile db = (err e, db)
  create_unless_known (ok (some id)) input key now draws meanwhile db = (replay_view id db, db)
  create_unless_known (ok none) input key now draws meanwhile db =
      let (result, db') =
        create_record ethers network recipient_0zk merchant_private_key input now
          (some (idempotency_of input key)) draws meanwhile db in
      (reply_of result db', db')

  unfoldable pub create_idempotent :
      CreateIntentInput
      → Text
      → ℕ
      → Draws
      → (Database → Database)
      → Database
      → Result Failure Reply × Database
  create_idempotent input key now draws meanwhile db =
      if is_idempotency_key key
      then create_unless_known (look_up (some (idempotency_of input key)) db) input key now draws
          meanwhile db
      else (err invalid_idempotency_key, db)
