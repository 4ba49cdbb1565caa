-- ===== src/Payer/Request/Made.antt =====
-- The intents that the daemon makes, and their descriptors as the payer's tool sees them.
use ppops.Prelude.{
  ℕ, ◌≡◌, refl, ap, ◌∙◌, Bool, true, ◌++◌, Option, none, some, arith, Option-cases, inl, inr, Text,
  codes, text_eq_refl, to_lower_case,
}
use ppops.Prelude.Results.{Result, ok, err, ok-inj, >>=-eq-ok}
use ppops.Domain.{PaymentDescriptorPayload, SignedPaymentDescriptor, PaymentIntentRecord, rail_name}
use ppops.Domain.Amount.{big_int}
use ppops.Domain.Memo.{is_reference, is_reference-to_lower_case, memo_prefix, strip_prefix}
use ppops.Descriptor.{
  DescriptorError, Ethers, create_signed_descriptor, or_throw, satisfies_schema,
  verify_signed_descriptor,
}
use ppops.Descriptor.Trust.{IsTrusted}
use ppops.Intents.{CreateIntentInput, Draws, Network, or_rejected}
use ppops.Intents.Creating.{prepare_record}
use ppops.Payer.Request.{is_memo, is_zk_recipient, payer_schema, verify_descriptor_of_payer}

or_rejected-eq-ok {ℓ} :
    {A : Type ℓ} (r : Result DescriptorError A) (a : A) → or_rejected r ≡ ok a → r ≡ ok a
or_rejected-eq-ok (err e) a h = cc
or_rejected-eq-ok (ok b) a h = ap ok (ok-inj refl h)

or_throw-eq-ok :
    (ethers : Ethers) (o : Option Text) (a : Text) → or_throw ethers o ≡ ok a → o ≡ some a
or_throw-eq-ok ethers none a h = cc
or_throw-eq-ok ethers (some b) a h = ap some (ok-inj refl h)

module _ (ethers : Ethers) (network : Network) (recipient_0zk key signer : Text)
    (input : CreateIntentInput) (external_reference : Text) (now : ℕ) (draws : Draws) where
  abbrev drawn_reference : Text
  drawn_reference = codes "0x" ++ draws.reference_hex

  abbrev payload_of : Text → PaymentDescriptorPayload
  payload_of token = record {
    version = 1;
    chain_id = network.chain_id;
    rail = rail_name;
    token_address = token;
    decimals = network.token_decimals;
    amount_atomic = input.amount_atomic;
    recipient_0zk = recipient_0zk;
    reference = to_lower_case drawn_reference;
    expires_at = input.expires_at;
    nonce = codes "0x" ++ draws.nonce_hex;
    merchant_signer = signer;
  }

  abbrev pub descriptor_of : Text → SignedPaymentDescriptor
  descriptor_of token = record {
    payload = payload_of token;
    signature = ethers.sign_typed_data key (payload_of token);
  }

  abbrev pub made : Text → PaymentIntentRecord
  made token = record {
    id = codes "pi_" ++ draws.uuid_hex;
    external_reference = external_reference;
    reference = drawn_reference;
    chain_id = network.chain_id;
    token_address = token;
    token_symbol = network.token_symbol;
    decimals = network.token_decimals;
    expected_amount_atomic = big_int input.amount_atomic;
    recipient_0zk = recipient_0zk;
    expires_at = input.expires_at;
    descriptor = descriptor_of token;
    created_at = now;
  }

  -- What is signed and verified, of an intent that was prepared.
  pub prepare_record-made :
      (r : PaymentIntentRecord)
      → ethers.wallet_address key ≡ some signer
      → prepare_record ethers network recipient_0zk key input external_reference now draws ≡ ok r
      → (token verified : Text) × (ethers.get_address network.token_address ≡ some token)
        × (verify_signed_descriptor ethers (descriptor_of token) signer ≡ ok verified)
        × (made token ≡ r)
  unfolding prepare_record create_signed_descriptor
  prepare_record-made r wallet h = elim (Option-cases (ethers.get_address network.token_address)) [
    | inl e ↦ cc (rw (wallet, e) at h)
    | inr (token, e) ↦
        let (verified, checked, is) =
          >>=-eq-ok (or_rejected (verify_signed_descriptor ethers (descriptor_of token) signer)) _
            (rw (wallet, e) at h) in
        (token, verified, e, or_rejected-eq-ok _ verified checked, ok-inj refl is)
  ]

  -- The payer's schema asks more of the recipient alone.
  pub payer_schema-made :
      (valid_address : Text → Bool) (token : Text)
      → is_zk_recipient valid_address recipient_0zk ≡ true
      → satisfies_schema ethers (descriptor_of token) ≡ true
      → payer_schema ethers valid_address (descriptor_of token) ≡ true
  unfolding payer_schema satisfies_schema
  payer_schema-made valid_address token recipient h = ground arith

  pub verify_descriptor-made :
      (valid_address : Text → Bool) (token verified : Text)
      → is_zk_recipient valid_address recipient_0zk ≡ true
      → IsTrusted ethers (descriptor_of token) signer verified
      → verify_descriptor_of_payer ethers valid_address (descriptor_of token) signer ≡ ok verified
  unfolding verify_descriptor_of_payer
  verify_descriptor-made valid_address token verified recipient t =
      let admitted = payer_schema-made valid_address token recipient t.schema in
      rw (admitted, t.signature, t.expected_address, t.recovered_address, text_eq_refl t.trusted)
        refl

pub is_memo-printed :
    (reference : Text)
    → is_reference reference ≡ true
    → is_memo (memo_prefix ++ to_lower_case reference) ≡ true
unfolding is_memo strip_prefix
is_memo-printed reference h = is_reference-to_lower_case reference ∙ h

pub lower-printed :
    (reference : Text)
    → to_lower_case (memo_prefix ++ to_lower_case reference)
      ≡ memo_prefix ++ to_lower_case (to_lower_case reference)
unfolding to_lower_case
lower-printed reference = refl
