-- ===== src/Descriptor/Trust.antt =====
-- What is known of verified descriptors and of those that the merchant signs.
use ppops.Prelude.{
  ℕ, ◌≡◌, refl, true, ◌&&◌, ◌++◌, Option, none, some, arith, leb, Option-cases, inl, inr, length,
  Text, codes, text_eq_iff, text_eq_refl, to_lower_case,
}
use ppops.Prelude.Results.{ok}
use ppops.Domain.{PaymentDescriptorPayload, SignedPaymentDescriptor, rail_name}
use ppops.Domain.Amount.{big_int}
use ppops.Domain.Memo.{is_hex_text, is_reference, is_reference-to_lower_case}
use ppops.Descriptor.{
  Ethers, max_uint256, is_positive_safe, is_positive_decimal, satisfies_schema, or_throw,
  verify_signed_descriptor, create_signed_descriptor,
}

-- What is known of a descriptor that was verified for `expected`.
pub record IsTrusted (ethers : Ethers) (d : SignedPaymentDescriptor) (expected recovered : Text)
    : Type 0 where
  pub schema : satisfies_schema ethers d ≡ true
  pub signature : ethers.verify_typed_data d.payload d.signature ≡ some recovered
  pub trusted : Text
  pub expected_address : ethers.get_address expected ≡ some trusted
  pub named_address : ethers.get_address d.merchant_signer ≡ some trusted
  pub recovered_address : ethers.get_address recovered ≡ some trusted

or_throw-eq-ok :
    (ethers : Ethers) (o : Option Text) (a : Text) → or_throw ethers o ≡ ok a → o ≡ some a
or_throw-eq-ok ethers none a h = cc
or_throw-eq-ok ethers (some b) a h = cc

module _ (ethers : Ethers) (d : SignedPaymentDescriptor) (expected : Text) where
  -- A descriptor is verified only if it satisfies the schema, its signature recovers to an
  -- address, and that address and the signer that the descriptor names are both the one that the
  -- caller expects; the recovered address is returned.
  pub verify_signed_descriptor-IsTrusted :
      (recovered : Text)
      → verify_signed_descriptor ethers d expected ≡ ok recovered
      → IsTrusted ethers d expected recovered
  unfolding verify_signed_descriptor
  verify_signed_descriptor-IsTrusted recovered h =
      let expected_address = Option-cases (ethers.get_address expected) in
      let named_address = Option-cases (ethers.get_address d.merchant_signer) in
      let recovered_address = Option-cases (ethers.get_address recovered) in
      let signature : ethers.verify_typed_data d.payload d.signature ≡ some recovered =
        ground arith in
      elim expected_address [
        | inl e ↦ absurd (ground arith)
        | inr (t, e) ↦ elim named_address [
          | inl e' ↦ absurd (ground arith)
          | inr (n, e') ↦ elim recovered_address [
            | inl e'' ↦ absurd (ground arith)
            | inr (r, e'') ↦ record {
              schema = ground arith;
              signature = signature;
              trusted = t;
              expected_address = e;
              named_address = ground (arith, text_eq_iff n t);
              recovered_address = ground (arith, text_eq_iff r t);
            }
          ]
        ]
      ]

-- What is relied on of ethers: a wallet's address is a checksummed address, what the wallet of a
-- key signs recovers to its address, and a signature is 65 bytes in hexadecimal.
pub record SignsFor (ethers : Ethers) (key signer : Text) : Type 0 where
  pub wallet : ethers.wallet_address key ≡ some signer
  pub checksummed : ethers.get_address signer ≡ some signer
  pub address : ethers.is_address signer ≡ true
  pub checksum_address : (a b : Text) → ethers.get_address a ≡ some b → ethers.is_address b ≡ true
  pub recovers :
      (p : PaymentDescriptorPayload)
      → ethers.verify_typed_data p (ethers.sign_typed_data key p) ≡ some signer
  pub signature_size :
      (p : PaymentDescriptorPayload) → is_hex_text 130 (ethers.sign_typed_data key p) ≡ true

-- The inputs of a descriptor that the schema admits.
pub record IsSignable (ethers : Ethers) (chain_id decimals : ℕ)
    (token amount recipient reference : Text) (expires_at : ℕ) (nonce_hex : Text) : Type 0 where
  pub chain : is_positive_safe chain_id ≡ true
  pub token_checksum : Text
  pub token_address : ethers.get_address token ≡ some token_checksum
  pub decimals_byte : leb decimals 255 ≡ true
  pub amount_positive : is_positive_decimal amount ≡ true
  pub amount_bound : leb (big_int amount) max_uint256 ≡ true
  pub recipient_size : (leb 1 (length recipient) && leb (length recipient) 512) ≡ true
  pub reference_size : is_reference reference ≡ true
  pub expiry : is_positive_safe expires_at ≡ true
  pub nonce_size : is_reference (codes "0x" ++ nonce_hex) ≡ true

module _ (ethers : Ethers) (key signer : Text) (signs : SignsFor ethers key signer)
    (chain_id decimals : ℕ) (token amount recipient reference : Text) (expires_at : ℕ)
    (nonce_hex : Text)
    (fits : IsSignable ethers chain_id decimals token amount recipient reference expires_at
      nonce_hex) where
  abbrev payload : PaymentDescriptorPayload
  payload = record {
    version = 1;
    chain_id = chain_id;
    rail = rail_name;
    token_address = fits.token_checksum;
    decimals = decimals;
    amount_atomic = amount;
    recipient_0zk = recipient;
    reference = to_lower_case reference;
    expires_at = expires_at;
    nonce = codes "0x" ++ nonce_hex;
    merchant_signer = signer;
  }

  abbrev created : SignedPaymentDescriptor
  created = record { payload = payload; signature = ethers.sign_typed_data key payload }

  created-schema : satisfies_schema ethers created ≡ true
  unfolding satisfies_schema
  created-schema =
      rw
        (
          fits.chain,
          signs.checksum_address token fits.token_checksum fits.token_address,
          fits.decimals_byte,
          fits.amount_positive,
          fits.amount_bound,
          is_reference-to_lower_case reference,
          fits.reference_size,
          fits.expiry,
          fits.nonce_size,
          signs.address,
          signs.signature_size payload,
        )
        (ground (arith, fits.recipient_size))

  -- With a key that ethers signs for, a descriptor is made of inputs that the schema admits, it
  -- carries their amount, recipient, expiry and lower-case reference, and it is verified for the
  -- key's own address.
  pub verify-create_signed_descriptor :
      (d : SignedPaymentDescriptor) × (create_signed_descriptor ethers chain_id token decimals
          amount recipient reference expires_at nonce_hex key
        ≡ ok d)
      × (verify_signed_descriptor ethers d signer ≡ ok signer)
      × (d.amount_atomic ≡ amount)
      × (d.recipient_0zk ≡ recipient)
      × (d.expires_at ≡ expires_at)
      × (d.reference ≡ to_lower_case reference)
  unfolding create_signed_descriptor verify_signed_descriptor
  verify-create_signed_descriptor = (
    created,
    rw (signs.wallet, fits.token_address),
    rw (created-schema, signs.recovers payload, signs.checksummed, text_eq_refl signer),
    refl,
    refl,
    refl,
    refl,
  )
