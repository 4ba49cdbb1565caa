-- ===== src/Descriptor.antt =====
-- src/security/descriptor.ts: the signed payment descriptor. Signing, recovery and address
-- checksums are those of the ethers library, an argument of the definitions that use them.
pub mod Trust
use ppops.Prelude.{
  ℕ, ◌-◌, ◌^◌, ◌≡◌, Bool, true, false, not, ◌&&◌, ◌||◌, List, [], ◌∷◌, ◌++◌, Option, none, some,
  ltb, leb, ◌==◌, if◌then◌else◌, is_some, length, all, Text, codes, text_eq, to_lower_case,
}
use ppops.Prelude.Results.{Result, ok, err, ◌>>=◌, ◌>>◌, guard}
use ppops.Domain.{PaymentDescriptorPayload, SignedPaymentDescriptor, rail_name}
use ppops.Domain.Amount.{is_digit, big_int}
use ppops.Domain.Memo.{is_hex_text, is_reference}

-- What the code calls of ethers; `none` is a throw.
pub record Ethers : Type 0 where
  pub get_address : Text → Option Text
  pub is_address : Text → Bool
  -- `new Wallet(key).address`
  pub wallet_address : Text → Option Text
  -- `wallet.signTypedData` by the wallet of the key
  pub sign_typed_data : Text → PaymentDescriptorPayload → Text
  -- The address that `verifyTypedData` recovers.
  pub verify_typed_data : PaymentDescriptorPayload → Text → Option Text

pub data DescriptorError : Type 0 where
  schema_violation ethers_failure untrusted_signer : DescriptorError

abbrev pub max_safe_integer : ℕ
max_safe_integer = 2 ^ 53 - 1

abbrev pub max_uint256 : ℕ
max_uint256 = 2 ^ 256 - 1

-- /^[1-9][0-9]*$/
abbrev pub is_positive_decimal : Text → Bool
is_positive_decimal [] = false
is_positive_decimal (c ∷ s) = leb b'1' c && leb c b'9' && all is_digit s

abbrev pub is_positive_safe : ℕ → Bool
is_positive_safe n = ltb 0 n && leb n max_safe_integer

module _ (ethers : Ethers) where
  -- `SignedPaymentDescriptorSchema`
  unfoldable pub satisfies_schema : SignedPaymentDescriptor → Bool
  satisfies_schema d =
      d.version == 1
      && is_positive_safe d.chain_id
      && text_eq d.rail rail_name
      && ethers.is_address d.token_address
      && leb d.decimals 255
      && (is_positive_decimal d.amount_atomic && leb (big_int d.amount_atomic) max_uint256)
      && (leb 1 (length d.recipient_0zk) && leb (length d.recipient_0zk) 512)
      && is_reference d.reference
      && is_positive_safe d.expires_at
      && is_reference d.nonce
      && ethers.is_address d.merchant_signer
      && is_hex_text 130 d.signature

  abbrev pub or_throw {ℓ} : {A : Type ℓ} → Option A → Result DescriptorError A
  or_throw none = err ethers_failure
  or_throw (some a) = ok a

  unfoldable pub verify_signed_descriptor :
      SignedPaymentDescriptor → Text → Result DescriptorError Text
  verify_signed_descriptor d expected_signer = do
    guard (satisfies_schema d) schema_violation
    recovered ← or_throw (ethers.verify_typed_data d.payload d.signature)
    trusted ← or_throw (ethers.get_address expected_signer)
    signer ← or_throw (ethers.get_address d.merchant_signer)
    guard (text_eq signer trusted) untrusted_signer
    address ← or_throw (ethers.get_address recovered)
    guard (text_eq address trusted) untrusted_signer
    ok recovered

  -- `nonce_hex` is the hexadecimal text of the 32 random bytes.
  unfoldable pub create_signed_descriptor :
      ℕ
      → Text
      → ℕ
      → Text
      → Text
      → Text
      → ℕ
      → Text
      → Text
      → Result DescriptorError SignedPaymentDescriptor
  create_signed_descriptor chain_id token_address decimals amount_atomic recipient_0zk reference
        expires_at nonce_hex merchant_private_key =
      do
        signer ← or_throw (ethers.wallet_address merchant_private_key)
        token ← or_throw (ethers.get_address token_address)
        let payload : PaymentDescriptorPayload = record {
          version = 1;
          chain_id = chain_id;
          rail = rail_name;
          token_address = token;
          decimals = decimals;
          amount_atomic = amount_atomic;
          recipient_0zk = recipient_0zk;
          reference = to_lower_case reference;
          expires_at = expires_at;
          nonce = codes "0x" ++ nonce_hex;
          merchant_signer = signer;
        }
        ok (record {
          payload = payload;
          signature = ethers.sign_typed_data merchant_private_key payload;
        })
