-- ===== src/Payer/Guards.antt =====
-- tools/ppops-payer/src/execution-guards.ts: what is checked before the payer signs a transaction.
use ppops.Prelude.{
  ℕ, ◌*◌, ◌≤◌, ◌≡◌, refl, ap, sym, subst, ◌∙◌, Bool, ◌&&◌, Option, none, some, arith, ltb, leb,
  Text, codes, ◌++◌, text_eq, text_eq_iff,
}
use ppops.Prelude.Results.{Result, ok, err, ◌>>=◌, ◌>>◌, guard, guarded, ok-inj, >>=-eq-ok}
use ppops.Domain.Amount.{big_int, to_text}
use ppops.Descriptor.{Ethers, is_positive_decimal, max_safe_integer, max_uint256}

pub data GuardFailure : Type 0 where
  secret_invalid request_invalid gas_limit_exceeded : GuardFailure

-- `valid_address` is the RAILGUN library's check of an address.
unfoldable pub assert_expected_payer_address :
    (Text → Bool) → Text → Text → Result GuardFailure (Unit {0})
assert_expected_payer_address valid_address actual_payer expected_payer =
    guard (valid_address expected_payer && text_eq actual_payer expected_payer) secret_invalid

abbrev or_fail {ℓ} : {A : Type ℓ} → GuardFailure → Option A → Result GuardFailure A
or_fail failure none = err failure
or_fail failure (some a) = ok a

pub record SelfSigningKey : Type 0 where
  pub private_key : Text
  pub address : Text
  pub derivation_path : Text

module _ (ethers : Ethers) where
  -- A key that makes no wallet is refused by ethers.
  unfoldable pub assert_expected_self_signer : Text → Text → Result GuardFailure Text
  assert_expected_self_signer evm_private_key expected_address = do
    expected ← or_fail request_invalid (ethers.get_address expected_address)
    derived ← or_fail secret_invalid (ethers.wallet_address evm_private_key)
    guard (text_eq derived expected) secret_invalid
    ok derived

  -- `derive_key` is the RAILGUN library's derivation of the key at an index of a mnemonic.
  unfoldable pub derive_expected_self_signing_key :
      (Text → ℕ → Option Text) → Text → ℕ → Text → Result GuardFailure SelfSigningKey
  unfolding assert_expected_self_signer to_text
  derive_expected_self_signing_key derive_key mnemonic derivation_index expected_address = do
    guard (leb derivation_index 1_000) request_invalid
    private_key ← or_fail secret_invalid (derive_key mnemonic derivation_index)
    address ← assert_expected_self_signer private_key expected_address
    ok (record {
      private_key = private_key;
      address = address;
      derivation_path = codes "m/44'/60'/0'/0/" ++ to_text derivation_index;
    })

unfoldable pub parse_gas_cost_limit : Text → Result GuardFailure ℕ
parse_gas_cost_limit value = do
  guard (is_positive_decimal value) request_invalid
  guard (leb (big_int value) max_uint256) request_invalid
  ok (big_int value)

unfoldable pub assert_gas_cost_within_limit : ℕ → ℕ → ℕ → Result GuardFailure ℕ
assert_gas_cost_within_limit gas_limit max_fee_per_gas maximum_cost = do
  guard (leb (gas_limit * max_fee_per_gas) maximum_cost) gas_limit_exceeded
  ok (gas_limit * max_fee_per_gas)

unfoldable pub assert_request_still_open : ℕ → ℕ → Result GuardFailure (Unit {0})
assert_request_still_open expires_at now =
    guard (leb expires_at max_safe_integer && ltb now expires_at) request_invalid

or_fail-eq-ok {ℓ} :
    {A : Type ℓ} (failure : GuardFailure) (o : Option A) (a : A)
    → or_fail failure o ≡ ok a
    → o ≡ some a
or_fail-eq-ok failure none a h = cc
or_fail-eq-ok failure (some b) a h = ap some (ok-inj refl h)

signer-expected :
    (ethers : Ethers) (key expected address : Text)
    → assert_expected_self_signer ethers key expected ≡ ok address
    → (ethers.wallet_address key ≡ some address) × (ethers.get_address expected ≡ some address)
unfolding assert_expected_self_signer
signer-expected ethers key expected address h =
    let (wanted, w, h1) = >>=-eq-ok (or_fail request_invalid (ethers.get_address expected)) _ h in
    let (own, o, h2) = >>=-eq-ok (or_fail secret_invalid (ethers.wallet_address key)) _ h1 in
    let (same, h3) = guarded (text_eq own wanted) secret_invalid _ h2 in
    let here : own ≡ address = ok-inj refl h3 in
    (
      or_fail-eq-ok _ _ own o ∙ ap some here,
      or_fail-eq-ok _ _ wanted w ∙ ap some (sym ((text_eq_iff own wanted).0 same) ∙ here),
    )

-- A key is returned only for an index up to 1000, and only if it is the one derived there and its
-- wallet has the address that the payer expects.
pub derive_expected_self_signing_key-expected :
    (ethers : Ethers) (derive_key : Text → ℕ → Option Text) (mnemonic : Text) (index : ℕ)
    (expected : Text) (k : SelfSigningKey)
    → derive_expected_self_signing_key ethers derive_key mnemonic index expected ≡ ok k
    → (index ≤ 1_000)
      × (derive_key mnemonic index ≡ some k.private_key)
      × (ethers.wallet_address k.private_key ≡ some k.address)
      × (ethers.get_address expected ≡ some k.address)
unfolding derive_expected_self_signing_key
derive_expected_self_signing_key-expected ethers derive_key mnemonic index expected k h =
    let (small, h1) = guarded (leb index 1_000) request_invalid _ h in
    let (key, derived, h2) = >>=-eq-ok (or_fail secret_invalid (derive_key mnemonic index)) _ h1 in
    let (address, checked, h3) = >>=-eq-ok (assert_expected_self_signer ethers key expected) _ h2 in
    let (own, wanted) = signer-expected ethers key expected address checked in
    let at : derive_key mnemonic index ≡ some key = or_fail-eq-ok _ _ key derived in
    subst
      (λ (x : SelfSigningKey).
        (index ≤ 1_000)
        × (derive_key mnemonic index ≡ some x.private_key)
        × (ethers.wallet_address x.private_key ≡ some x.address)
        × (ethers.get_address expected ≡ some x.address))
      (ok-inj refl h3) (ground arith, at, own, wanted)
