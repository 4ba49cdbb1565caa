-- ===== src/Intents/Verifying.antt =====
-- The daemon's own check of a descriptor.
use ppops.Prelude.{
  ℕ, ◌<◌, ◌≡◌, subst, Option, some, none, arith, ltb, Text, text_eq_iff, to_lower_case,
}
use ppops.Prelude.Results.{Result, ok, err, ◌>>=◌, ◌>>◌, guard, >>=-eq-ok}
use ppops.Domain.{SignedPaymentDescriptor}
use ppops.Descriptor.{Ethers, DescriptorError, or_throw, verify_signed_descriptor}
use ppops.Descriptor.Trust.{IsTrusted, verify_signed_descriptor-IsTrusted}
use ppops.Database.{wrong_instance, descriptor_expired}
use ppops.Intents.{Network, or_rejected}
use ppops.Intents.Creating.{matches_instance, verify_descriptor}

or_rejected-eq-ok : (r : Result DescriptorError Text) (a : Text) → or_rejected r ≡ ok a → r ≡ ok a
or_rejected-eq-ok (err e) a h = cc
or_rejected-eq-ok (ok b) a h = ground arith

or_throw-eq-ok :
    (ethers : Ethers) (o : Option Text) (a : Text) → or_throw ethers o ≡ ok a → o ≡ some a
or_throw-eq-ok ethers none a h = cc
or_throw-eq-ok ethers (some b) a h = ground arith

module _ (ethers : Ethers) (network : Network) (recipient_0zk merchant_private_key : Text) where
  -- A descriptor that the daemon accepts was signed by the merchant's own wallet, which it names as
  -- its signer, it has the daemon's chain, token, decimals and address, and it is not expired.
  pub verify_descriptor-IsTrusted :
      (d : SignedPaymentDescriptor) (now : ℕ) (recovered : Text)
      → verify_descriptor ethers network recipient_0zk merchant_private_key d now ≡ ok recovered
      → (signer : Text) × (ethers.wallet_address merchant_private_key ≡ some signer)
        × IsTrusted ethers d signer recovered
        × (d.chain_id ≡ network.chain_id)
        × (to_lower_case d.token_address ≡ to_lower_case network.token_address)
        × (d.decimals ≡ network.token_decimals)
        × (d.recipient_0zk ≡ recipient_0zk)
        × (now < d.expires_at)
  unfolding verify_descriptor
  verify_descriptor-IsTrusted d now recovered h =
      let checked = λ (r : Text).
        guard (matches_instance ethers network recipient_0zk merchant_private_key d) wrong_instance
        >> (guard (ltb now d.expires_at) descriptor_expired >> ok r) in
      let (signer, own, h1) =
        >>=-eq-ok (or_rejected (or_throw ethers (ethers.wallet_address merchant_private_key)))
          (λ (signer : Text). or_rejected (verify_signed_descriptor ethers d signer) >>= checked)
          h in
      let (r, verified, h2) =
        >>=-eq-ok (or_rejected (verify_signed_descriptor ethers d signer)) checked h1 in
      let wallet : ethers.wallet_address merchant_private_key ≡ some signer =
        or_throw-eq-ok ethers _ signer (or_rejected-eq-ok _ signer own) in
      let trusted =
        verify_signed_descriptor-IsTrusted ethers d signer r (or_rejected-eq-ok _ r verified) in
      let same : r ≡ recovered = ground arith in
      (
        signer,
        wallet,
        subst (IsTrusted ethers d signer) same trusted,
        ground arith,
        ground (
          arith,
          text_eq_iff (to_lower_case d.token_address) (to_lower_case network.token_address),
        ),
        ground arith,
        ground (arith, text_eq_iff d.recipient_0zk recipient_0zk),
        ground arith,
      )
