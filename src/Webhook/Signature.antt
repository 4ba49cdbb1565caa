-- ===== src/Webhook/Signature.antt =====
-- What an accepted webhook signature guarantees.
use ppops.Prelude.{
  ℕ, ◌+◌, ◌≤◌, ◌≡◌, ◌↔◌, true, ◌&&◌, arith, ◌==◌, all, length, Text, text_eq_iff, text_eq_refl,
}
use ppops.Descriptor.{max_safe_integer}
use ppops.Webhook.{
  is_lower_hex, is_hmac_key, is_event_id, is_signature, is_key_id, webhook_signature,
  verify_webhook_signature,
}

-- What is relied on of node's HMAC: a digest is 32 bytes in lower-case hexadecimal.
abbrev pub PrintsDigests : (Text → Text → Text) → Type 0
PrintsDigests hmac_hex =
    (key text : Text)
    → (length (hmac_hex key text) == 64 && all is_lower_hex (hmac_hex key text)) ≡ true

is_signature-webhook_signature :
    (hmac_hex : Text → Text → Text)
    → PrintsDigests hmac_hex
    → (key : Text) (timestamp : ℕ) (event_id payload_json key_id : Text)
    → is_signature (webhook_signature hmac_hex key timestamp event_id payload_json key_id) ≡ true
unfolding is_signature webhook_signature
is_signature-webhook_signature hmac_hex prints key timestamp event_id payload_json key_id =
    prints key _

module _ (hmac_hex : Text → Text → Text) (prints : PrintsDigests hmac_hex) where
  -- If HMAC digests are 32 bytes in lower-case hexadecimal, a signature is accepted exactly when it is the one that the sender computes for that key,
  -- time, event, key id and payload, the time is no further from the present than the tolerance on
  -- either side, and the key, the two ids and the two numbers are well formed.
  pub verify_webhook_signature_iff :
      (key : Text) (timestamp : ℕ) (event_id key_id payload_json signature : Text)
      (now tolerance : ℕ)
      → (verify_webhook_signature hmac_hex key timestamp event_id key_id payload_json signature now
            tolerance
          ≡ true)
        ↔ ((signature ≡ webhook_signature hmac_hex key timestamp event_id payload_json key_id)
            × (now ≤ timestamp + tolerance)
            × (timestamp ≤ now + tolerance)
            × (is_hmac_key key ≡ true)
            × (is_event_id event_id ≡ true)
            × (is_key_id key_id ≡ true)
            × (timestamp ≤ max_safe_integer)
            × (tolerance ≤ max_safe_integer))
  unfolding verify_webhook_signature
  verify_webhook_signature_iff key timestamp event_id key_id payload_json signature now tolerance =
      let expected = webhook_signature hmac_hex key timestamp event_id payload_json key_id in
      let size =
        is_signature-webhook_signature hmac_hex prints key timestamp event_id payload_json key_id in
      (
        λ h. ground (arith, text_eq_iff expected signature),
        λ (e, a, b, c, d, f, g, i). rw e (rw (size, c, d, f, text_eq_refl expected) (ground arith)),
      )
