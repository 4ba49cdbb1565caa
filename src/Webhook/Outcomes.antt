-- ===== src/Webhook/Outcomes.antt =====
-- What one attempt makes of an event (src/events/webhook.ts), and the delay before a retry.
use Prim.Native.Nat.{min, max}
use native.Mathlib.Nat.{pow-suc}
use ppops.Prelude.{ℕ, suc, ◌+◌, ◌*◌, ◌^◌, ◌≤◌, Option, none, some, arith, leb, if◌then◌else◌}
use ppops.Database.{OutboxRow}
use ppops.Database.Outbox.{delivered_row, failed_row, dead_row}
use ppops.Webhook.{WebhookConfig, WebhookFailureCode, failure_text, ceil_seconds, retry_seconds}

capped_mono : (a b m : ℕ) → a ≤ b → max 1 (ceil_seconds (min a m)) ≤ max 1 (ceil_seconds (min b m))
capped_mono a b m h = omega arith

doubled : (base n : ℕ) → base * 2 ^ n ≤ base * 2 ^ suc n
doubled base n = simp pow-suc (grind arith)

module _ (config : WebhookConfig) where
  -- A retry comes after at least a second and at most the configured bound, rounded up to whole
  -- seconds, however often the event was tried.
  pub retry_seconds_bounds :
      (attempts : ℕ)
      → (1 ≤ retry_seconds config attempts)
        × (retry_seconds config attempts ≤ max 1 (ceil_seconds config.max_retry_ms))
  unfolding retry_seconds
  retry_seconds_bounds attempts = omega arith

  -- The delay before a retry is at least that after one attempt fewer.
  pub retry_seconds_mono :
      (attempts : ℕ) → retry_seconds config attempts ≤ retry_seconds config (suc attempts)
  unfolding retry_seconds
  retry_seconds_mono attempts =
      capped_mono (config.base_retry_ms * 2 ^ attempts) (config.base_retry_ms * 2 ^ suc attempts)
        config.max_retry_ms (doubled config.base_retry_ms attempts)

  -- The row that a delivery leaves of the one it tried.
  unfoldable pub settle : ℕ → Option WebhookFailureCode → OutboxRow → OutboxRow
  settle now none row = delivered_row now row
  settle now (some code) row =
      if leb config.max_attempts (row.attempts + 1)
      then dead_row now (failure_text code) row
      else failed_row (now + retry_seconds config row.attempts) (failure_text code) row
