-- ===== src/RateLimit.antt =====
-- src/security/rate-limit.ts: the fixed-window rate limiter. Its Map is the list of its entries,
-- the clock is an argument of each call.
pub mod Keys
pub mod Windows
use ppops.Prelude.{
  ℕ, ◌+◌, ◌-◌, ◌*◌, ◌/◌, ◌%◌, Bool, true, false, List, [], ◌∷◌, ◌++◌, Option, none, some, ltb, leb,
  ◌==◌, if◌then◌else◌, filter, Text,
}
use Prim.Native.Nat.{max}
use ppops.Prelude.Tables.{find_by, update_by}
use ppops.Webhook.{ceil_seconds}

pub record Bucket : Type 0 where
  pub key : Text
  pub count : ℕ
  pub resets_at : ℕ

pub record RateLimiter : Type 0 where
  pub buckets : List Bucket
  pub operations : ℕ

pub record Answer : Type 0 where
  pub allowed : Bool
  pub retry_after_seconds : ℕ

abbrev pub no_requests : RateLimiter
no_requests = record { buckets = []; operations = 0 }

abbrev pub bucket_key : Bucket → Text
bucket_key b = b.key

abbrev pub is_open : ℕ → Bucket → Bool
is_open now b = ltb now b.resets_at

-- `cleanup`
unfoldable pub cleanup : ℕ → List Bucket → List Bucket
cleanup now buckets = filter (is_open now) buckets

abbrev pub swept : ℕ → RateLimiter → List Bucket
swept now limiter =
    let kept = cleanup now limiter.buckets in
    if (limiter.operations + 1) % 1000 == 0 then kept else limiter.buckets

-- `buckets.set(key, { count: 1, resetsAt })`
abbrev pub open_window : Option Bucket → Text → ℕ → List Bucket → List Bucket
open_window none key resets_at buckets =
    buckets ++ record { key = key; count = 1; resets_at = resets_at } ∷ []
open_window (some b) key resets_at buckets =
    update_by bucket_key key (λ b. record b { count = 1; resets_at = resets_at }) buckets

abbrev pub yes : Answer
yes = record { allowed = true; retry_after_seconds = 0 }

abbrev pub one_more : Bucket → Bucket
one_more b = record b { count = b.count + 1 }

module _ (limit window_ms : ℕ) where
  -- What `current` leads to.
  abbrev pub decide : Option Bucket → Text → ℕ → List Bucket → Answer × List Bucket
  decide none key now buckets = (yes, open_window none key (now + window_ms) buckets)
  decide (some current) key now buckets =
      if leb current.resets_at now
      then (yes, open_window (some current) key (now + window_ms) buckets)
      else if leb limit current.count
      then (
        record {
          allowed = false;
          retry_after_seconds = max 1 (ceil_seconds (current.resets_at - now));
        },
        buckets,
      )
      else (yes, update_by bucket_key key one_more buckets)

  unfoldable pub consume : Text → ℕ → RateLimiter → Answer × RateLimiter
  consume key now limiter =
      let buckets = swept now limiter in
      let (answer, buckets') = decide (find_by bucket_key key buckets) key now buckets in
      (answer, record { buckets = buckets'; operations = limiter.operations + 1 })
