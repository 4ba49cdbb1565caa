-- ===== src/RateLimit/Keys.antt =====
-- The keys of the limiter's entries.
use ppops.Prelude.{
  ℕ, ◌+◌, ◌%◌, ◌≡◌, refl, Bool-cases, inl, inr, leb, ◌==◌, List, Option, none, some, Text,
}
use ppops.Prelude.Tables.{find_by, Distinct, Distinct-append, Distinct-update_by}
use ppops.Prelude.Selections.{Distinct-filter}
use ppops.RateLimit.{
  Bucket, RateLimiter, bucket_key, is_open, cleanup, swept, one_more, decide, consume,
}

swept-Distinct :
    (now : ℕ) (limiter : RateLimiter)
    → Distinct bucket_key limiter.buckets
    → Distinct bucket_key (swept now limiter)
unfolding cleanup
swept-Distinct now limiter d = elim (Bool-cases ((limiter.operations + 1) % 1000 == 0)) [
  | inl e ↦ rw e (Distinct-filter bucket_key (is_open now) limiter.buckets d)
  | inr e ↦ rw e d
]

module _ (limit window_ms : ℕ) where
  decide-Distinct :
      (o : Option Bucket) (key : Text) (now : ℕ) (buckets : List Bucket)
      → find_by bucket_key key buckets ≡ o
      → Distinct bucket_key buckets
      → Distinct bucket_key (decide limit window_ms o key now buckets).1
  decide-Distinct none key now buckets h d = Distinct-append bucket_key buckets _ d h
  decide-Distinct (some b) key now buckets h d =
      let restarted =
        Distinct-update_by bucket_key key (λ b. record b { count = 1; resets_at = now + window_ms })
          buckets (λ a. refl) d in
      let counted = Distinct-update_by bucket_key key one_more buckets (λ a. refl) d in
      elim (Bool-cases (leb b.resets_at now)) [
        | inl e ↦ rw e restarted
        | inr e ↦ elim (Bool-cases (leb limit b.count)) [
          | inl f ↦ rw (e, f) d
          | inr f ↦ rw (e, f) counted
        ]
      ]

  -- Every request leaves the entries' keys distinct.
  pub consume-Distinct :
      (key : Text) (now : ℕ) (limiter : RateLimiter)
      → Distinct bucket_key limiter.buckets
      → Distinct bucket_key (consume limit window_ms key now limiter).1.buckets
  unfolding consume
  consume-Distinct key now limiter d =
      decide-Distinct (find_by bucket_key key (swept now limiter)) key now (swept now limiter) refl
        (swept-Distinct now limiter d)
