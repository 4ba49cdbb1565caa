-- ===== src/RateLimit/Windows.antt =====
-- What the limiter grants a key within one window.
use ppops.Prelude.{
  ℕ, suc, ◌+◌, ◌-◌, ◌%◌, ◌<◌, ◌≡◌, refl, sym, ap, subst, ◌∙◌, true, false, ◌&&◌, List, [], ◌∷◌,
  Option, none, some, arith, ltb, leb, ◌==◌, if◌then◌else◌, Bool-cases, inl, inr, Text, text_eq,
  text_eq_iff, text_eq_refl, All,
}
use Prim.Native.Nat.{min, max}
use ppops.Prelude.Tables.{
  Distinct, find_by-key, find_by, find_by-append_other, find_by-append_self, find_by-update_self,
  find_by-update_other,
}
use ppops.Prelude.Selections.{find_by-filter}
use ppops.RateLimit.{
  Bucket, RateLimiter, bucket_key, is_open, cleanup, swept, one_more, decide, consume,
}

-- The window that a key has open at a time.
abbrev open_at : ℕ → Option Bucket → Option Bucket
open_at now none = none
open_at now (some b) = if is_open now b then some b else none

abbrev pub window_of : Text → ℕ → List Bucket → Option Bucket
window_of key now buckets = open_at now (find_by bucket_key key buckets)

-- An open window is found, and found again after a cleanup.
find_by-cleanup :
    (key : Text) (now : ℕ) (buckets : List Bucket) (b : Bucket)
    → find_by bucket_key key buckets ≡ some b
    → is_open now b ≡ true
    → find_by bucket_key key (cleanup now buckets) ≡ some b
unfolding cleanup
find_by-cleanup key now [] b h o = cc
find_by-cleanup key now (c ∷ rest) b h o = ground (arith, find_by-cleanup key now rest b)

find_by-swept :
    (key : Text) (now : ℕ) (limiter : RateLimiter) (b : Bucket)
    → find_by bucket_key key limiter.buckets ≡ some b
    → is_open now b ≡ true
    → find_by bucket_key key (swept now limiter) ≡ some b
find_by-swept key now limiter b h o = elim (Bool-cases ((limiter.operations + 1) % 1000 == 0)) [
  | inl e ↦ rw e (find_by-cleanup key now limiter.buckets b h o)
  | inr e ↦ rw e h
]

window_of-cleanup :
    (key : Text) (now : ℕ) (buckets : List Bucket)
    → Distinct bucket_key buckets
    → window_of key now buckets ≡ none
    → window_of key now (cleanup now buckets) ≡ none
unfolding cleanup
window_of-cleanup key now [] d w = refl
window_of-cleanup key now (b ∷ rest) d w = elim (Bool-cases (text_eq b.key key)) [
  | inl e ↦
      let gone : find_by bucket_key key rest ≡ none =
        subst (λ k. find_by bucket_key k rest ≡ none) ((text_eq_iff b.key key).0 e) d.0 in
      let closed : is_open now b ≡ false = ground arith in
      rw (closed, find_by-filter bucket_key (is_open now) key rest gone)
  | inr e ↦
      let later : window_of key now (cleanup now rest) ≡ none =
        window_of-cleanup key now rest d.1 (rw (e) at w) in
      elim (Bool-cases (is_open now b)) [ inl o ↦ rw (o, e) later | inr o ↦ rw o later ]
]

window_of-swept :
    (key : Text) (now : ℕ) (limiter : RateLimiter)
    → Distinct bucket_key limiter.buckets
    → window_of key now limiter.buckets ≡ none
    → window_of key now (swept now limiter) ≡ none
window_of-swept key now limiter d w = elim (Bool-cases ((limiter.operations + 1) % 1000 == 0)) [
  | inl e ↦ rw e (window_of-cleanup key now limiter.buckets d w)
  | inr e ↦ rw e w
]

module _ (limit window_ms : ℕ) where
  -- The requests of a key that are granted, among those of all keys.
  abbrev pub granted : Text → List (Text × ℕ) → RateLimiter → ℕ
  granted key [] limiter = 0
  granted key ((k, now) ∷ rest) limiter =
      let (answer, limiter') = consume limit window_ms k now limiter in
      let more = granted key rest limiter' in
      if text_eq k key && answer.allowed then suc more else more

  abbrev pub requests_of : Text → List (Text × ℕ) → ℕ
  requests_of key [] = 0
  requests_of key ((k, now) ∷ rest) =
      let more = requests_of key rest in if text_eq k key then suc more else more

  decide-open :
      (key : Text) (now : ℕ) (buckets : List Bucket) (b : Bucket)
      → find_by bucket_key key buckets ≡ some b
      → now < b.resets_at
      → let (answer, buckets') = decide limit window_ms (some b) key now buckets in
        (answer.allowed ≡ ltb b.count limit)
        × (find_by bucket_key key buckets' ≡ some (if ltb b.count limit then one_more b else b))
  decide-open key now buckets b h o =
      let not_over : leb b.resets_at now ≡ false = ground arith in
      elim (Bool-cases (ltb b.count limit)) [
        | inl e ↦
            let room : leb limit b.count ≡ false = ground arith in
            rw (not_over, room, e)
              (refl, find_by-update_self bucket_key key one_more buckets b (λ a. refl) h)
        | inr e ↦
            let full : leb limit b.count ≡ true = ground arith in rw (not_over, full, e) (refl, h)
      ]

  -- A request within its key's window.
  consume-open :
      (key : Text) (now : ℕ) (limiter : RateLimiter) (b : Bucket)
      → find_by bucket_key key limiter.buckets ≡ some b
      → now < b.resets_at
      → let (answer, limiter') = consume limit window_ms key now limiter in
        (answer.allowed ≡ ltb b.count limit)
        × (find_by bucket_key key limiter'.buckets
            ≡ some (if ltb b.count limit then one_more b else b))
  unfolding consume
  consume-open key now limiter b h o =
      let found = find_by-swept key now limiter b h (ground arith) in
      rw found (decide-open key now (swept now limiter) b found o)

  decide-other :
      (o : Option Bucket) (k key : Text) (now : ℕ) (buckets : List Bucket)
      → text_eq k key ≡ false
      → find_by bucket_key key (decide limit window_ms o k now buckets).1
        ≡ find_by bucket_key key buckets
  decide-other none k key now buckets apart = find_by-append_other bucket_key key buckets _ apart
  decide-other (some b) k key now buckets apart =
      let restarted =
        find_by-update_other bucket_key k key
          (λ b. record b { count = 1; resets_at = now + window_ms }) buckets (λ a. refl) apart in
      let counted = find_by-update_other bucket_key k key one_more buckets (λ a. refl) apart in
      ground arith

  -- A request of another key leaves an open window.
  consume-other :
      (k key : Text) (now : ℕ) (limiter : RateLimiter) (b : Bucket)
      → text_eq k key ≡ false
      → find_by bucket_key key limiter.buckets ≡ some b
      → now < b.resets_at
      → find_by bucket_key key (consume limit window_ms k now limiter).1.buckets ≡ some b
  unfolding consume
  consume-other k key now limiter b apart h o =
      decide-other (find_by bucket_key k (swept now limiter)) k key now (swept now limiter) apart
      ∙ find_by-swept key now limiter b h (ground arith)

  granted-open :
      (key : Text) (requests : List (Text × ℕ)) (limiter : RateLimiter) (b : Bucket)
      → find_by bucket_key key limiter.buckets ≡ some b
      → All (λ (k, t). t < b.resets_at) requests
      → granted key requests limiter ≡ min (limit - b.count) (requests_of key requests)
  granted-open key [] limiter b h a = omega arith
  granted-open key ((k, now) ∷ rest) limiter b h a = elim (Bool-cases (text_eq k key)) [
    | inl same ↦
        let k_key = (text_eq_iff k key).0 same in
        let limiter' = (consume limit window_ms k now limiter).1 in
        let next = if ltb b.count limit then one_more b else b in
        let (allowed, found_k) =
          consume-open k now limiter b
            (subst (λ x. find_by bucket_key x limiter.buckets ≡ some b) (sym k_key) h) a.0 in
        let found = subst (λ x. find_by bucket_key x limiter'.buckets ≡ some next) k_key found_k in
        elim (Bool-cases (ltb b.count limit)) [
          | inl e ↦
              let more = granted-open key rest limiter' (one_more b) (rw (e) at found) a.1 in
              rw (same, allowed, e) (ap suc more ∙ ground arith)
          | inr e ↦
              let more = granted-open key rest limiter' b (rw (e) at found) a.1 in
              rw (same, allowed, e) (more ∙ ground arith)
        ]
    | inr apart ↦ rw apart (
        granted-open key rest (consume limit window_ms k now limiter).1 b
          (consume-other k key now limiter b apart h a.0) a.1)
  ]

  decide-fresh :
      (o : Option Bucket) (key : Text) (now : ℕ) (buckets : List Bucket)
      → find_by bucket_key key buckets ≡ o
      → open_at now o ≡ none
      → let (answer, buckets') = decide limit window_ms o key now buckets in
        (answer.allowed ≡ true)
        × (find_by bucket_key key buckets'
            ≡ some (record { key = key; count = 1; resets_at = now + window_ms }))
  decide-fresh none key now buckets h w = (
    refl,
    find_by-append_self bucket_key buckets
        (record { key = key; count = 1; resets_at = now + window_ms }) h,
  )
  decide-fresh (some b) key now buckets h w =
      let over : leb b.resets_at now ≡ true = ground arith in
      let its = find_by-key bucket_key key buckets b h in
      rw over (
        refl,
        find_by-update_self bucket_key key
              (λ b. record b { count = 1; resets_at = now + window_ms }) buckets b (λ a. refl) h
            ∙ ap (λ k. some (record { key = k; count = 1; resets_at = now + window_ms })) its,
      )

  -- A request of a key with no open window opens one.
  consume-fresh :
      (key : Text) (now : ℕ) (limiter : RateLimiter)
      → Distinct bucket_key limiter.buckets
      → window_of key now limiter.buckets ≡ none
      → let (answer, limiter') = consume limit window_ms key now limiter in
        (answer.allowed ≡ true)
        × (find_by bucket_key key limiter'.buckets
            ≡ some (record { key = key; count = 1; resets_at = now + window_ms }))
  unfolding consume
  consume-fresh key now limiter d w =
      decide-fresh (find_by bucket_key key (swept now limiter)) key now (swept now limiter) refl
        (window_of-swept key now limiter d w)

  -- If the entries have distinct keys, then from a request of a key that has no open window, and until the window that it opens is over,
  -- exactly `limit` of the key's requests are granted (one if the limit is 0), or all of them if
  -- they are fewer, whatever other keys request meanwhile and whenever expired entries are removed.
  pub granted-window :
      (key : Text) (start : ℕ) (requests : List (Text × ℕ)) (limiter : RateLimiter)
      → Distinct bucket_key limiter.buckets
      → window_of key start limiter.buckets ≡ none
      → All (λ (k, t). t < start + window_ms) requests
      → granted key ((key, start) ∷ requests) limiter
        ≡ min (max 1 limit) (suc (requests_of key requests))
  granted-window key start requests limiter d w a =
      let (allowed, found) = consume-fresh key start limiter d w in
      rw (text_eq_refl key, allowed)
        (ap suc (granted-open key requests (consume limit window_ms key start limiter).1 _ found a)
          ∙ omega arith)
