-- ===== src/Payer/GasQuorum.antt =====
-- tools/ppops-payer/src/railgun/rpc-quorum.ts: the gas price and the gas estimate that are chosen from
-- the answers of the RPC providers, none where one failed.
use ppops.Prelude.{
  ℕ, zero, suc, ◌+◌, ◌*◌, ◌/◌, ◌<◌, ◌≤◌, ◌≡◌, refl, ap, sym, ◌∙◌, subst, true, false, List, [], ◌∷◌,
  Option, none, some, arith, ltb, leb, ◌==◌, ◌&&◌, map, if◌then◌else◌, Bool-cases, inl, inr, length,
  All, All-weaken, sum_of,
}
use ppops.Prelude.Results.{Result, ok, err, ◌>>=◌, ◌>>◌, guard, guarded, ok-inj, >>=-eq-ok}
use ppops.Prelude.Sorting.{sort, length-sort, sum_of-sort, insert_sorted, All-insert_sorted}
use ppops.Payer.Request.{payer_chain_id}
use ppops.Scanner.Workers.{nth}

pub data RpcFailure : Type 0 where
  rpc_unavailable : RpcFailure

unfoldable pub required_agreement : ℕ → ℕ
required_agreement provider_count =
    if ltb 2 (provider_count / 2 + 1) then provider_count / 2 + 1 else 2

-- What a provider that answers, none where it fails or is late, says of its chain and the price.
unfoldable pub gas_price_reading : Option (ℕ × Option ℕ) → Option ℕ
gas_price_reading none = none
gas_price_reading (some (chain_id, none)) = none
gas_price_reading (some (chain_id, some price)) =
    if chain_id == payer_chain_id && ltb 0 price then some price else none

-- The answers that are positive.
unfoldable pub healthy_of : List (Option ℕ) → List ℕ
healthy_of [] = []
healthy_of (none ∷ readings) = healthy_of readings
healthy_of (some v ∷ readings) =
    let rest = healthy_of readings in if ltb 0 v then v ∷ rest else rest

abbrev or_unavailable : Option ℕ → Result RpcFailure ℕ
or_unavailable none = err rpc_unavailable
or_unavailable (some v) = ok v

-- `selectConservativeLegacyGasPrice` and `selectConservativeGasEstimate`, which are alike: the value
-- with the number of the answers.
unfoldable pub select_conservative : List (Option ℕ) → ℕ → Result RpcFailure (ℕ × ℕ)
unfolding healthy_of
select_conservative readings minimum_agreement = do
  let healthy = sort ltb (healthy_of readings)
  guard (leb minimum_agreement (length healthy)) rpc_unavailable
  value ← or_unavailable (nth healthy (length healthy / 2))
  ok (value, length healthy)

unfoldable pub select_conservative_legacy_gas_price : List (Option ℕ) → Result RpcFailure (ℕ × ℕ)
unfolding select_conservative required_agreement
select_conservative_legacy_gas_price readings =
    select_conservative readings (required_agreement (length readings))

-- `readConservativeLegacyGasPrice`, of the answers of the providers
unfoldable pub read_conservative_legacy_gas_price :
    List (Option (ℕ × Option ℕ)) → Result RpcFailure (ℕ × ℕ)
unfolding gas_price_reading select_conservative_legacy_gas_price
read_conservative_legacy_gas_price answers =
    select_conservative_legacy_gas_price (map gas_price_reading answers)

abbrev above : ℕ → ℕ → ℕ
above hi v = if ltb hi v then 1 else 0

abbrev below : ℕ → ℕ → ℕ
below lo v = if ltb v lo then 1 else 0

abbrev pub number_above : ℕ → List ℕ → ℕ
number_above hi values = sum_of (above hi) values

abbrev pub number_below : ℕ → List ℕ → ℕ
number_below lo values = sum_of (below lo) values

abbrev IsSorted : List ℕ → Type 0
IsSorted [] = Unit
IsSorted (v ∷ values) = All (λ w. v ≤ w) values × IsSorted values

insert_sorted-IsSorted :
    (x : ℕ) (values : List ℕ) → IsSorted values → IsSorted (insert_sorted ltb x values)
unfolding insert_sorted
insert_sorted-IsSorted x [] s = (tt, tt)
insert_sorted-IsSorted x (v ∷ values) s = elim (Bool-cases (ltb v x)) [
  | inl e ↦ rw e (
    All-insert_sorted ltb (λ w. v ≤ w) x values (ground arith) s.0,
    insert_sorted-IsSorted x values s.1,
  )
  | inr e ↦
      let le : x ≤ v = ground arith in
      rw e ((le, All-weaken (λ w. v ≤ w) (λ w. x ≤ w) values (λ w h. omega arith) s.0), s)
]

sort-IsSorted : (values : List ℕ) → IsSorted (sort ltb values)
unfolding sort
sort-IsSorted [] = tt
sort-IsSorted (v ∷ values) = insert_sorted-IsSorted v (sort ltb values) (sort-IsSorted values)

number_above-All :
    (hi m : ℕ) (values : List ℕ)
    → hi < m
    → All (λ w. m ≤ w) values
    → number_above hi values ≡ length values
number_above-All hi m [] lt h = refl
number_above-All hi m (v ∷ values) lt h =
    let here : ltb hi v ≡ true = (let le = h.0 in ground arith) in
    rw (here, number_above-All hi m values lt h.1) (omega arith)

nth-above :
    (hi m k : ℕ) (values : List ℕ)
    → IsSorted values
    → nth values k ≡ some m
    → hi < m
    → length values ≤ k + number_above hi values
nth-above hi m k [] s h lt = cc
nth-above hi m zero (v ∷ values) s h lt =
    let same : v ≡ m = ground arith in
    let all =
      number_above-All hi m (v ∷ values) lt
        (subst (λ x. All (λ w. x ≤ w) (v ∷ values)) same (omega arith, s.0)) in
    omega arith
nth-above hi m (suc k) (v ∷ values) s h lt =
    let rest = nth-above hi m k values s.1 h lt in omega arith

nth-All : (v m k : ℕ) (values : List ℕ) → All (λ w. v ≤ w) values → nth values k ≡ some m → v ≤ m
nth-All v m k [] a h = cc
nth-All v m zero (w ∷ values) a h = (let le = a.0 in ground arith)
nth-All v m (suc k) (w ∷ values) a h = nth-All v m k values a.1 h

nth-below :
    (lo m k : ℕ) (values : List ℕ)
    → IsSorted values
    → nth values k ≡ some m
    → m < lo
    → k + 1 ≤ number_below lo values
nth-below lo m k [] s h lt = cc
nth-below lo m zero (v ∷ values) s h lt =
    let same : v ≡ m = ground arith in
    let here : ltb v lo ≡ true = ground arith in rw here (omega arith)
nth-below lo m (suc k) (v ∷ values) s h lt =
    let rest = nth-below lo m k values s.1 h lt in
    let le = nth-All v m k values s.0 h in
    let here : ltb v lo ≡ true = ground arith in rw here (omega arith)

or_unavailable-eq-ok : (o : Option ℕ) (v : ℕ) → or_unavailable o ≡ ok v → o ≡ some v
or_unavailable-eq-ok none v h = cc
or_unavailable-eq-ok (some w) v h = ap some (ok-inj refl h)

-- As long as fewer than half of the positive answers are above a bound, and fewer than half below
-- another, the chosen value lies between the two, so that a minority of providers cannot move it out
-- of the range of the others; it is chosen only from enough answers, whose number is returned.
pub select_conservative-bounds :
    (readings : List (Option ℕ)) (minimum_agreement lo hi value agreement : ℕ)
    → select_conservative readings minimum_agreement ≡ ok (value, agreement)
    → 2 * number_above hi (healthy_of readings) < length (healthy_of readings)
    → 2 * number_below lo (healthy_of readings) < length (healthy_of readings)
    → (lo ≤ value)
      × (value ≤ hi)
      × (agreement ≡ length (healthy_of readings))
      × (minimum_agreement ≤ agreement)
unfolding select_conservative
select_conservative-bounds readings minimum_agreement lo hi value agreement h few_above few_below =
    let healthy = sort ltb (healthy_of readings) in
    let (enough, h1) = guarded (leb minimum_agreement (length healthy)) rpc_unavailable _ h in
    let (m, chosen, h2) = >>=-eq-ok (or_unavailable (nth healthy (length healthy / 2))) _ h1 in
    let at : nth healthy (length healthy / 2) ≡ some m = or_unavailable-eq-ok _ m chosen in
    let sorted = sort-IsSorted (healthy_of readings) in
    let size = length-sort ltb (healthy_of readings) in
    let over = sum_of-sort ltb (above hi) (healthy_of readings) in
    let under = sum_of-sort ltb (below lo) (healthy_of readings) in
    let same_value : m ≡ value = ap (λ (p : ℕ × ℕ). p.0) (ok-inj refl h2) in
    let same_count : length healthy ≡ agreement = ap (λ (p : ℕ × ℕ). p.1) (ok-inj refl h2) in
    let not_below : ltb m lo ≡ false = elim (Bool-cases (ltb m lo)) [
      | inr e ↦ e
      | inl e ↦
          let lt : m < lo = ground arith in
          let many = nth-below lo m (length healthy / 2) healthy sorted at lt in
          absurd (omega arith)
    ] in
    let not_above : ltb hi m ≡ false = elim (Bool-cases (ltb hi m)) [
      | inr e ↦ e
      | inl e ↦
          let lt : hi < m = ground arith in
          let many = nth-above hi m (length healthy / 2) healthy sorted at lt in
          absurd (omega arith)
    ] in
    (ground arith, ground arith, sym same_count ∙ size, ground arith)
