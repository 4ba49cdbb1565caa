-- ===== src/Scenarios/Ledger.antt =====
-- Projections and reconciliation.
use ppops.Prelude.{◌+◌, ◌*◌, ◌≡◌, refl, [], ◌∷◌, List, arith, codes, filter, true, false, ◌⊎◌}
use ppops.Prelude.Sorting.{sort}
use ppops.Domain.{IntentProjection, paid, paid_late, SettlementRecord}
use ppops.Database.Intents.{initial_projection}
use ppops.Projection.{
  is_creditable, is_pending, add_amounts, before, crossing_timestamp, status_for, next_projection,
  has_changed, derive_projection,
}
use ppops.Projection.Accounts.{
  IsAccountOf, derive_projection-IsAccountOf, derive_projection-revision,
}
use ppops.Projection.Crossing.{expected_status, status-derive_projection}
use ppops.Reconciliation.{reconcile, refresh_expirations, transition_event_type}
use ppops.Reconciliation.Transitions.{confirmations, reversions, confirmations-reversions}
use ppops.Reconciliation.Coherence.{
  IsCoherent, reconcile-IsCoherent, refresh_expirations-IsCoherent,
}
use ppops.Prelude.{none}
use ppops.Prelude.Results.{ok, err}
use ppops.Quorum.{no_agreement}
use ppops.Runtime.{scan_once}
use ppops.Runtime.Coherence.{scan_once-IsCoherent}
use ppops.Scenarios.Shop.{order, shop, shop-IsCoherent, settlement_of, recorded, digest}

abbrev start : IntentProjection
start = initial_projection order.id 10

-- Two payments in the wrong order of the list; the later one completes the amount after the expiry.
abbrev payments : List SettlementRecord
payments =
    recorded (settlement_of (codes "b") 60 9 1500)
    ∷ recorded (settlement_of (codes "a") 50 5 900)
    ∷ []

late_payments : (derive_projection order payments start 2000).status ≡ paid_late
unfolding derive_projection next_projection has_changed is_creditable is_pending add_amounts
    status_for crossing_timestamp before sort
late_payments = refl

derive_projection-IsAccountOf_example :
    IsAccountOf order payments 2000 (derive_projection order payments start 2000)
derive_projection-IsAccountOf_example = derive_projection-IsAccountOf order payments start 2000

derive_projection-revision_example :
    let next = derive_projection order payments start 2000 in
    (IsAccountOf order payments 2000 start × (next ≡ start))
    ⊎ (¬ IsAccountOf order payments 2000 start
        × IsAccountOf order payments 2000 next
        × (next.revision ≡ 1)
        × (next.updated_at ≡ 2000))
derive_projection-revision_example = derive_projection-revision order payments start 2000

-- A clock by which block 5 is at 900 and block 9 at 1500.
status-derive_projection_example :
    (derive_projection order payments start 2000).status
    ≡ expected_status order (filter is_creditable payments) 2000
unfolding is_creditable
status-derive_projection_example =
    status-derive_projection (λ n. 150 * n + 150) (λ a b h. omega arith) order payments start 2000
      (omega arith) (refl, (refl, tt))

abbrev paid_once : IntentProjection
paid_once = record start { status = paid; received_amount_atomic = 100; revision = 1 }

confirmations-reversions_example :
    0 + confirmations start (paid_once ∷ start ∷ paid_once ∷ [])
    ≡ 1 + reversions start (paid_once ∷ start ∷ paid_once ∷ [])
unfolding transition_event_type
confirmations-reversions_example =
    confirmations-reversions start (paid_once ∷ start ∷ paid_once ∷ [])

reconcile-IsCoherent_example :
    IsCoherent (reconcile digest (settlement_of (codes "a") 100 5 900) 20 shop).1
reconcile-IsCoherent_example =
    reconcile-IsCoherent digest (settlement_of (codes "a") 100 5 900) 20 shop shop-IsCoherent

refresh_expirations-IsCoherent_example : IsCoherent (refresh_expirations digest 2000 shop).1
refresh_expirations-IsCoherent_example =
    refresh_expirations-IsCoherent digest 2000 shop shop-IsCoherent

-- Expirations are refreshed while the wallet is scanned, and the daemon is stopped during the scan.
scan_once-IsCoherent_example :
    IsCoherent
      (scan_once digest none false true
        (ok (settlement_of (codes "a") 100 5 900 ∷ []))
        (λ db. (refresh_expirations digest 590 db).1)
        (λ s. err no_agreement)
        (λ s db. db)
        600
        20
        shop).1
scan_once-IsCoherent_example =
    scan_once-IsCoherent digest none false true (ok (settlement_of (codes "a") 100 5 900 ∷ []))
      (λ db. (refresh_expirations digest 590 db).1) (λ s. err no_agreement) (λ s db. db) 600 20 shop
      (λ d v. refresh_expirations-IsCoherent digest 590 d v) (λ s d v. v) shop-IsCoherent
