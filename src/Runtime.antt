-- ===== src/Runtime.antt =====
-- src/runtime.ts: one scan of the daemon as the composition of its services. What the scanner
-- returns and what webhook requests come to are arguments; unlike a transaction, a scan that throws
-- leaves what it wrote before. In the source a refreshed settlement also carries along the intent,
-- match and times of its stored record, which is spread into it; here it has the fields of a
-- NormalizedSettlement alone.
pub mod Coherence
pub mod Health
use ppops.Prelude.{
  ℕ, ◌+◌, Bool, true, false, List, [], ◌∷◌, Option, none, some, if◌then◌else◌, any, length, Text,
  text_eq,
}
use ppops.Prelude.Results.{Result, ok, err}
use ppops.Domain.{NormalizedSettlement, SettlementRecord}
use ppops.Database.{Database, Failure, OutboxRow}
use ppops.Database.Settlements.{list_chain_state_recheck_candidates}
use ppops.Quorum.{QuorumError}
use ppops.Reconciliation.{reconcile, refresh_expirations}
use ppops.Scanner.{ScanError}
use ppops.Webhook.{WebhookConfig, Response, deliver_pending}

pub data RuntimeError : Type 0 where
  stopped : RuntimeError
  service : Failure → RuntimeError
  scan_failed : ScanError → RuntimeError
  refresh_failed : QuorumError → RuntimeError

pub record Maintenance : Type 0 where
  pub projections_changed : ℕ
  pub webhook_delivered : ℕ
  pub webhook_failed : ℕ

pub record ScanResult : Type 0 where
  pub discovered : ℕ
  pub reconciled : ℕ
  pub rechecked : ℕ
  pub projections_changed : ℕ
  pub webhook_delivered : ℕ
  pub webhook_failed : ℕ

-- What a call leaves: its result, and the tables.
abbrev pub Outcome {ℓ} : Type ℓ → Type ℓ
Outcome A = Result RuntimeError A × Database

-- The next call, unless this one threw.
abbrev pub and_then {ℓ κ} :
    {A : Type ℓ} {B : Type κ} → Outcome A → (A → Database → Outcome B) → Outcome B
and_then (err e, db) next = (err e, db)
and_then (ok a, db) next = next a db

abbrev pub of_service {ℓ} : {A : Type ℓ} → Result Failure A × Database → Outcome A
of_service (err e, db) = (err (service e), db)
of_service (ok a, db) = (ok a, db)

abbrev pub Webhooks : Type 0
Webhooks = Option (WebhookConfig × (OutboxRow → Response))

-- `maintenanceOnce` behind the expirations.
abbrev pub deliver : Webhooks → ℕ → ℕ → Database → Outcome Maintenance
deliver none projections_changed now db = (
  ok (record {
    projections_changed = projections_changed;
    webhook_delivered = 0;
    webhook_failed = 0;
  }),
  db,
)
deliver (some (config, request)) projections_changed now db =
    let (delivery, db') = deliver_pending config request now db in
    (
      ok (record {
        projections_changed = projections_changed;
        webhook_delivered = delivery.delivered;
        webhook_failed = delivery.failed + delivery.dead_lettered;
      }),
      db',
    )

module _ (sha256_hex : Text → Text) (webhooks : Webhooks) where
  unfoldable pub maintenance_once : Bool → ℕ → Database → Outcome Maintenance
  maintenance_once is_stopped now db =
      let refreshed = of_service (refresh_expirations sha256_hex now db) in
      if is_stopped
      then (err stopped, db)
      else and_then refreshed (λ changed. deliver webhooks changed now)

  unfoldable pub reconcile_all : List NormalizedSettlement → ℕ → Database → Outcome (Unit {0})
  reconcile_all [] now db = (ok tt, db)
  reconcile_all (candidate ∷ rest) now db =
      and_then (of_service (reconcile sha256_hex candidate now db))
        (λ stored. reconcile_all rest now)

  abbrev pub was_seen : List NormalizedSettlement → SettlementRecord → Bool
  was_seen candidates s =
      any (λ c. text_eq c.unique_settlement_id s.unique_settlement_id) candidates

  abbrev reconcile_refreshed :
      Result QuorumError NormalizedSettlement → ℕ → Database → Outcome SettlementRecord
  reconcile_refreshed (err e) now db = (err (refresh_failed e), db)
  reconcile_refreshed (ok refreshed) now db = of_service (reconcile sha256_hex refreshed now db)

  -- The loop over the settlements to check again, with the number of those checked; `meanwhile` is
  -- what others do to the tables while one of them is refreshed.
  unfoldable pub recheck_all :
      (SettlementRecord → Result QuorumError NormalizedSettlement)
      → (SettlementRecord → Database → Database)
      → List NormalizedSettlement
      → List SettlementRecord
      → ℕ
      → ℕ
      → Database
      → Outcome ℕ
  recheck_all refresh meanwhile candidates [] now rechecked db = (ok rechecked, db)
  recheck_all refresh meanwhile candidates (s ∷ rest) now rechecked db =
      let skipped = recheck_all refresh meanwhile candidates rest now rechecked db in
      if was_seen candidates s
      then skipped
      else and_then (reconcile_refreshed (refresh s) now (meanwhile s db))
          (λ stored. recheck_all refresh meanwhile candidates rest now (rechecked + 1))

  abbrev of_scan :
      Result ScanError (List NormalizedSettlement) → Database → Outcome (List NormalizedSettlement)
  of_scan (err e) db = (err (scan_failed e), db)
  of_scan (ok candidates) db = (ok candidates, db)

  -- `refresh` is `refreshKnownChainState` at the time of the scan. Others may write to the tables
  -- while the wallet is scanned and while a settlement is refreshed, and `stop` may be called
  -- before the second maintenance.
  unfoldable pub scan_once :
      Bool
      → Bool
      → Result ScanError (List NormalizedSettlement)
      → (Database → Database)
      → (SettlementRecord → Result QuorumError NormalizedSettlement)
      → (SettlementRecord → Database → Database)
      → ℕ
      → ℕ
      → Database
      → Outcome ScanResult
  scan_once is_stopped is_stopped_later scanned during_scan refresh meanwhile recheck_seconds now
        db =
      and_then (maintenance_once is_stopped now db) (λ earlier db1.
        and_then (of_scan scanned (during_scan db1)) (λ candidates db2.
          and_then (reconcile_all candidates now db2) (λ _ db3.
            and_then
              (recheck_all refresh meanwhile candidates
                (list_chain_state_recheck_candidates now recheck_seconds db3) now 0 db3)
              (λ rechecked db4. and_then (maintenance_once is_stopped_later now db4) (λ later db5. (
                ok (record {
                  discovered = length candidates;
                  reconciled = length candidates;
                  rechecked = rechecked;
                  projections_changed = earlier.projections_changed + later.projections_changed;
                  webhook_delivered = earlier.webhook_delivered + later.webhook_delivered;
                  webhook_failed = earlier.webhook_failed + later.webhook_failed;
                }),
                db5,
              ))))))
