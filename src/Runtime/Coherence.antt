-- ===== src/Runtime/Coherence.antt =====
-- The coherence of the tables through a whole scan.
use ppops.Prelude.{
  ℕ, Bool, true, false, List, [], ◌∷◌, Option, none, some, leb, Text, Bool-cases, inl, inr, ◌+◌,
}
use ppops.Prelude.Results.{Result, ok, err}
use ppops.Domain.{NormalizedSettlement, SettlementRecord}
use ppops.Database.{Database, Failure, OutboxRow}
use ppops.Database.Intents.{get_projection}
use ppops.Database.Settlements.{list_settlements_for_intent, list_chain_state_recheck_candidates}
use ppops.Database.Outbox.{
  list_pending_events, mark_event_delivered, mark_event_failed, mark_event_dead_lettered,
}
use ppops.Quorum.{QuorumError}
use ppops.Reconciliation.{reconcile, refresh_expirations}
use ppops.Reconciliation.Coherence.{
  IsCoherent, reconcile-IsCoherent, refresh_expirations-IsCoherent,
}
use ppops.Scanner.{ScanError}
use ppops.Webhook.{
  WebhookConfig, WebhookFailureCode, Response, WebhookDeliveryResult, failure_of, no_deliveries,
  record_outcome, deliver_all, deliver_pending,
}
use ppops.Runtime.{
  Outcome, and_then, of_service, Webhooks, deliver, maintenance_once, reconcile_all, was_seen,
  reconcile_refreshed, recheck_all, of_scan, scan_once,
}

-- The outbox has no part in it.
IsCoherent-outbox :
    (db : Database) (rows : List OutboxRow)
    → IsCoherent db
    → IsCoherent (record db { outbox_events = rows })
unfolding get_projection list_settlements_for_intent
IsCoherent-outbox db rows v = record {
  ids = v.ids;
  rows = v.rows;
  attached = v.attached;
  accounts = v.accounts;
}

module _ (config : WebhookConfig) (now : ℕ) where
  record_outcome-IsCoherent :
      (row : OutboxRow) (o : Option WebhookFailureCode) (s : WebhookDeliveryResult × Database)
      → IsCoherent s.1
      → IsCoherent (record_outcome config row o now s).1
  unfolding record_outcome mark_event_delivered mark_event_failed mark_event_dead_lettered
  record_outcome-IsCoherent row none (result, db) v = IsCoherent-outbox db _ v
  record_outcome-IsCoherent row (some code) (result, db) v =
      elim (Bool-cases (leb config.max_attempts (row.attempts + 1))) [
        | inl e ↦ rw e (IsCoherent-outbox db _ v)
        | inr e ↦ rw e (IsCoherent-outbox db _ v)
      ]

  deliver_all-IsCoherent :
      (request : OutboxRow → Response) (rows : List OutboxRow)
      (s : WebhookDeliveryResult × Database)
      → IsCoherent s.1
      → IsCoherent (deliver_all config request now rows s).1
  unfolding deliver_all
  deliver_all-IsCoherent request [] s v = v
  deliver_all-IsCoherent request (row ∷ rest) s v =
      deliver_all-IsCoherent request rest
        (record_outcome config row (failure_of (request row)) now s)
        (record_outcome-IsCoherent row (failure_of (request row)) s v)

and_then-IsCoherent {ℓ κ} :
    {A : Type ℓ} {B : Type κ} (o : Outcome A) (next : A → Database → Outcome B)
    → IsCoherent o.1
    → ((a : A) (db : Database) → IsCoherent db → IsCoherent (next a db).1)
    → IsCoherent (and_then o next).1
and_then-IsCoherent (err e, db) next v step = v
and_then-IsCoherent (ok a, db) next v step = step a db v

of_service-IsCoherent {ℓ} :
    {A : Type ℓ} (o : Result Failure A × Database) → IsCoherent o.1 → IsCoherent (of_service o).1
of_service-IsCoherent (err e, db) v = v
of_service-IsCoherent (ok a, db) v = v

deliver-IsCoherent :
    (webhooks : Webhooks) (changed now : ℕ) (db : Database)
    → IsCoherent db
    → IsCoherent (deliver webhooks changed now db).1
unfolding deliver_pending
deliver-IsCoherent none changed now db v = v
deliver-IsCoherent (some (config, request)) changed now db v =
    deliver_all-IsCoherent config now request (list_pending_events now 25 db) (no_deliveries, db) v

module _ (sha256_hex : Text → Text) (webhooks : Webhooks) where
  maintenance_once-IsCoherent :
      (is_stopped : Bool) (now : ℕ) (db : Database)
      → IsCoherent db
      → IsCoherent (maintenance_once sha256_hex webhooks is_stopped now db).1
  unfolding maintenance_once
  maintenance_once-IsCoherent true now db v = v
  maintenance_once-IsCoherent false now db v =
      and_then-IsCoherent (of_service (refresh_expirations sha256_hex now db)) _
        (of_service-IsCoherent (refresh_expirations sha256_hex now db)
          (refresh_expirations-IsCoherent sha256_hex now db v))
        (λ changed db' v'. deliver-IsCoherent webhooks changed now db' v')

  of_reconcile-IsCoherent :
      (c : NormalizedSettlement) (now : ℕ) (db : Database)
      → IsCoherent db
      → IsCoherent (of_service (reconcile sha256_hex c now db)).1
  of_reconcile-IsCoherent c now db v =
      of_service-IsCoherent (reconcile sha256_hex c now db)
        (reconcile-IsCoherent sha256_hex c now db v)

  reconcile_all-IsCoherent :
      (candidates : List NormalizedSettlement) (now : ℕ) (db : Database)
      → IsCoherent db
      → IsCoherent (reconcile_all sha256_hex webhooks candidates now db).1
  unfolding reconcile_all
  reconcile_all-IsCoherent [] now db v = v
  reconcile_all-IsCoherent (c ∷ rest) now db v =
      and_then-IsCoherent (of_service (reconcile sha256_hex c now db)) _
        (of_reconcile-IsCoherent c now db v)
        (λ stored db' v'. reconcile_all-IsCoherent rest now db' v')

  reconcile_refreshed-IsCoherent :
      (refreshed : Result QuorumError NormalizedSettlement) (now : ℕ) (db : Database)
      → IsCoherent db
      → IsCoherent (reconcile_refreshed sha256_hex webhooks refreshed now db).1
  reconcile_refreshed-IsCoherent (err e) now db v = v
  reconcile_refreshed-IsCoherent (ok c) now db v = of_reconcile-IsCoherent c now db v

  recheck_all-IsCoherent :
      (refresh : SettlementRecord → Result QuorumError NormalizedSettlement)
      (meanwhile : SettlementRecord → Database → Database) (candidates : List NormalizedSettlement)
      (known : List SettlementRecord) (now rechecked : ℕ) (db : Database)
      → ((s : SettlementRecord) (d : Database) → IsCoherent d → IsCoherent (meanwhile s d))
      → IsCoherent db
      → IsCoherent
          (recheck_all sha256_hex webhooks refresh meanwhile candidates known now rechecked db).1
  unfolding recheck_all
  recheck_all-IsCoherent refresh meanwhile candidates [] now rechecked db keeps v = v
  recheck_all-IsCoherent refresh meanwhile candidates (s ∷ rest) now rechecked db keeps v =
      elim (Bool-cases (was_seen sha256_hex webhooks candidates s)) [
        | inl e ↦
            rw e (recheck_all-IsCoherent refresh meanwhile candidates rest now rechecked db keeps v)
        | inr e ↦ rw e (
            and_then-IsCoherent
              (reconcile_refreshed sha256_hex webhooks (refresh s) now (meanwhile s db)) _
              (reconcile_refreshed-IsCoherent (refresh s) now (meanwhile s db) (keeps s db v))
              (λ stored db' v'.
                recheck_all-IsCoherent refresh meanwhile candidates rest now (rechecked + 1) db'
                  keeps v'))
      ]

  of_scan-IsCoherent :
      (scanned : Result ScanError (List NormalizedSettlement)) (db : Database)
      → IsCoherent db
      → IsCoherent (of_scan sha256_hex webhooks scanned db).1
  of_scan-IsCoherent (err e) db v = v
  of_scan-IsCoherent (ok candidates) db v = v

  -- A scan keeps the tables coherent wherever it ends: whether it completes, finds the daemon
  -- stopped, or throws in a service, in the wallet's scan or in a refresh after some of its writes,
  -- the ids of intents and of settlements are distinct, each intent's projection is the account, as
  -- of some time, of its settlements and each attached settlement is so by its own reference, chain
  -- and token, if all this held before and what others write to the tables while the wallet is
  -- scanned and while a settlement is refreshed keeps it.
  pub scan_once-IsCoherent :
      (is_stopped is_stopped_later : Bool) (scanned : Result ScanError (List NormalizedSettlement))
      (during_scan : Database → Database)
      (refresh : SettlementRecord → Result QuorumError NormalizedSettlement)
      (meanwhile : SettlementRecord → Database → Database) (recheck_seconds now : ℕ) (db : Database)
      → ((d : Database) → IsCoherent d → IsCoherent (during_scan d))
      → ((s : SettlementRecord) (d : Database) → IsCoherent d → IsCoherent (meanwhile s d))
      → IsCoherent db
      → IsCoherent
          (scan_once sha256_hex webhooks is_stopped is_stopped_later scanned during_scan refresh
            meanwhile recheck_seconds now db).1
  unfolding scan_once
  scan_once-IsCoherent is_stopped is_stopped_later scanned during_scan refresh meanwhile
        recheck_seconds now db scan_keeps keeps v =
      and_then-IsCoherent (maintenance_once sha256_hex webhooks is_stopped now db) _
        (maintenance_once-IsCoherent is_stopped now db v)
        (λ earlier db1 v1.
          and_then-IsCoherent (of_scan sha256_hex webhooks scanned (during_scan db1)) _
            (of_scan-IsCoherent scanned (during_scan db1) (scan_keeps db1 v1))
            (λ candidates db2 v2.
              and_then-IsCoherent (reconcile_all sha256_hex webhooks candidates now db2) _
                (reconcile_all-IsCoherent candidates now db2 v2)
                (λ u db3 v3.
                  and_then-IsCoherent
                    (recheck_all sha256_hex webhooks refresh meanwhile candidates
                      (list_chain_state_recheck_candidates now recheck_seconds db3) now 0 db3)
                    _
                    (recheck_all-IsCoherent refresh meanwhile candidates
                      (list_chain_state_recheck_candidates now recheck_seconds db3) now 0 db3 keeps
                      v3)
                    (λ rechecked db4 v4.
                      and_then-IsCoherent
                        (maintenance_once sha256_hex webhooks is_stopped_later now db4) _
                        (maintenance_once-IsCoherent is_stopped_later now db4 v4)
                        (λ later db5 v5. v5)))))
