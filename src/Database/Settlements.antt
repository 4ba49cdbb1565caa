-- ===== src/Database/Settlements.antt =====
-- The statements of src/db/database.ts on settlements.
use ppops.Prelude.{
  ℕ, ◌-◌, Bool, true, false, not, ◌&&◌, ◌||◌, List, [], ◌∷◌, ◌++◌, map, Option, none, some, ltb,
  leb, ◌==◌, if◌then◌else◌, is_some, any, filter, Text, text_eq, option_text_eq, truthy,
}
use ppops.Prelude.Sorting.{sort}
use ppops.Prelude.Tables.{find_by, update_by}
use ppops.Prelude.Results.{Result, ok, err}
use ppops.Domain.{SettlementRecord, is_finalized}
use ppops.Database.{Database, Failure, sqlite_constraint, settlement_disappeared}
use ppops.Database.Intents.{get_intent}

-- `settlementFromRow`: an empty text in an optional column is read as absent.
unfoldable pub settlement_from_row : SettlementRecord → SettlementRecord
settlement_from_row row = record row {
  settlement = record row.settlement {
    railgun_txid = truthy row.railgun_txid;
    reference = truthy row.reference;
  };
  intent_id = truthy row.intent_id;
}

abbrev pub row_key : SettlementRecord → Text
row_key row = row.unique_settlement_id

abbrev from_found : Option SettlementRecord → Option SettlementRecord
from_found none = none
from_found (some row) = some (settlement_from_row row)

unfoldable pub get_settlement : Text → Database → Option SettlementRecord
unfolding settlement_from_row
get_settlement id db = from_found (find_by row_key id db.settlements)

-- COALESCE(settlements.eligible_at, excluded.eligible_at)
abbrev pub coalesce : Option ℕ → Option ℕ → Option ℕ
coalesce none fresh = fresh
coalesce (some t) fresh = some t

-- DO UPDATE SET: `row` with the columns that the statement takes from `excluded`.
unfoldable pub overwrite : SettlementRecord → SettlementRecord → SettlementRecord
overwrite excluded row = record row {
  settlement = record row.settlement {
    railgun_txid = excluded.railgun_txid;
    block_number = excluded.block_number;
    block_timestamp = excluded.block_timestamp;
    balance_bucket = excluded.balance_bucket;
    raw_ppoi_statuses = excluded.raw_ppoi_statuses;
    chain_status = excluded.chain_status;
    poi_status = excluded.poi_status;
    reference = excluded.reference;
  };
  match_status = excluded.match_status;
  intent_id = excluded.intent_id;
  last_seen_at = excluded.last_seen_at;
  eligible_at = coalesce row.eligible_at excluded.eligible_at;
}

-- UNIQUE(chain_id, txid_version, transaction_hash, tree, position)
unfoldable pub same_output : SettlementRecord → SettlementRecord → Bool
same_output left right =
    left.chain_id == right.chain_id
    && text_eq left.txid_version right.txid_version
    && text_eq left.transaction_hash right.transaction_hash
    && left.tree == right.tree
    && left.position == right.position

-- REFERENCES payment_intents(id), of a column that may be NULL
abbrev pub intent_exists : Option Text → Database → Bool
intent_exists none db = true
intent_exists (some id) db = is_some (get_intent id db)

-- The INSERT ... ON CONFLICT(id) DO UPDATE.
unfoldable pub write_settlement : SettlementRecord → Database → Result Failure Database
unfolding overwrite same_output
write_settlement s db =
    if not (intent_exists s.intent_id db)
    then err sqlite_constraint
    else if is_some (find_by row_key s.unique_settlement_id db.settlements)
    then ok (record db {
      settlements = update_by row_key s.unique_settlement_id (overwrite s) db.settlements;
    })
    else if any (same_output s) db.settlements
    then err sqlite_constraint
    else ok (record db { settlements = db.settlements ++ s ∷ [] })

abbrev stored_settlement : Text → Database → Result Failure (SettlementRecord × Database)
stored_settlement id db = elim (get_settlement id db) [
  | none ↦ err settlement_disappeared
  | some stored ↦ ok (stored, db)
]

abbrev then_read : Text → Result Failure Database → Result Failure (SettlementRecord × Database)
then_read id (ok db) = stored_settlement id db
then_read id (err e) = err e

unfoldable pub upsert_settlement :
    SettlementRecord → Database → Result Failure (SettlementRecord × Database)
unfolding write_settlement get_settlement
upsert_settlement s db = then_read s.unique_settlement_id (write_settlement s db)

-- ORDER BY block_number, tree, position; ties in row order
unfoldable pub row_before : SettlementRecord → SettlementRecord → Bool
row_before left right =
    ltb left.block_number right.block_number
    || left.block_number == right.block_number
      && (ltb left.tree right.tree || left.tree == right.tree && ltb left.position right.position)

abbrev pub is_for : Text → SettlementRecord → Bool
is_for intent_id row = option_text_eq row.intent_id (some intent_id)

unfoldable pub list_settlements_for_intent : Text → Database → List SettlementRecord
unfolding row_before settlement_from_row
list_settlements_for_intent intent_id db =
    map settlement_from_row (sort row_before (filter (is_for intent_id) db.settlements))

abbrev eligible_since : ℕ → Option ℕ → Bool
eligible_since start none = false
eligible_since start (some t) = leb start t

-- A start before the epoch admits what a start at the epoch does, so `-` may stop at 0.
unfoldable pub list_chain_state_recheck_candidates : ℕ → ℕ → Database → List SettlementRecord
unfolding settlement_from_row
list_chain_state_recheck_candidates now finalized_recheck_seconds db = map settlement_from_row (
    filter
      (λ row.
        not (is_finalized row.chain_status)
        || eligible_since (now - finalized_recheck_seconds) row.eligible_at)
      db.settlements)
