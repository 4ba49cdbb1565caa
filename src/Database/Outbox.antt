-- ===== src/Database/Outbox.antt =====
-- The statements of src/db/database.ts on the webhook outbox.
use ppops.Prelude.{
  ℕ, ◌+◌, Bool, true, false, not, ◌&&◌, ◌||◌, List, [], ◌∷◌, ◌++◌, Option, none, some, ltb, leb,
  if◌then◌else◌, is_some, filter, take, length, Text,
}
use ppops.Prelude.Sorting.{sort}
use ppops.Prelude.Tables.{find_by, update_by}
use ppops.Prelude.Results.{Result, ok, err}
use ppops.Domain.{PpOpsEvent}
use ppops.Database.{Database, OutboxRow, Failure, sqlite_constraint}
use ppops.Database.Intents.{get_intent}
use ppops.Database.Settlements.{row_key}

abbrev pub settlement_exists : Option Text → Database → Bool
settlement_exists none db = true
settlement_exists (some id) db = is_some (find_by row_key id db.settlements)

abbrev pub fresh_row : PpOpsEvent → Text → OutboxRow
fresh_row event dedupe_key = record {
  event_id = event.event_id;
  dedupe_key = dedupe_key;
  intent_id = event.intent_id;
  settlement_id = event.settlement_id;
  payload = event;
  occurred_at = event.occurred_at;
  attempts = 0;
  next_attempt_at = event.occurred_at;
  delivered_at = none;
  dead_lettered_at = none;
  last_error = none;
}

-- INSERT OR IGNORE: a row with the event's id or dedupe key is kept, and the new one dropped. A
-- missing intent or settlement is a failure all the same.
unfoldable pub insert_event : PpOpsEvent → Text → Database → Result Failure (Bool × Database)
insert_event event dedupe_key db =
    if is_some (find_by (λ r. r.event_id) event.event_id db.outbox_events)
      || is_some (find_by (λ r. r.dedupe_key) dedupe_key db.outbox_events)
    then ok (false, db)
    else if is_some (get_intent event.intent_id db) && settlement_exists event.settlement_id db
    then ok
        (true, record db { outbox_events = db.outbox_events ++ fresh_row event dedupe_key ∷ [] })
    else err sqlite_constraint

-- delivered_at IS NULL AND dead_lettered_at IS NULL
abbrev pub is_undelivered : OutboxRow → Bool
is_undelivered row = not (is_some row.delivered_at) && not (is_some row.dead_lettered_at)

abbrev pub is_due : ℕ → OutboxRow → Bool
is_due now row = is_undelivered row && leb row.next_attempt_at now

-- ORDER BY occurred_at, rowid LIMIT ?
unfoldable pub list_pending_events : ℕ → ℕ → Database → List OutboxRow
list_pending_events now limit db = take limit (
    sort (λ left right. ltb left.occurred_at right.occurred_at)
      (filter (is_due now) db.outbox_events))

abbrev pub event_key : OutboxRow → Text
event_key row = row.event_id

abbrev update_event : Text → (OutboxRow → OutboxRow) → Database → Database
update_event event_id f db = record db {
  outbox_events = update_by event_key event_id f db.outbox_events;
}

abbrev pub delivered_row : ℕ → OutboxRow → OutboxRow
delivered_row at row = record row {
  delivered_at = some at;
  attempts = row.attempts + 1;
  last_error = none;
}

unfoldable pub mark_event_delivered : Text → ℕ → Database → Database
mark_event_delivered event_id delivered_at db =
    update_event event_id (delivered_row delivered_at) db

abbrev pub failed_row : ℕ → Text → OutboxRow → OutboxRow
failed_row next error row = record row {
  attempts = row.attempts + 1;
  next_attempt_at = next;
  last_error = some (take 500 error);
}

unfoldable pub mark_event_failed : Text → ℕ → Text → Database → Database
mark_event_failed event_id next error db = update_event event_id (failed_row next error) db

abbrev pub dead_row : ℕ → Text → OutboxRow → OutboxRow
dead_row at error row = record row {
  attempts = row.attempts + 1;
  dead_lettered_at = some at;
  last_error = some (take 500 error);
}

unfoldable pub mark_event_dead_lettered : Text → ℕ → Text → Database → Database
mark_event_dead_lettered event_id failed_at error db =
    update_event event_id (dead_row failed_at error) db

unfoldable pub count_undelivered_events : Database → ℕ
count_undelivered_events db = length (filter is_undelivered db.outbox_events)

abbrev pub replayed_row : ℕ → OutboxRow → OutboxRow
replayed_row now row =
    if is_some row.dead_lettered_at
    then record row {
      attempts = 0;
      next_attempt_at = now;
      delivered_at = none;
      dead_lettered_at = none;
      last_error = none;
    }
    else row

abbrev was_dead : Option OutboxRow → Bool
was_dead none = false
was_dead (some row) = is_some row.dead_lettered_at

-- WHERE event_id = ? AND dead_lettered_at IS NOT NULL; whether a row was changed
unfoldable pub replay_dead_lettered_event : Text → ℕ → Database → Bool × Database
replay_dead_lettered_event event_id now db = (
  was_dead (find_by event_key event_id db.outbox_events),
  update_event event_id (replayed_row now) db,
)
