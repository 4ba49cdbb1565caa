-- ===== src/Webhook/Retrying.antt =====
-- An event through a sequence of runs of src/events/webhook.ts that all fail for it.
use ppops.Prelude.{
  All-find, Bool-cases, leb, ℕ, ◌+◌, ◌≤◌, ◌<◌, ◌≡◌, refl, sym, ap, subst, ◌∙◌, true, List, [], ◌∷◌,
  Option, none, some, arith, ltb, if◌then◌else◌, length, is_some, Text, Option-cases, inl, inr,
}
use ppops.Prelude.Tables.{find_by, find_by-key, has_key, Distinct, Distinct-update_by}
use ppops.Database.{Database, OutboxRow}
use ppops.Database.Outbox.{
  event_key, is_undelivered, is_due, list_pending_events, mark_event_delivered, mark_event_failed,
  mark_event_dead_lettered,
}
use ppops.Webhook.{
  WebhookConfig, WebhookFailureCode, retry_seconds, Response, failure_of, deliver_pending,
  record_outcome, deliver_all, WebhookDeliveryResult, no_deliveries,
}
use ppops.Webhook.Outcomes.{settle}
use ppops.Webhook.Delivery.{settled_or, deliver_pending-rows, selected_found}

module _ (config : WebhookConfig) (request : OutboxRow → Response) where
  -- The tables after deliveries at the given times, the first one first.
  abbrev pub deliver_times : List ℕ → Database → Database
  deliver_times [] db = db
  deliver_times (now ∷ rest) db = deliver_times rest (deliver_pending config request now db).1

  -- Those of the times at which the event is among the selected ones.
  abbrev pub attempt_times : Text → List ℕ → Database → List ℕ
  attempt_times id [] db = []
  attempt_times id (now ∷ rest) db =
      let later = attempt_times id rest (deliver_pending config request now db).1 in
      if is_some (find_by event_key id (list_pending_events now 25 db)) then now ∷ later else later

  -- Times of attempts on an event that is due from `due` on and was tried `attempts` times: each
  -- attempt is due, and after it the event is due only when the delay has passed.
  abbrev pub AreSpaced : ℕ → ℕ → List ℕ → Type 0
  AreSpaced due attempts [] = Unit
  AreSpaced due attempts (now ∷ rest) =
      (due ≤ now) × AreSpaced (now + retry_seconds config attempts) (attempts + 1) rest

  -- The row has been tried `attempts` times, is still to be delivered exactly if that is below the
  -- maximum, and is then due at `due`.
  record IsOpen (due attempts : ℕ) (row : OutboxRow) : Type 0 where
    tried : row.attempts ≡ attempts
    bounded : attempts ≤ config.max_attempts
    open_still : is_undelivered row ≡ ltb attempts config.max_attempts
    due_at : is_undelivered row ≡ true → row.next_attempt_at ≡ due

  settle-IsOpen :
      (now due attempts : ℕ) (code : WebhookFailureCode) (row : OutboxRow)
      → IsOpen due attempts row
      → is_due now row ≡ true
      → (due ≤ now)
        × IsOpen
            (now + retry_seconds config attempts)
            (attempts + 1)
            (settle config now (some code) row)
  unfolding settle
  settle-IsOpen now due attempts code row h d =
      let tried = h.tried in
      let open_still = h.open_still in
      let bounded = h.bounded in
      let due_at = h.due_at in
      (
        ground arith,
        record {
          tried = ground arith;
          bounded = ground arith;
          open_still = ground arith;
          due_at = ground arith;
        },
      )

  record_outcome-Distinct :
      (now : ℕ) (row : OutboxRow) (o : Option WebhookFailureCode)
      (s : WebhookDeliveryResult × Database)
      → Distinct event_key s.1.outbox_events
      → Distinct event_key (record_outcome config row o now s).1.outbox_events
  unfolding record_outcome mark_event_delivered mark_event_failed mark_event_dead_lettered
  record_outcome-Distinct now row none (result, db) d =
      Distinct-update_by event_key row.event_id _ db.outbox_events (λ x. refl) d
  record_outcome-Distinct now row (some code) (result, db) d =
      elim (Bool-cases (leb config.max_attempts (row.attempts + 1))) [
        | inl e ↦ rw e (Distinct-update_by event_key row.event_id _ db.outbox_events (λ x. refl) d)
        | inr e ↦ rw e (Distinct-update_by event_key row.event_id _ db.outbox_events (λ x. refl) d)
      ]

  deliver_all-Distinct :
      (now : ℕ) (rows : List OutboxRow) (s : WebhookDeliveryResult × Database)
      → Distinct event_key s.1.outbox_events
      → Distinct event_key (deliver_all config request now rows s).1.outbox_events
  unfolding deliver_all
  deliver_all-Distinct now [] s d = d
  deliver_all-Distinct now (row ∷ rest) s d =
      deliver_all-Distinct now rest (record_outcome config row (failure_of (request row)) now s)
        (record_outcome-Distinct now row (failure_of (request row)) s d)

  deliver_pending-Distinct :
      (now : ℕ) (db : Database)
      → Distinct event_key db.outbox_events
      → Distinct event_key (deliver_pending config request now db).1.outbox_events
  unfolding deliver_pending
  deliver_pending-Distinct now db d =
      deliver_all-Distinct now (list_pending_events now 25 db) (no_deliveries, db) d

  -- A selected row is the one of the table, and due.
  selected-is_due :
      (now : ℕ) (db : Database) (id : Text) (row chosen : OutboxRow)
      → Distinct event_key db.outbox_events
      → find_by event_key id db.outbox_events ≡ some row
      → find_by event_key id (list_pending_events now 25 db) ≡ some chosen
      → (chosen ≡ row) × (is_due now row ≡ true)
  selected-is_due now db id row chosen d found e =
      let rows = list_pending_events now 25 db in
      let ((there, due), hit) =
        All-find _ (has_key event_key id) rows chosen (selected_found config request now db d) e in
      let same_id = find_by-key event_key id rows chosen e in
      let both : some chosen ≡ some row =
        sym there ∙ ap (λ k. find_by event_key k db.outbox_events) same_id ∙ found in
      let same : chosen ≡ row = cc both in (same, subst (λ r. is_due now r ≡ true) same due)

  -- Every request for the event fails.
  abbrev AllFail : Text → Type 0
  AllFail id = (row : OutboxRow) → row.event_id ≡ id → is_some (failure_of (request row)) ≡ true

  -- How far an event has come that was attempted at the given times, after `attempts` earlier tries
  -- and due from `due` on.
  abbrev pub HasCome : ℕ → ℕ → Text → List ℕ → Database → Type 0
  HasCome due attempts id times db =
      (last : OutboxRow) × (find_by event_key id db.outbox_events ≡ some last)
      × (last.attempts ≡ attempts + length times)
      × (last.attempts ≤ config.max_attempts)
      × (is_undelivered last ≡ ltb last.attempts config.max_attempts)
      × AreSpaced due attempts times

  attempted-HasCome :
      (now due attempts : ℕ) (id : Text) (times : List ℕ) (db : Database)
      → due ≤ now
      → HasCome (now + retry_seconds config attempts) (attempts + 1) id times db
      → HasCome due attempts id (now ∷ times) db
  attempted-HasCome now due attempts id times db early
        (last, found, tried, bounded, open_still, s) =
      (last, found, omega (arith, tried), bounded, open_still, (early, s))

  -- The row of a selected event after a delivery that fails for it.
  selected-settled :
      (now : ℕ) (db : Database) (id : Text) (row chosen : OutboxRow)
      → Distinct event_key db.outbox_events
      → find_by event_key id db.outbox_events ≡ some row
      → AllFail id
      → find_by event_key id (list_pending_events now 25 db) ≡ some chosen
      → (code : WebhookFailureCode) × (find_by event_key id
            (deliver_pending config request now db).1.outbox_events
          ≡ some (settle config now (some code) row))
  selected-settled now db id row chosen d found fails e =
      let after = deliver_pending-rows config request now db id d in
      let (same, due) = selected-is_due now db id row chosen d found e in
      let own_id = find_by-key event_key id db.outbox_events row found in
      elim (Option-cases (failure_of (request row))) [
        | inl none_failed ↦ cc (fails row own_id, ap is_some none_failed)
        | inr (code, failed) ↦ (
          code,
          after
              ∙ ap (λ o. settled_or config request now o (find_by event_key id db.outbox_events))
                  (e ∙ ap some same)
              ∙ ap (λ o. some (settle config now o row)) failed,
        )
      ]

  attempts_from :
      (times : List ℕ) (db : Database) (id : Text) (row : OutboxRow) (due attempts : ℕ)
      → Distinct event_key db.outbox_events
      → find_by event_key id db.outbox_events ≡ some row
      → AllFail id
      → IsOpen due attempts row
      → HasCome due attempts id (attempt_times id times db) (deliver_times times db)
  attempts_from [] db id row due attempts d found fails h =
      let tried = h.tried in
      let bounded = h.bounded in
      let open_still = h.open_still in (row, found, ground arith, ground arith, ground arith, tt)
  attempts_from (now ∷ rest) db id row due attempts d found fails h =
      let db1 = (deliver_pending config request now db).1 in
      let d1 = deliver_pending-Distinct now db d in
      elim (Option-cases (find_by event_key id (list_pending_events now 25 db))) [
        | inl e ↦
            let found1 : find_by event_key id db1.outbox_events ≡ some row =
              deliver_pending-rows config request now db id d ∙ rw e found in
            rw e (attempts_from rest db1 id row due attempts d1 found1 fails h)
        | inr (chosen, e) ↦
            let (code, found1) = selected-settled now db id row chosen d found fails e in
            let chosen_due = (selected-is_due now db id row chosen d found e).1 in
            let (early, next) = settle-IsOpen now due attempts code row h chosen_due in
            let later =
              attempts_from rest db1 id (settle config now (some code) row)
                (now + retry_seconds config attempts) (attempts + 1) d1 found1 fails next in
            let tries = attempt_times id rest db1 in
            let last = deliver_times rest db1 in
            rw e (attempted-HasCome now due attempts id tries last early later)
      ]

  -- Take an undelivered event with tries left, in a table without two rows of one event id, and let
  -- every request for it fail. After any sequence of deliveries its row has one more attempt for
  -- each delivery that selected the event, never more than the configured maximum, and it is still
  -- to be delivered exactly if it has not reached the maximum. Each of these deliveries came when
  -- the event was due: not before its first due time, and then not before the retry delay had
  -- passed since the attempt before.
  pub deliver_pending-attempts :
      (times : List ℕ) (db : Database) (id : Text) (row : OutboxRow)
      → Distinct event_key db.outbox_events
      → find_by event_key id db.outbox_events ≡ some row
      → ((r : OutboxRow) → r.event_id ≡ id → is_some (failure_of (request r)) ≡ true)
      → is_undelivered row ≡ true
      → row.attempts < config.max_attempts
      → HasCome row.next_attempt_at row.attempts id
          (attempt_times id times db)
          (deliver_times times db)
  deliver_pending-attempts times db id row d found fails u room =
      attempts_from times db id row row.next_attempt_at row.attempts d found fails (record {
        tried = refl;
        bounded = omega arith;
        open_still = ground arith;
        due_at = λ e. refl;
      })
