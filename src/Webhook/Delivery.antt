-- ===== src/Webhook/Delivery.antt =====
-- What a run of deliveries does to the rows of the outbox.
use ppops.Prelude.{
  ℕ, ◌+◌, ◌≤◌, ◌≡◌, refl, sym, ap, subst, ◌∙◌, true, false, List, [], ◌∷◌, Option, none, some,
  arith, leb, if◌then◌else◌, length, Bool-cases, inl, inr, Text, text_eq, text_eq_iff, text_eq_refl,
  All, All-weaken, All-both, length-take-le, All-filter, All-take,
}
use ppops.Prelude.Sorting.{All-sort}
use ppops.Prelude.Tables.{
  find_by, update_by, Distinct, Distinct-found, Distinct-update_by, update_by-agree,
  find_by-update_self, find_by-update_other, find_by-none-All,
}
use ppops.Prelude.Selections.{Distinct-sort, Distinct-filter, Distinct-take}
use ppops.Database.{Database, OutboxRow}
use ppops.Database.Outbox.{
  event_key, dead_row, failed_row, is_due, list_pending_events, mark_event_delivered,
  mark_event_failed, mark_event_dead_lettered,
}
use ppops.Webhook.{
  WebhookConfig, WebhookFailureCode, failure_text, retry_seconds, Response, WebhookDeliveryResult,
  failure_of, no_deliveries, record_outcome, deliver_all, deliver_pending,
}
use ppops.Webhook.Outcomes.{settle}

module _ (config : WebhookConfig) where
  pub event_key-settle :
      (now : ℕ) (o : Option WebhookFailureCode) (row : OutboxRow)
      → event_key (settle config now o row) ≡ event_key row
  unfolding settle
  event_key-settle now none row = refl
  event_key-settle now (some code) row = ground arith

  -- One round updates the row of its event, which is the row that was read, to its settled form.
  record_outcome-row :
      (row : OutboxRow) (o : Option WebhookFailureCode) (now : ℕ) (result : WebhookDeliveryResult)
      (db : Database)
      → Distinct event_key db.outbox_events
      → find_by event_key row.event_id db.outbox_events ≡ some row
      → (record_outcome config row o now (result, db)).1 ≡ record db {
        outbox_events = update_by event_key row.event_id (settle config now o) db.outbox_events;
      }
  unfolding record_outcome mark_event_delivered mark_event_failed mark_event_dead_lettered settle
  record_outcome-row row none now result db d h = refl
  record_outcome-row row (some code) now result db d h =
      let agree = λ (f : OutboxRow → OutboxRow) (e : f row ≡ settle config now (some code) row).
        ap (λ rows. record db { outbox_events = rows })
          (update_by-agree event_key row.event_id f (settle config now (some code)) db.outbox_events
            row h d e) in
      elim (Bool-cases (leb config.max_attempts (row.attempts + 1))) [
        | inl e ↦ rw e (agree (dead_row now (failure_text code)) (rw e))
        | inr e ↦ rw e (
            agree (failed_row (now + retry_seconds config row.attempts) (failure_text code)) (rw e))
      ]

text_eq_apart : (a b : Text) → text_eq a b ≡ false → text_eq b a ≡ false
text_eq_apart a b h = ground (arith, text_eq_iff a b, text_eq_iff b a)

-- What a delivery leaves of the row under an id: the settled row if it was among those selected.
abbrev pub settled_or :
    WebhookConfig
    → (OutboxRow → Response)
    → ℕ
    → Option OutboxRow
    → Option OutboxRow
    → Option OutboxRow
settled_or config request now none before = before
settled_or config request now (some row) before =
    some (settle config now (failure_of (request row)) row)

module _ (config : WebhookConfig) (request : OutboxRow → Response) (now : ℕ) where
  one_row :
      (row : OutboxRow) (id : Text) (db db1 : Database)
      → find_by event_key row.event_id db.outbox_events ≡ some row
      → db1.outbox_events
        ≡ update_by event_key row.event_id
            (settle config now (failure_of (request row)))
            db.outbox_events
      → find_by event_key id db1.outbox_events ≡ (
          if text_eq row.event_id id
          then some (settle config now (failure_of (request row)) row)
          else find_by event_key id db.outbox_events)
  one_row row id db db1 found e =
      let f = settle config now (failure_of (request row)) in
      let keep = event_key-settle config now (failure_of (request row)) in
      elim (Bool-cases (text_eq row.event_id id)) [
        | inl same ↦
            ap (find_by event_key id) e
            ∙ rw (← (text_eq_iff row.event_id id).0 same, text_eq_refl row.event_id)
                (find_by-update_self event_key row.event_id f db.outbox_events row keep found)
        | inr apart ↦
            ap (find_by event_key id) e
            ∙ rw apart
                (find_by-update_other event_key row.event_id id f db.outbox_events keep apart)
      ]

  record_outcome-counts :
      (row : OutboxRow) (o : Option WebhookFailureCode) (s : WebhookDeliveryResult × Database)
      → let r = (record_outcome config row o now s).0 in
        (r.attempted ≡ s.0.attempted + 1)
        × (r.delivered + r.failed + r.dead_lettered
            ≡ s.0.delivered + s.0.failed + s.0.dead_lettered + 1)
  unfolding record_outcome
  record_outcome-counts row none (result, db) = (omega arith, omega arith)
  record_outcome-counts row (some code) (result, db) = ground arith

  join :
      (row : OutboxRow) (rest : List OutboxRow) (id : Text) (now_rows before_rows : List OutboxRow)
      → find_by event_key row.event_id rest ≡ none
      → find_by event_key id now_rows ≡ (
          if text_eq row.event_id id
          then some (settle config now (failure_of (request row)) row)
          else find_by event_key id before_rows)
      → settled_or config request now (find_by event_key id rest) (find_by event_key id now_rows)
        ≡ settled_or config request now
            (find_by event_key id (row ∷ rest))
            (find_by event_key id before_rows)
  join row rest id now_rows before_rows gone e = elim (Bool-cases (text_eq row.event_id id)) [
    | inl same ↦
        let none_left : find_by event_key id rest ≡ none =
          subst (λ k. find_by event_key k rest ≡ none) ((text_eq_iff row.event_id id).0 same)
            gone in
        rw (none_left, same) (e ∙ rw same)
    | inr apart ↦
        rw apart (ap (settled_or config request now (find_by event_key id rest)) (e ∙ rw apart))
  ]

  deliver_all-rows :
      (rows : List OutboxRow) (result : WebhookDeliveryResult) (db : Database) (id : Text)
      → Distinct event_key db.outbox_events
      → Distinct event_key rows
      → All (λ row. find_by event_key row.event_id db.outbox_events ≡ some row) rows
      → find_by event_key id (deliver_all config request now rows (result, db)).1.outbox_events
        ≡ settled_or config request now
            (find_by event_key id rows)
            (find_by event_key id db.outbox_events)
  unfolding deliver_all
  deliver_all-rows [] result db id d r a = refl
  deliver_all-rows (row ∷ rest) result db id d r a =
      let outcome = failure_of (request row) in
      let s1 = record_outcome config row outcome now (result, db) in
      let e =
        ap (λ (t : Database). t.outbox_events)
          (record_outcome-row config row outcome now result db d a.0) in
      let keep = event_key-settle config now outcome in
      let d1 : Distinct event_key s1.1.outbox_events = subst (Distinct event_key) (sym e) (
        Distinct-update_by event_key row.event_id (settle config now outcome) db.outbox_events keep
          d) in
      let apart = find_by-none-All event_key row.event_id rest r.0 in
      let a1 : All (λ x. find_by event_key x.event_id s1.1.outbox_events ≡ some x) rest =
        All-weaken _ (λ x. find_by event_key x.event_id s1.1.outbox_events ≡ some x) rest
          (λ x (found, other).
            one_row row x.event_id db s1.1 a.0 e
            ∙ rw (text_eq_apart x.event_id row.event_id other) found)
          (All-both _ _ rest a.1 apart) in
      deliver_all-rows rest s1.0 s1.1 id d1 r.1 a1
      ∙ join row rest id s1.1.outbox_events db.outbox_events r.0 (one_row row id db s1.1 a.0 e)

  -- The selected rows are rows of the table, due and of distinct ids.
  pub selected_found :
      (db : Database)
      → Distinct event_key db.outbox_events
      → All
          (λ row.
            (find_by event_key row.event_id db.outbox_events ≡ some row) × (is_due now row ≡ true))
          (list_pending_events now 25 db)
  unfolding list_pending_events
  selected_found db d = All-take _ 25 _ (
      All-sort _ _ _ (
        All-filter (λ row. find_by event_key row.event_id db.outbox_events ≡ some row) (is_due now)
          db.outbox_events (Distinct-found event_key db.outbox_events d)))

  selected-Distinct :
      (db : Database)
      → Distinct event_key db.outbox_events
      → Distinct event_key (list_pending_events now 25 db)
  unfolding list_pending_events
  selected-Distinct db d =
      Distinct-take event_key 25 _
        (Distinct-sort event_key _ _ (Distinct-filter event_key (is_due now) db.outbox_events d))

  -- If no two rows have one event id, then after a delivery the row of every event that was
  -- selected, one of at most 25 due ones, is settled by the outcome of its own request, and every
  -- other row is as it was.
  pub deliver_pending-rows :
      (db : Database) (id : Text)
      → Distinct event_key db.outbox_events
      → find_by event_key id (deliver_pending config request now db).1.outbox_events
        ≡ settled_or config request now
            (find_by event_key id (list_pending_events now 25 db))
            (find_by event_key id db.outbox_events)
  unfolding deliver_pending
  deliver_pending-rows db id d =
      let rows = list_pending_events now 25 db in
      deliver_all-rows rows no_deliveries db id d (selected-Distinct db d) (
        All-weaken _ (λ row. find_by event_key row.event_id db.outbox_events ≡ some row) rows
          (λ row h. h.0) (selected_found db d))

  -- The counts of a run.
  deliver_all-counts :
      (rows : List OutboxRow) (s : WebhookDeliveryResult × Database)
      → let r = (deliver_all config request now rows s).0 in
        (r.attempted ≡ s.0.attempted + length rows)
        × (r.delivered + r.failed + r.dead_lettered + s.0.attempted
            ≡ s.0.delivered + s.0.failed + s.0.dead_lettered + r.attempted)
  unfolding deliver_all
  deliver_all-counts [] s = (omega arith, omega arith)
  deliver_all-counts (row ∷ rest) s =
      let t = record_outcome config row (failure_of (request row)) now s in
      let (a, b) = deliver_all-counts rest t in
      let (c, d) = record_outcome-counts row (failure_of (request row)) s in
      (omega (arith, a, c), omega (arith, b, d))

  -- A delivery attempts every selected event, at most 25 of them, and counts each as delivered, as
  -- failed or as dead-lettered.
  pub deliver_pending-counts :
      (db : Database)
      → let r = (deliver_pending config request now db).0 in
        (r.attempted ≡ length (list_pending_events now 25 db))
        × (r.attempted ≤ 25)
        × (r.attempted ≡ r.delivered + r.failed + r.dead_lettered)
  unfolding deliver_pending
  deliver_pending-counts db =
      let (a, b) = deliver_all-counts (list_pending_events now 25 db) (no_deliveries, db) in
      let short : length (list_pending_events now 25 db) ≤ 25 =
        unfold list_pending_events in length-take-le 25 _ in
      (omega (arith, a), omega (arith, a, short), omega (arith, b))
