-- ===== src/Scenarios/Delivering.antt =====
-- Deliveries of webhook events.
use ppops.Prelude.{
  ℕ, ◌+◌, ◌≤◌, ◌≡◌, refl, true, false, List, [], ◌∷◌, none, some, arith, length, Text, codes, ◌++◌,
  ◌↔◌, replicate,
}
use ppops.Prelude.Tables.{find_by}
use ppops.Domain.{PpOpsEvent, payment_confirmed, paid}
use ppops.Database.{Database, OutboxRow}
use ppops.Prelude.Sorting.{sort}
use ppops.Database.Outbox.{
  mark_event_failed, mark_event_dead_lettered, event_key, fresh_row, list_pending_events,
}
use ppops.Domain.Amount.{to_text}
use ppops.Webhook.{
  deliver_all, record_outcome, classify_webhook_failure, retry_seconds, WebhookConfig, Response,
  responded, deliver_pending,
}
use ppops.Webhook.Retrying.{attempt_times, deliver_times, HasCome, deliver_pending-attempts}
use ppops.Webhook.Delivery.{settled_or, deliver_pending-rows, deliver_pending-counts}
use ppops.Descriptor.{max_safe_integer}
use ppops.Webhook.{is_hmac_key, is_event_id, is_key_id, webhook_signature, verify_webhook_signature}
use ppops.Webhook.Signature.{verify_webhook_signature_iff}
use ppops.Scenarios.Shop.{order, shop, hex64}

abbrev config : WebhookConfig
config = record { max_attempts = 3; base_retry_ms = 1000; max_retry_ms = 60000 }

abbrev event : Text → PpOpsEvent
event id = record {
  schema_version = 1;
  event_id = id;
  type = payment_confirmed;
  occurred_at = 50;
  intent_id = order.id;
  settlement_id = none;
  intent_status = paid;
  received_amount_atomic = 100;
  expected_amount_atomic = 100;
  overpayment_amount_atomic = 0;
}

abbrev row : Text → OutboxRow
row id = fresh_row (event id) id

abbrev queued : Database
queued = record shop { outbox_events = row (codes "evt_a") ∷ row (codes "evt_b") ∷ [] }

-- A receiver that is down.
abbrev refuse : OutboxRow → Response
refuse r = responded 503 false

-- The first delivery comes early, and the third before the retry.
abbrev times : List ℕ
times = 20 ∷ 60 ∷ 60 ∷ 70 ∷ 80 ∷ 90 ∷ []

-- Three of these six deliveries attempt the event, and the last of them gives it up.
attempts_made : attempt_times config refuse (codes "evt_a") times queued ≡ 60 ∷ 70 ∷ 80 ∷ []
unfolding deliver_pending list_pending_events deliver_all record_outcome mark_event_failed
    mark_event_dead_lettered classify_webhook_failure retry_seconds sort to_text
attempts_made = refl

deliver_pending-attempts_example :
    HasCome config refuse 50 0
      (codes "evt_a")
      (attempt_times config refuse (codes "evt_a") times queued)
      (deliver_times config refuse times queued)
deliver_pending-attempts_example =
    deliver_pending-attempts config refuse times queued (codes "evt_a") (row (codes "evt_a"))
      (refl, (refl, tt)) refl (λ r e. refl) refl (omega arith)

deliver_pending-rows_example :
    find_by event_key (codes "evt_b") (deliver_pending config refuse 100 queued).1.outbox_events
    ≡ settled_or config refuse 100
        (find_by event_key (codes "evt_b") (list_pending_events 100 25 queued))
        (some (row (codes "evt_b")))
deliver_pending-rows_example =
    deliver_pending-rows config refuse 100 queued (codes "evt_b") (refl, (refl, tt))

deliver_pending-counts_example :
    let r = (deliver_pending config refuse 100 queued).0 in
    (r.attempted ≡ length (list_pending_events 100 25 queued))
    × (r.attempted ≤ 25)
    × (r.attempted ≡ r.delivered + r.failed + r.dead_lettered)
deliver_pending-counts_example = deliver_pending-counts config refuse 100 queued

-- A digest that is constant.
abbrev hmac : Text → Text → Text
hmac key text = hex64

verify_webhook_signature_iff_example :
    (verify_webhook_signature hmac hex64 100
        (codes "evt_" ++ replicate 32 b'0')
        (codes "k")
        (codes "{}")
        (codes "v1=" ++ hex64)
        120
        300
      ≡ true)
    ↔ ((codes "v1=" ++ hex64
          ≡ webhook_signature hmac hex64 100
              (codes "evt_" ++ replicate 32 b'0')
              (codes "{}")
              (codes "k"))
        × (120 ≤ 100 + 300)
        × (100 ≤ 120 + 300)
        × (is_hmac_key hex64 ≡ true)
        × (is_event_id (codes "evt_" ++ replicate 32 b'0') ≡ true)
        × (is_key_id (codes "k") ≡ true)
        × (100 ≤ max_safe_integer)
        × (300 ≤ max_safe_integer))
verify_webhook_signature_iff_example =
    verify_webhook_signature_iff hmac (λ key text. refl) hex64 100
      (codes "evt_" ++ replicate 32 b'0') (codes "k") (codes "{}") (codes "v1=" ++ hex64) 120 300
