-- ===== src/Database/Intents.antt =====
-- The statements of src/db/database.ts on intents, their projections and the idempotency keys.
use ppops.Prelude.{ℕ, ◌||◌, List, [], ◌∷◌, ◌++◌, Option, ltb, if◌then◌else◌, is_some, take, Text}
use ppops.Prelude.Sorting.{sort}
use ppops.Prelude.Tables.{find_by, update_by}
use ppops.Prelude.Results.{Result, ok, err}
use ppops.Domain.{PaymentIntentRecord, IntentProjection, opened}
use ppops.Database.{Database, IdempotencyRow, Failure, sqlite_constraint}

unfoldable pub get_intent : Text → Database → Option PaymentIntentRecord
get_intent id db = find_by (λ i. i.id) id db.payment_intents

unfoldable pub find_intent_by_reference : Text → Database → Option PaymentIntentRecord
find_intent_by_reference reference db = find_by (λ i. i.reference) reference db.payment_intents

unfoldable pub get_projection : Text → Database → Option IntentProjection
get_projection intent_id db = find_by (λ p. p.intent_id) intent_id db.intent_projections

-- The projection that comes with a new intent.
abbrev pub initial_projection : Text → ℕ → IntentProjection
initial_projection id created_at = record {
  intent_id = id;
  status = opened;
  received_amount_atomic = 0;
  pending_amount_atomic = 0;
  overpayment_amount_atomic = 0;
  revision = 0;
  updated_at = created_at;
}

-- Both INSERTs; `id` and `reference` are unique, and so is the projection's `intent_id`.
unfoldable pub insert_intent : PaymentIntentRecord → Database → Result Failure Database
unfolding get_intent find_intent_by_reference get_projection
insert_intent intent db =
    if is_some (get_intent intent.id db)
      || is_some (find_intent_by_reference intent.reference db)
      || is_some (get_projection intent.id db)
    then err sqlite_constraint
    else ok (record db {
      payment_intents = db.payment_intents ++ intent ∷ [];
      intent_projections =
          db.intent_projections ++ initial_projection intent.id intent.created_at ∷ [];
    })

unfoldable pub get_intent_idempotency : Text → Database → Option IdempotencyRow
get_intent_idempotency key db = find_by (λ r. r.idempotency_key) key db.intent_idempotency

unfoldable pub insert_intent_idempotency :
    Text → Text → Text → ℕ → Database → Result Failure Database
unfolding get_intent get_intent_idempotency
insert_intent_idempotency key fingerprint intent_id created_at db =
    if is_some (get_intent_idempotency key db)
      || is_some (find_by (λ r. r.intent_id) intent_id db.intent_idempotency)
    then err sqlite_constraint
    else if is_some (get_intent intent_id db)
    then ok (record db {
      intent_idempotency =
          db.intent_idempotency
          ++ record {
            idempotency_key = key;
            request_fingerprint = fingerprint;
            intent_id = intent_id;
            created_at = created_at;
          }
            ∷ [];
    })
    else err sqlite_constraint

-- ORDER BY created_at DESC LIMIT ?, with OFFSET 0
unfoldable pub list_intents : ℕ → Database → List PaymentIntentRecord
list_intents limit db =
    take limit (sort (λ left right. ltb right.created_at left.created_at) db.payment_intents)

-- `intent_id`, the key, is not among the columns that are set.
unfoldable pub update_projection : IntentProjection → Database → Database
update_projection p db = record db {
  intent_projections =
      update_by (λ q. q.intent_id) p.intent_id (λ q. record p { intent_id = q.intent_id })
        db.intent_projections;
}
