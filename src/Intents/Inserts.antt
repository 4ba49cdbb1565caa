-- ===== src/Intents/Inserts.antt =====
-- What the transaction of a creation writes.
use ppops.Prelude.{
  ℕ, ◌≡◌, ap, ◌∙◌, inl, inr, [], ◌∷◌, ◌++◌, Option, none, some, arith, Option-cases, Text,
}
use ppops.Prelude.Results.{Result, ok, ◌>>=◌, >>=-eq-ok}
use ppops.Domain.{PaymentIntentRecord}
use ppops.Database.{Database, IdempotencyRow, Failure}
use ppops.Database.Intents.{
  get_intent, get_projection, initial_projection, insert_intent, get_intent_idempotency,
  insert_intent_idempotency, find_intent_by_reference,
}
use ppops.Intents.{insert_new, insert_unless, Idempotency, look_up, remember, insert_operation}

-- `db'` is `db` with one more intent and its opening projection, neither of which was there.
pub record IntentAdded (intent : PaymentIntentRecord) (db db' : Database) : Type 0 where
  pub new_id : get_intent intent.id db ≡ none
  pub new_reference : find_intent_by_reference intent.reference db ≡ none
  pub new_projection : get_projection intent.id db ≡ none
  pub intents : db'.payment_intents ≡ db.payment_intents ++ intent ∷ []
  pub projections :
      db'.intent_projections
      ≡ db.intent_projections ++ initial_projection intent.id intent.created_at ∷ []
  pub settlements : db'.settlements ≡ db.settlements
  pub outbox : db'.outbox_events ≡ db.outbox_events

pub insert_intent-IntentAdded :
    (intent : PaymentIntentRecord) (db db' : Database)
    → insert_intent intent db ≡ ok db'
    → IntentAdded intent db db' × (db'.intent_idempotency ≡ db.intent_idempotency)
unfolding insert_intent
insert_intent-IntentAdded intent db db' h = ground arith

abbrev pub key_row : Idempotency → Text → ℕ → IdempotencyRow
key_row i id created_at = record {
  idempotency_key = i.idempotency_key;
  request_fingerprint = i.fingerprint;
  intent_id = id;
  created_at = created_at;
}

-- The row of a key is written where there was none.
pub record KeyAdded (i : Idempotency) (id : Text) (created_at : ℕ) (db db' : Database)
    : Type 0 where
  pub new_key : get_intent_idempotency i.idempotency_key db ≡ none
  pub keys : db'.intent_idempotency ≡ db.intent_idempotency ++ key_row i id created_at ∷ []
  pub intents : db'.payment_intents ≡ db.payment_intents
  pub projections : db'.intent_projections ≡ db.intent_projections
  pub settlements : db'.settlements ≡ db.settlements
  pub outbox : db'.outbox_events ≡ db.outbox_events

pub remember-KeyAdded :
    (i : Idempotency) (id : Text) (at : ℕ) (db db' : Database)
    → remember (some i) id at db ≡ ok db'
    → KeyAdded i id at db db'
unfolding insert_intent_idempotency
remember-KeyAdded i id at db db' h = ground arith

-- A transaction that reports an intent has found it under the key, and wrote nothing.
pub insert_operation-found :
    (intent : PaymentIntentRecord) (o : Option Idempotency) (db : Database) (id : Text)
    (db' : Database)
    → insert_operation intent o db ≡ ok (some id, db')
    → (db' ≡ db) × (look_up o db ≡ ok (some id))
unfolding insert_operation
insert_operation-found intent o db id db' h = ground arith

insert_new-added :
    (intent : PaymentIntentRecord) (o : Option Idempotency) (db db' : Database)
    → insert_new intent o db ≡ ok (none, db')
    → (middle : Database) × IntentAdded intent db middle
      × (middle.intent_idempotency ≡ db.intent_idempotency)
      × (remember o intent.id intent.created_at middle ≡ ok db')
insert_new-added intent o db db' h =
    let last : Database → Result Failure (Option Text × Database) = λ d. ok (none, d) in
    let rest = λ (d : Database). remember o intent.id intent.created_at d >>= last in
    let (middle, inserted, k) = >>=-eq-ok (insert_intent intent db) rest h in
    let (d, remembered, k') = >>=-eq-ok (remember o intent.id intent.created_at middle) last k in
    let (added, keys) = insert_intent-IntentAdded intent db middle inserted in
    let same : d ≡ db' = cc in (middle, added, keys, remembered ∙ ap ok same)

-- One that reports none has added the intent, and then whatever the key asks for.
pub insert_operation-added :
    (intent : PaymentIntentRecord) (o : Option Idempotency) (db db' : Database)
    → insert_operation intent o db ≡ ok (none, db')
    → (look_up o db ≡ ok none)
      × ((middle : Database) × IntentAdded intent db middle
          × (middle.intent_idempotency ≡ db.intent_idempotency)
          × (remember o intent.id intent.created_at middle ≡ ok db'))
unfolding insert_operation
insert_operation-added intent o db db' h =
    let (found, looked, k) =
      >>=-eq-ok (look_up o db) (λ (f : Option Text). insert_unless f intent o db) h in
    elim (Option-cases found) [
      | inl e ↦ (looked ∙ ap ok e, insert_new-added intent o db db' (rw e at k))
      | inr (id, e) ↦ cc (rw e at k)
    ]
