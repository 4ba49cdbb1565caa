-- ===== src/Intents/Idempotence.antt =====
-- Retrying a creation under its idempotency key.
use ppops.Prelude.{
  ℕ, ◌≡◌, refl, ap, sym, subst, ◌∙◌, inl, inr, Bool, true, false, Option, none, some, arith,
  Bool-cases, Text, text_eq, text_eq_refl, text_eq_iff, ◌≢◌,
}
use ppops.Prelude.Results.{Result, ok, err, ◌>>=◌}
use ppops.Prelude.Tables.{find_by, find_by-append_self, find_by-key}
use ppops.Domain.{PaymentIntentRecord, PaymentIntentView}
use ppops.Descriptor.{Ethers}
use ppops.Database.{
  Database, Failure, IdempotencyRow, idempotency_conflict, after_transaction, transaction,
}
use ppops.Database.Intents.{get_intent, get_intent_idempotency}
use ppops.Intents.{
  Network, CreateIntentInput, Draws, Idempotency, created, existing_intent, get, view_with, present,
  look_up, finish, insert_operation, commit_record, validate_input, require_view,
}
use ppops.Intents.Creating.{
  commit_prepared, create_checked, prepare_record, create_record, replay_view, reply_of,
  create_unless_known, is_idempotency_key, idempotency_of, fingerprint_for, create_idempotent,
}
use ppops.Intents.Inserts.{
  KeyAdded, key_row, remember-KeyAdded, insert_operation-found, insert_operation-added,
}

-- The key leads to an intent with this view.
abbrev Answers : Idempotency → Database → PaymentIntentView → Type 0
Answers i db view =
    (id : Text) × (look_up (some i) db ≡ ok (some id)) × (require_view id db ≡ ok view)

look_up-KeyAdded :
    (i : Idempotency) (id : Text) (at : ℕ) (db db' : Database)
    → KeyAdded i id at db db'
    → look_up (some i) db' ≡ ok (some id)
unfolding get_intent_idempotency
look_up-KeyAdded i id at db db' k =
    ap
      (λ rows.
        existing_intent (find_by (λ r. r.idempotency_key) i.idempotency_key rows) i.fingerprint)
      k.keys
    ∙ ap (λ row. existing_intent row i.fingerprint)
        (find_by-append_self (λ r. r.idempotency_key) db.intent_idempotency (key_row i id at)
          k.new_key)
    ∙ rw (text_eq_refl i.fingerprint)

view_with-id :
    (o : Option PaymentIntentRecord) (id : Text) (db : Database) (view : PaymentIntentView)
    → ((x : PaymentIntentRecord) → o ≡ some x → x.id ≡ id)
    → (view_with o db >>= present) ≡ ok view
    → view.intent.id ≡ id
view_with-id none id db view k h = cc
view_with-id (some x) id db view k h = ground (arith, k x refl)

-- The view under an id is of the intent with this id.
require_view-id :
    (id : Text) (db : Database) (view : PaymentIntentView)
    → require_view id db ≡ ok view
    → view.intent.id ≡ id
unfolding require_view get get_intent
require_view-id id db view h =
    view_with-id (get_intent id db) id db view (find_by-key (λ i. i.id) id db.payment_intents) h

-- On other tables in which the key has the same row, it leads to the same intent.
Answers-kept :
    (i : Idempotency) (db' db'' : Database) (view current : PaymentIntentView)
    → Answers i db' view
    → get_intent_idempotency i.idempotency_key db'' ≡ get_intent_idempotency i.idempotency_key db'
    → require_view view.intent.id db'' ≡ ok current
    → Answers i db'' current × (require_view view.intent.id db' ≡ ok view)
Answers-kept i db' db'' view current (id, looked, found) kept still =
    let same = require_view-id id db' view found in
    (
      (
        id,
        ap (λ row. existing_intent row i.fingerprint) kept ∙ looked,
        ap (λ k. require_view k db'') (sym same) ∙ still,
      ),
      ap (λ k. require_view k db') same ∙ found,
    )

reply_view :
    (id : Text) (db : Database) (view : PaymentIntentView) (b : Bool)
    → replay_view id db ≡ ok (view, b)
    → require_view id db ≡ ok view
reply_view id db view b h = ground arith

finish_view :
    (id : Text) (db : Database) (view : PaymentIntentView)
    → finish id (ok none) db ≡ ok (created view)
    → require_view id db ≡ ok view
finish_view id db view h = ground arith

-- What a committed creation answers under its key from then on.
commit-Answers :
    (intent : PaymentIntentRecord) (i : Idempotency) (db : Database)
    (result : Result Failure (Option Text × Database)) (view : PaymentIntentView) (b : Bool)
    → insert_operation intent (some i) db ≡ result
    → let (answer, db') = after_transaction db result in
      reply_of (finish intent.id answer db') db' ≡ ok (view, b)
      → Answers i (after_transaction db result).1 view
commit-Answers intent i db (err e) view b e1 h = cc
commit-Answers intent i db (ok (some id, db')) view b e1 h =
    let (same, looked) = insert_operation-found intent (some i) db id db' e1 in
    (id, rw same looked, reply_view id db' view b h)
commit-Answers intent i db (ok (none, db')) view b e1 h =
    let (looked, (middle, added, keys, kept)) = insert_operation-added intent (some i) db db' e1 in
    let k = remember-KeyAdded i intent.id intent.created_at middle db' kept in
    (intent.id, look_up-KeyAdded i intent.id intent.created_at middle db' k, ground arith)

module _ (ethers : Ethers) (network : Network) (recipient_0zk merchant_private_key : Text) where
  prepared-Answers :
      (p : Result Failure PaymentIntentRecord) (i : Idempotency) (db : Database)
      (view : PaymentIntentView) (b : Bool)
      → let (answer, db') =
          commit_prepared ethers network recipient_0zk merchant_private_key p (some i) db in
        reply_of answer db' ≡ ok (view, b)
        → Answers i
            (commit_prepared ethers network recipient_0zk merchant_private_key p (some i) db).1
            view
  unfolding commit_record transaction
  prepared-Answers (err e) i db view b h = cc
  prepared-Answers (ok intent) i db view b h =
      commit-Answers intent i db (insert_operation intent (some i) db) view b refl h

  checked-Answers :
      (checked : Result Failure Text) (input : CreateIntentInput) (now : ℕ) (i : Idempotency)
      (draws : Draws) (meanwhile : Database → Database) (db : Database) (view : PaymentIntentView)
      (b : Bool)
      → let (answer, db') =
          create_checked ethers network recipient_0zk merchant_private_key checked input now
            (some i)
            draws
            meanwhile
            db in
        reply_of answer db' ≡ ok (view, b)
        → Answers i
            (create_checked ethers network recipient_0zk merchant_private_key checked input now
              (some i)
              draws
              meanwhile
              db).1
            view
  checked-Answers (err e) input now i draws meanwhile db view b h = cc
  checked-Answers (ok x) input now i draws meanwhile db view b h =
      prepared-Answers
        (prepare_record ethers network recipient_0zk merchant_private_key input x now draws) i
        (meanwhile db) view b h

module _ (sha256_hex : Text → Text) (request_json : Text → Text → ℕ → Text) (ethers : Ethers)
    (network : Network) (recipient_0zk merchant_private_key : Text) where
  unless_known-Answers :
      (looked : Result Failure (Option Text)) (input : CreateIntentInput) (key : Text) (now : ℕ)
      (draws : Draws) (meanwhile : Database → Database) (db db' : Database)
      (view : PaymentIntentView) (b : Bool)
      → look_up
          (some (
            idempotency_of sha256_hex request_json ethers network recipient_0zk merchant_private_key
              input key))
          db
        ≡ looked
      → create_unless_known sha256_hex request_json ethers network recipient_0zk
          merchant_private_key looked input key now draws meanwhile db
        ≡ (ok (view, b), db')
      → Answers
          (idempotency_of sha256_hex request_json ethers network recipient_0zk merchant_private_key
            input key)
          db'
          view
  unfolding create_record
  unless_known-Answers (err e) input key now draws meanwhile db db' view b l h = cc
  unless_known-Answers (ok (some id)) input key now draws meanwhile db db' view b l h =
      let same : db ≡ db' = ap (λ r. r.1) h in
      let answer = reply_view id db view b (ap (λ r. r.0) h) in rw (← same) (id, l, answer)
  unless_known-Answers (ok none) input key now draws meanwhile db db' view b l h =
      let i =
        idempotency_of sha256_hex request_json ethers network recipient_0zk merchant_private_key
          input key in
      let same = ap (λ r. r.1) h in
      subst (λ d. Answers i d view) same
        (checked-Answers ethers network recipient_0zk merchant_private_key
          (validate_input input now) input now i draws meanwhile db view b (ap (λ r. r.0) h))

  -- A creation that was answered is answered again under the same idempotency key. Take a retry
  -- with the same fingerprint, at any later time and on any tables in which the key has the row that
  -- the first call left. If the intent that the first call returned can be viewed there, the retry
  -- returns this intent as it is by then, marked as replayed, and writes nothing. On the tables that
  -- the first call left that is the view it returned. It does not matter what other requests did
  -- while the first call awaited its signature.
  pub create_idempotent-retry :
      (input again : CreateIntentInput) (key : Text) (now later : ℕ) (draws draws' : Draws)
      (meanwhile meanwhile' : Database → Database) (db db' db'' : Database)
      (view current : PaymentIntentView) (b : Bool)
      → create_idempotent sha256_hex request_json ethers network recipient_0zk merchant_private_key
          input key now draws meanwhile db
        ≡ (ok (view, b), db')
      → fingerprint_for sha256_hex request_json ethers network recipient_0zk merchant_private_key
          again
        ≡ fingerprint_for sha256_hex request_json ethers network recipient_0zk merchant_private_key
            input
      → get_intent_idempotency (sha256_hex key) db'' ≡ get_intent_idempotency (sha256_hex key) db'
      → require_view view.intent.id db'' ≡ ok current
      → (create_idempotent sha256_hex request_json ethers network recipient_0zk merchant_private_key
            again key later draws' meanwhile' db''
          ≡ (ok (current, true), db''))
        × (current.intent.id ≡ view.intent.id)
        × (require_view view.intent.id db' ≡ ok view)
  unfolding create_idempotent
  create_idempotent-retry input again key now later draws draws' meanwhile meanwhile' db db' db''
        view current b h same kept still =
      let i =
        idempotency_of sha256_hex request_json ethers network recipient_0zk merchant_private_key
          input key in
      elim (Bool-cases (is_idempotency_key key)) [
        | inl e ↦
            let answered =
              unless_known-Answers (look_up (some i) db) input key now draws meanwhile db db' view b
                refl (rw (e) at h) in
            let ((id, looked, found), first) =
              Answers-kept i db' db'' view current answered kept still in
            (rw (e, same, looked, found), require_view-id view.intent.id db'' current still, first)
        | inr e ↦ cc (ap (λ r. r.0) (rw (e) at h))
      ]

  existing_intent-conflict :
      (row : Option IdempotencyRow) (fingerprint other id : Text)
      → existing_intent row fingerprint ≡ ok (some id)
      → text_eq fingerprint other ≡ false
      → existing_intent row other ≡ err idempotency_conflict
  existing_intent-conflict none fingerprint other id h apart = cc
  existing_intent-conflict (some r) fingerprint other id h apart = ground (
    arith,
    text_eq_iff r.request_fingerprint fingerprint,
    text_eq_iff r.request_fingerprint other,
  )

  -- A request with another fingerprint under a key that was answered is refused as a conflict, and
  -- writes nothing.
  pub create_idempotent-conflict :
      (input other : CreateIntentInput) (key : Text) (now later : ℕ) (draws draws' : Draws)
      (meanwhile meanwhile' : Database → Database) (db db' : Database) (view : PaymentIntentView)
      (b : Bool)
      → create_idempotent sha256_hex request_json ethers network recipient_0zk merchant_private_key
          input key now draws meanwhile db
        ≡ (ok (view, b), db')
      → fingerprint_for sha256_hex request_json ethers network recipient_0zk merchant_private_key
          input
        ≢ fingerprint_for sha256_hex request_json ethers network recipient_0zk merchant_private_key
            other
      → create_idempotent sha256_hex request_json ethers network recipient_0zk merchant_private_key
          other key later draws' meanwhile' db'
        ≡ (err idempotency_conflict, db')
  unfolding create_idempotent
  create_idempotent-conflict input other key now later draws draws' meanwhile meanwhile' db db' view
        b h differ =
      let i =
        idempotency_of sha256_hex request_json ethers network recipient_0zk merchant_private_key
          input key in
      let f =
        fingerprint_for sha256_hex request_json ethers network recipient_0zk merchant_private_key in
      let apart : text_eq (f input) (f other) ≡ false =
        ground (arith, text_eq_iff (f input) (f other)) in
      elim (Bool-cases (is_idempotency_key key)) [
        | inl e ↦
            let (id, looked, found) =
              unless_known-Answers (look_up (some i) db) input key now draws meanwhile db db' view b
                refl (rw (e) at h) in
            rw (
              e,
              existing_intent-conflict (get_intent_idempotency (sha256_hex key) db') (f input)
                  (f other) id looked apart,
            )
        | inr e ↦ cc (ap (λ r. r.0) (rw (e) at h))
      ]
