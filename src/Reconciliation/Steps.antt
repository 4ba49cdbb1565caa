-- ===== src/Reconciliation/Steps.antt =====
-- What each write of a reconciliation leaves as it was.
use ppops.Prelude.{
  ℕ, ◌≡◌, refl, subst, ==_iff, sym, ap, ◌∙◌, ◌⊎◌, inl, inr, Bool, true, false, List, [], ◌∷◌, ◌++◌,
  Option, none, some, arith, ◌==◌, Bool-cases, Option-cases, Text, text_eq, truthy,
}
use ppops.Prelude.Results.{ok, >>=-eq-ok}
use ppops.Prelude.Tables.{
  find_by, update_by, find_by-key, find_by-update_self, find_by-update_other,
}
use ppops.Domain.{
  PaymentIntentRecord, IntentProjection, SettlementRecord, EventType, settlement_observed,
  PpOpsEvent,
}
use ppops.Database.{Database}
use ppops.Database.Intents.{get_projection, update_projection}
use ppops.Database.Settlements.{
  row_key, overwrite, write_settlement, upsert_settlement, list_settlements_for_intent,
}
use ppops.Database.Outbox.{insert_event}
use ppops.Projection.{derive_projection}
use ppops.Projection.Accounts.{derive_projection-revision, derive_projection-intent_id}
use ppops.Reconciliation.{
  transition_event_type, create_event, observed_key, require_projection, persist_event,
  persist_transition, store_projection, rebuild_projection, announce,
}

-- `db'` is `db` up to the outbox.
pub record SameTables (db db' : Database) : Type 0 where
  pub intents : db'.payment_intents ≡ db.payment_intents
  pub projections : db'.intent_projections ≡ db.intent_projections
  pub settlements : db'.settlements ≡ db.settlements

insert_event-SameTables :
    (event : PpOpsEvent) (key : Text) (db : Database) {b : Bool} {db' : Database}
    → insert_event event key db ≡ ok (b, db')
    → SameTables db db'
unfolding insert_event
insert_event-SameTables event key db h = ground arith

-- An upsert either overwrites the one row or appends a new one.
pub write_settlement-cases :
    (s : SettlementRecord) (db db' : Database)
    → write_settlement s db ≡ ok db'
    → ((x : SettlementRecord) × (find_by row_key s.unique_settlement_id db.settlements ≡ some x)
        × (db' ≡ record db {
          settlements = update_by row_key s.unique_settlement_id (overwrite s) db.settlements;
        }))
      ⊎ ((find_by row_key s.unique_settlement_id db.settlements ≡ none)
          × (db' ≡ record db { settlements = db.settlements ++ s ∷ [] }))
unfolding write_settlement
write_settlement-cases s db db' h =
    elim (Option-cases (find_by row_key s.unique_settlement_id db.settlements)) [
      | inl e ↦ inr (e, ground arith)
      | inr (x, e) ↦ inl (x, e, ground arith)
    ]

SameTables-refl : (db : Database) → SameTables db db
SameTables-refl db = record { intents = refl; projections = refl; settlements = refl }

-- The upsert's result: the tables are those that the write leaves.
pub upsert_settlement-write :
    (s : SettlementRecord) (db : Database) {stored : SettlementRecord} {db' : Database}
    → upsert_settlement s db ≡ ok (stored, db')
    → write_settlement s db ≡ ok db'
unfolding upsert_settlement
upsert_settlement-write s db h = ground arith

module _ (sha256_hex : Text → Text) where
  persist_event-SameTables :
      (type : EventType) (intent : PaymentIntentRecord) (p : IntentProjection) (at : ℕ)
      (id : Option Text) (key : Text) (db : Database) {db' : Database}
      → persist_event sha256_hex type intent p at id key db ≡ ok db'
      → SameTables db db'
  unfolding persist_event
  persist_event-SameTables type intent p at id key db {db'} h =
      let event = create_event sha256_hex type intent p at (truthy id) key in
      let (r, e, k) = >>=-eq-ok (insert_event event key db) (λ (q : Bool × Database). ok (q.1)) h in
      let done = insert_event-SameTables event key db {b = r.0} {db' = r.1} e in
      let same : r.1 ≡ db' = cc in subst (SameTables db) same done

  persist_transition-SameTables :
      (t : Option EventType) (intent : PaymentIntentRecord) (p : IntentProjection) (at : ℕ)
      (id : Option Text) (db : Database) {db' : Database}
      → persist_transition sha256_hex t intent p at id db ≡ ok db'
      → SameTables db db'
  persist_transition-SameTables none intent p at id db h = ground (arith, SameTables-refl db)
  persist_transition-SameTables (some t) intent p at id db h =
      persist_event-SameTables t intent p at id _ db h

  pub announce-SameTables :
      (first : Bool) (intent : PaymentIntentRecord) (stored : SettlementRecord) (at : ℕ)
      (db : Database) {db' : Database}
      → announce sha256_hex first intent stored at db ≡ ok db'
      → SameTables db db'
  announce-SameTables false intent stored at db h = ground (arith, SameTables-refl db)
  announce-SameTables true intent stored at db {db'} h =
      let (p, e, k) =
        >>=-eq-ok (require_projection intent.id db)
          (λ (p : IntentProjection).
            persist_event sha256_hex settlement_observed intent p at
              (some stored.unique_settlement_id) (observed_key stored.unique_settlement_id) db)
          h in
      persist_event-SameTables settlement_observed intent p at _ _ db k

-- A rebuild writes the derived projection of its intent; other projections, the intents and the
-- settlements stay.
pub record Rebuilt (intent : PaymentIntentRecord) (now : ℕ) (db db' : Database) : Type 0 where
  pub intents : db'.payment_intents ≡ db.payment_intents
  pub settlements : db'.settlements ≡ db.settlements
  pub previous : IntentProjection
  pub found : get_projection intent.id db ≡ some previous
  pub own :
      get_projection intent.id db'
      ≡ some (derive_projection intent (list_settlements_for_intent intent.id db) previous now)
  pub others :
      (id : Text) → text_eq intent.id id ≡ false → get_projection id db' ≡ get_projection id db

get_projection-update_self :
    (p previous : IntentProjection) (db : Database)
    → get_projection p.intent_id db ≡ some previous
    → get_projection p.intent_id (update_projection p db) ≡ some p
unfolding get_projection update_projection
get_projection-update_self p previous db e =
    let f = λ (q : IntentProjection). record p { intent_id = q.intent_id } in
    find_by-update_self (λ q. q.intent_id) p.intent_id f db.intent_projections previous (λ a. refl)
      e
    ∙ ap (λ k. some (record p { intent_id = k }))
        (find_by-key (λ q. q.intent_id) p.intent_id db.intent_projections previous e)

get_projection-update_other :
    (p : IntentProjection) (id : Text) (db : Database)
    → text_eq p.intent_id id ≡ false
    → get_projection id (update_projection p db) ≡ get_projection id db
unfolding get_projection update_projection
get_projection-update_other p id db e =
    find_by-update_other (λ q. q.intent_id) p.intent_id id
      (λ q. record p { intent_id = q.intent_id }) db.intent_projections (λ a. refl) e

get_projection-tables :
    (id : Text) (db db' : Database)
    → db'.intent_projections ≡ db.intent_projections
    → get_projection id db' ≡ get_projection id db
unfolding get_projection
get_projection-tables id db db' e = ap (find_by (λ q. q.intent_id) id) e

update_projection-Rebuilt :
    (intent : PaymentIntentRecord) (now : ℕ) (db : Database) (previous : IntentProjection)
    (db' : Database)
    → get_projection intent.id db ≡ some previous
    → SameTables
        (update_projection
          (derive_projection intent (list_settlements_for_intent intent.id db) previous now)
          db)
        db'
    → Rebuilt intent now db db'
update_projection-Rebuilt intent now db previous db' e same =
    let settlements = list_settlements_for_intent intent.id db in
    let next = derive_projection intent settlements previous now in
    let updated = update_projection next db in
    let key : previous.intent_id ≡ intent.id =
      unfold get_projection in
      find_by-key (λ q. q.intent_id) intent.id db.intent_projections previous e in
    let next_key : next.intent_id ≡ intent.id =
      derive_projection-intent_id intent settlements previous now key in
    record {
      intents = same.intents ∙ (unfold update_projection in refl);
      settlements = same.settlements ∙ (unfold update_projection in refl);
      previous = previous;
      found = e;
      own =
          get_projection-tables intent.id updated db' same.projections
          ∙ subst (λ k. get_projection k updated ≡ some next) next_key
              (get_projection-update_self next previous db
                (subst (λ k. get_projection k db ≡ some previous) (sym next_key) e));
      others = λ id apart.
          get_projection-tables id updated db' same.projections
          ∙ get_projection-update_other next id db
              (subst (λ k. text_eq k id ≡ false) (sym next_key) apart);
    }

pub require_projection-found :
    (id : Text) (db : Database) (p : IntentProjection)
    → require_projection id db ≡ ok p
    → get_projection id db ≡ some p
require_projection-found id db p h = ground arith

-- Where the revision does not move, the derived projection is the stored one.
same_revision :
    (intent : PaymentIntentRecord) (settlements : List SettlementRecord)
    (previous : IntentProjection) (now : ℕ)
    → (derive_projection intent settlements previous now).revision ≡ previous.revision
    → derive_projection intent settlements previous now ≡ previous
same_revision intent settlements previous now e =
    elim (derive_projection-revision intent settlements previous now) [
      | inl same ↦ same.1
      | inr (other, account, revised, dated) ↦ absurd (omega (arith, e, revised))
    ]

module _ (sha256_hex : Text → Text) (intent : PaymentIntentRecord) (now : ℕ)
    (id : Option Text) where
  store_projection-Rebuilt :
      (db : Database) (previous p : IntentProjection) (db' : Database)
      → get_projection intent.id db ≡ some previous
      → store_projection sha256_hex intent previous
          (derive_projection intent (list_settlements_for_intent intent.id db) previous now)
          now
          id
          db
        ≡ ok (p, db')
      → Rebuilt intent now db db'
  unfolding store_projection
  store_projection-Rebuilt db previous p db' e h =
      let settlements = list_settlements_for_intent intent.id db in
      let next = derive_projection intent settlements previous now in
      elim (Bool-cases (next.revision == previous.revision)) [
        | inl same ↦
            let stays = same_revision intent settlements previous now ((==_iff _ _).0 same) in
            let here : db ≡ db' = ground arith in
            subst (Rebuilt intent now db) here (record {
              intents = refl;
              settlements = refl;
              previous = previous;
              found = e;
              own = e ∙ ap some (sym stays);
              others = λ j apart. refl;
            })
        | inr moved ↦
            let written = update_projection next db in
            let change = transition_event_type previous next in
            let (db2, persisted, k) =
              >>=-eq-ok (persist_transition sha256_hex change intent next now id written)
                (λ (d : Database). ok (next, d)) (rw moved at h) in
            let last : db2 ≡ db' = cc in
            update_projection-Rebuilt intent now db previous db' e (
              subst (SameTables written) last (
                persist_transition-SameTables sha256_hex change intent next now id written
                  persisted))
      ]

  -- A rebuild that succeeds writes the derived projection of its intent and no other.
  pub rebuild_projection-Rebuilt :
      (db : Database) (p : IntentProjection) (db' : Database)
      → rebuild_projection sha256_hex intent now id db ≡ ok (p, db')
      → Rebuilt intent now db db'
  unfolding rebuild_projection
  rebuild_projection-Rebuilt db p db' h =
      let (previous, e, k) =
        >>=-eq-ok (require_projection intent.id db)
          (λ (q : IntentProjection).
            store_projection sha256_hex intent q
              (derive_projection intent (list_settlements_for_intent intent.id db) q now) now id db)
          h in
      store_projection-Rebuilt db previous p db' (require_projection-found intent.id db previous e)
        k
