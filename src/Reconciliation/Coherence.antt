-- ===== src/Reconciliation/Coherence.antt =====
-- The stored projections as a view of the stored settlements: the projection of each intent is the
-- account of the settlements attached to it.
use ppops.Prelude.{
  ℕ, ◌+◌, ◌≡◌, refl, sym, ap, subst, ◌∙◌, inl, inr, Bool, false, not, List, [], ◌∷◌, Option, none,
  some, arith, ◌==◌, if◌then◌else◌, Bool-cases, is_some, map, filter, Text, text_eq, text_eq_iff,
  option_text_eq, truthy, All, All-take,
}
use ppops.Prelude.Results.{Result, ok, err, ◌>>=◌, >>=-eq-ok}
use ppops.Prelude.Sorting.{sort, All-sort}
use ppops.Prelude.Tables.{find_by, Distinct, Distinct-found, find_by-other_key}
use ppops.Domain.{PaymentIntentRecord, IntentProjection, NormalizedSettlement, SettlementRecord}
use ppops.Database.{Database, Failure, transaction, after_transaction}
use ppops.Database.Intents.{get_projection, list_intents}
use ppops.Database.Settlements.{
  row_key, row_before, settlement_from_row, is_for, get_settlement, upsert_settlement,
  list_settlements_for_intent,
}
use ppops.Projection.{derive_projection}
use ppops.Projection.Accounts.{IsAccountOf, derive_projection-IsAccountOf}
use ppops.Reconciliation.{
  assert_immutable_identity, referenced_intent, on_rail, intent_id_of, merged_settlement, announce,
  follow_up, rebuild_projection, reconcile_operation, reconcile, refresh_all, refresh_expirations,
  require_projection,
}
use ppops.Reconciliation.Steps.{
  SameTables, Rebuilt, upsert_settlement-write, announce-SameTables, rebuild_projection-Rebuilt,
}
use ppops.Reconciliation.Attachment.{
  Attached, owner, by_reference, referenced_intent-by_reference, Upserted,
  merged_settlement-Upserted,
}

-- The intent has a projection, which is the account of its settlements as of some time.
abbrev pub HasAccount : Database → PaymentIntentRecord → Type 0
HasAccount db intent =
    (p : IntentProjection) × (t : ℕ) × (get_projection intent.id db ≡ some p)
    × IsAccountOf intent (list_settlements_for_intent intent.id db) t p

pub record IsCoherent (db : Database) : Type 0 where
  pub ids : Distinct (λ i. i.id) db.payment_intents
  pub rows : Distinct row_key db.settlements
  pub attached : All (Attached db.payment_intents) db.settlements
  pub accounts :
      (intent : PaymentIntentRecord)
      → find_by (λ i. i.id) intent.id db.payment_intents ≡ some intent
      → HasAccount db intent

list_settlements-filter :
    (id : Text) (db db' : Database)
    → filter (is_for id) db'.settlements ≡ filter (is_for id) db.settlements
    → list_settlements_for_intent id db' ≡ list_settlements_for_intent id db
unfolding list_settlements_for_intent
list_settlements-filter id db db' e = ap (λ ss. map settlement_from_row (sort row_before ss)) e

-- An account is kept where the projection and the rows of its intent are.
pub HasAccount-kept :
    (db db' : Database) (intent : PaymentIntentRecord)
    → get_projection intent.id db' ≡ get_projection intent.id db
    → filter (is_for intent.id) db'.settlements ≡ filter (is_for intent.id) db.settlements
    → HasAccount db intent
    → HasAccount db' intent
HasAccount-kept db db' intent p s (q, t, found, account) = (
  q,
  t,
  p ∙ found,
  subst (λ ss. IsAccountOf intent ss t q) (sym (list_settlements-filter intent.id db db' s))
      account,
)

-- A rebuild makes the account of its intent and keeps the others.
HasAccount-Rebuilt :
    (intent other : PaymentIntentRecord) (now : ℕ) (db db' : Database)
    → Rebuilt intent now db db'
    → find_by (λ i. i.id) intent.id db.payment_intents ≡ some intent
    → find_by (λ i. i.id) other.id db.payment_intents ≡ some other
    → (text_eq intent.id other.id ≡ false → HasAccount db other)
    → HasAccount db' other
HasAccount-Rebuilt intent other now db db' r mine here rest =
    let rows = λ (id : Text). ap (filter (is_for id)) r.settlements in
    elim (Bool-cases (text_eq intent.id other.id)) [
      | inl e ↦
          let same : intent ≡ other = cc (
            ap (λ id. find_by (λ (i : PaymentIntentRecord). i.id) id db.payment_intents)
              ((text_eq_iff intent.id other.id).0 e)) in
          let settlements = list_settlements_for_intent intent.id db in
          subst (HasAccount db') same (
            derive_projection intent settlements r.previous now,
            now,
            r.own,
            subst
                (λ ss.
                  IsAccountOf intent ss now (derive_projection intent settlements r.previous now))
                (sym (list_settlements-filter intent.id db db' (rows intent.id)))
                (derive_projection-IsAccountOf intent settlements r.previous now),
          )
      | inr e ↦ HasAccount-kept db db' other (r.others other.id e) (rows other.id) (rest e)
    ]

IsCoherent-Rebuilt :
    (intent : PaymentIntentRecord) (now : ℕ) (db db' : Database)
    → Rebuilt intent now db db'
    → find_by (λ i. i.id) intent.id db.payment_intents ≡ some intent
    → IsCoherent db
    → IsCoherent db'
IsCoherent-Rebuilt intent now db db' r mine v = record {
  ids = rw r.intents v.ids;
  rows = rw r.settlements v.rows;
  attached = rw (r.settlements, r.intents) v.attached;
  accounts = λ other h.
      let here = rw r.intents at h in
      HasAccount-Rebuilt intent other now db db' r mine here (λ e. v.accounts other here);
}

-- All of it but the account of the intent `target` refers to, which is about to be rebuilt.
record IsCoherentBut (target : Option Text) (db : Database) : Type 0 where
  ids : Distinct (λ i. i.id) db.payment_intents
  rows : Distinct row_key db.settlements
  attached : All (Attached db.payment_intents) db.settlements
  accounts :
      (intent : PaymentIntentRecord)
      → find_by (λ i. i.id) intent.id db.payment_intents ≡ some intent
      → option_text_eq target (some intent.id) ≡ false
      → HasAccount db intent

IsCoherentBut-Upserted :
    (target : Option Text) (db db' : Database)
    → Upserted target db db'
    → IsCoherent db
    → IsCoherentBut target db'
IsCoherentBut-Upserted target db db' u v = record {
  ids = rw u.intents v.ids;
  rows = u.rows;
  attached = rw u.intents u.attached;
  accounts = λ intent h apart.
      HasAccount-kept db db' intent
        (unfold get_projection in ap (find_by (λ p. p.intent_id) intent.id) u.projections)
        (u.others intent.id apart) (v.accounts intent (rw u.intents at h));
}

IsCoherentBut-SameTables :
    (target : Option Text) (db db' : Database)
    → SameTables db db'
    → IsCoherentBut target db
    → IsCoherentBut target db'
IsCoherentBut-SameTables target db db' s v = record {
  ids = rw s.intents v.ids;
  rows = rw s.settlements v.rows;
  attached = rw (s.settlements, s.intents) v.attached;
  accounts = λ intent h apart.
      HasAccount-kept db db' intent
        (unfold get_projection in ap (find_by (λ p. p.intent_id) intent.id) s.projections)
        (ap (filter (is_for intent.id)) s.settlements)
        (v.accounts intent (rw s.intents at h) apart);
}

IsCoherentBut-Rebuilt :
    (intent : PaymentIntentRecord) (now : ℕ) (db db' : Database)
    → Rebuilt intent now db db'
    → find_by (λ i. i.id) intent.id db.payment_intents ≡ some intent
    → IsCoherentBut (some intent.id) db
    → IsCoherent db'
IsCoherentBut-Rebuilt intent now db db' r mine v = record {
  ids = rw r.intents v.ids;
  rows = rw r.settlements v.rows;
  attached = rw (r.settlements, r.intents) v.attached;
  accounts = λ other h.
      let here = rw r.intents at h in
      HasAccount-Rebuilt intent other now db db' r mine here (λ e. v.accounts other here e);
}

-- The intent that a settlement leads to is in the table.
on_rail-found :
    (o : Option PaymentIntentRecord) (c : NormalizedSettlement) (i : PaymentIntentRecord)
    → on_rail o c ≡ some i
    → o ≡ some i
on_rail-found none c i h = cc
on_rail-found (some j) c i h = ground arith

pub by_reference-id :
    (o : Option Text) (intents : List PaymentIntentRecord) (i : PaymentIntentRecord)
    → Distinct (λ i. i.id) intents
    → by_reference o intents ≡ some i
    → find_by (λ i. i.id) i.id intents ≡ some i
by_reference-id none intents i d h = cc
by_reference-id (some r) intents i d h =
    find_by-other_key (λ i. i.reference) (λ i. i.id) r intents i d h

pub after_transaction-keeps :
    {A : Type 0} (P : Database → Type 0) (db : Database) (r : Result Failure (A × Database))
    → ((a : A) (db' : Database) → r ≡ ok (a, db') → P db')
    → P db
    → P (after_transaction db r).1
after_transaction-keeps P db (ok (a, db')) done same = done a db' refl
after_transaction-keeps P db (err e) done same = same

module _ (sha256_hex : Text → Text) where
  follow_up-IsCoherent :
      (o : Option PaymentIntentRecord) (first : Bool) (stored : SettlementRecord) (now : ℕ)
      (db : Database) (r : SettlementRecord) (db' : Database)
      → ((i : PaymentIntentRecord)
          → o ≡ some i
          → find_by (λ i. i.id) i.id db.payment_intents ≡ some i)
      → follow_up sha256_hex o first stored now db ≡ ok (r, db')
      → IsCoherentBut (intent_id_of o) db
      → IsCoherent db'
  follow_up-IsCoherent none first stored now db r db' known h v =
      let here : db ≡ db' = ground arith in
      subst IsCoherent here (record {
        ids = v.ids;
        rows = v.rows;
        attached = v.attached;
        accounts = λ i e. v.accounts i e refl;
      })
  follow_up-IsCoherent (some i) first stored now db r db' known h v =
      let rebuild = λ (d : Database).
        rebuild_projection sha256_hex i now (some stored.unique_settlement_id) d in
      let (db1, announced, k) =
        >>=-eq-ok (announce sha256_hex first i stored now db)
          (λ (d : Database). rebuild d >>= λ (q : IntentProjection × Database). ok (stored, q.1))
          h in
      let (q, rebuilt, k') =
        >>=-eq-ok (rebuild db1) (λ (q : IntentProjection × Database). ok (stored, q.1)) k in
      let last : q.1 ≡ db' = cc in
      let same = announce-SameTables sha256_hex first i stored now db announced in
      subst IsCoherent last (
        IsCoherentBut-Rebuilt i now db1 q.1
          (rebuild_projection-Rebuilt sha256_hex i now (some stored.unique_settlement_id) db1 q.0
            q.1 rebuilt)
          (rw same.intents (known i refl)) (IsCoherentBut-SameTables (some i.id) db db1 same v))

  reconcile_operation-IsCoherent :
      (c : NormalizedSettlement) (now : ℕ) (db : Database) (r : SettlementRecord) (db' : Database)
      → reconcile_operation sha256_hex c now db ≡ ok (r, db')
      → IsCoherent db
      → IsCoherent db'
  unfolding reconcile_operation
  reconcile_operation-IsCoherent c now db r db' h v =
      let existing = get_settlement c.unique_settlement_id db in
      let intent = referenced_intent (truthy c.reference) db in
      let merged = merged_settlement existing intent c now in
      let follow = λ (q : SettlementRecord × Database).
        follow_up sha256_hex (on_rail intent c) (not (is_some existing)) q.0 now q.1 in
      let (u, asserts, k) =
        >>=-eq-ok (assert_immutable_identity existing c)
          (λ (_ : Unit {0}). upsert_settlement merged db >>= follow) h in
      let (q, upserted, k') = >>=-eq-ok (upsert_settlement merged db) follow k in
      let lead = referenced_intent-by_reference (truthy c.reference) db in
      let write = upsert_settlement-write merged db upserted in
      let up = merged_settlement-Upserted c now db q.1 v.rows v.attached asserts write in
      follow_up-IsCoherent (on_rail intent c) (not (is_some existing)) q.0 now q.1 r db'
        (λ i e. rw up.intents (
          by_reference-id (truthy c.reference) db.payment_intents i v.ids
            (sym lead ∙ on_rail-found intent c i e)))
        k'
        (subst (λ o. IsCoherentBut (intent_id_of (on_rail o c)) q.1) (sym lead)
          (IsCoherentBut-Upserted (owner c.reference c db.payment_intents) db q.1 up v))

  -- Reconciling a settlement, whether it succeeds or throws, keeps the tables coherent: if the ids
  -- of intents and of settlements are distinct, the projection of every intent is the account, as
  -- of some time, of the settlements attached to it, and every settlement that is attached to an
  -- intent is so by its own reference, chain and token, then all this holds afterwards.
  pub reconcile-IsCoherent :
      (c : NormalizedSettlement) (now : ℕ) (db : Database)
      → IsCoherent db
      → IsCoherent (reconcile sha256_hex c now db).1
  unfolding reconcile transaction
  reconcile-IsCoherent c now db v =
      after_transaction-keeps IsCoherent db (reconcile_operation sha256_hex c now db)
        (λ r db' h. reconcile_operation-IsCoherent c now db r db' h v) v

  refresh_all-IsCoherent :
      (intents : List PaymentIntentRecord) (now changed : ℕ) (db : Database) (n : ℕ)
      (db' : Database)
      → All (λ i. find_by (λ i. i.id) i.id db.payment_intents ≡ some i) intents
      → refresh_all sha256_hex intents now changed db ≡ ok (n, db')
      → IsCoherent db
      → IsCoherent db'
  unfolding refresh_all
  refresh_all-IsCoherent [] now changed db n db' a h v =
      let here : db ≡ db' = ground arith in subst IsCoherent here v
  refresh_all-IsCoherent (i ∷ rest) now changed db n db' a h v =
      let step = λ (before : IntentProjection) (q : IntentProjection × Database).
        refresh_all sha256_hex rest now
          (if q.0.revision == before.revision then changed else changed + 1) q.1 in
      let (before, found, k) =
        >>=-eq-ok (require_projection i.id db)
          (λ (p : IntentProjection). rebuild_projection sha256_hex i now none db >>= step p) h in
      let (q, rebuilt, k') =
        >>=-eq-ok (rebuild_projection sha256_hex i now none db) (step before) k in
      let r = rebuild_projection-Rebuilt sha256_hex i now none db q.0 q.1 rebuilt in
      refresh_all-IsCoherent rest now _ q.1 n db' (rw r.intents a.1) k'
        (IsCoherent-Rebuilt i now db q.1 r a.0 v)

  -- Refreshing the expirations of the intents, whether it succeeds or throws, keeps the tables
  -- coherent: distinct ids, projections that are the accounts of the attached
  -- settlements, and attachments by reference, chain and token.
  pub refresh_expirations-IsCoherent :
      (now : ℕ) (db : Database)
      → IsCoherent db
      → IsCoherent (refresh_expirations sha256_hex now db).1
  unfolding refresh_expirations transaction list_intents
  refresh_expirations-IsCoherent now db v =
      after_transaction-keeps IsCoherent db
        (refresh_all sha256_hex (list_intents 100_000 db) now 0 db)
        (λ n db' h.
          refresh_all-IsCoherent (list_intents 100_000 db) now 0 db n db'
            (All-take _ 100_000 _ (
              All-sort _ _ db.payment_intents
                (Distinct-found (λ i. i.id) db.payment_intents v.ids)))
            h v)
        v
