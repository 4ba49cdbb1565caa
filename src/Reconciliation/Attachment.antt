-- ===== src/Reconciliation/Attachment.antt =====
-- Which intent a stored settlement belongs to.
use ppops.Prelude.{
  ℕ, ◌≡◌, refl, sym, ap, ◌∙◌, inl, inr, true, false, List, [], ◌∷◌, ◌++◌, Option, none, some, arith,
  Bool-cases, Text, text_eq_iff, option_text_eq, option_text_eq_iff, truthy, All, All-append,
  All-find, filter, filter-append,
}
use mathlib.Core.List.{append-nil}
use ppops.Prelude.Results.{ok}
use ppops.Prelude.Tables.{
  find_by, update_by, has_key, Distinct, Distinct-append, Distinct-update_by, All-update_found,
  filter-update_by,
}
use ppops.Domain.{PaymentIntentRecord, NormalizedSettlement, SettlementRecord}
use ppops.Database.{Database}
use ppops.Database.Intents.{find_intent_by_reference}
use ppops.Database.Settlements.{
  row_key, overwrite, settlement_from_row, write_settlement, get_settlement, is_for,
}
use ppops.Reconciliation.{
  same_identity, assert_immutable_identity, referenced_intent, matches_rail, on_rail, intent_id_of,
  merged_settlement,
}
use ppops.Reconciliation.Steps.{write_settlement-cases}

abbrev pub by_reference : Option Text → List PaymentIntentRecord → Option PaymentIntentRecord
by_reference none intents = none
by_reference (some reference) intents = find_by (λ i. i.reference) reference intents

pub referenced_intent-by_reference :
    (o : Option Text) (db : Database) → referenced_intent o db ≡ by_reference o db.payment_intents
unfolding find_intent_by_reference
referenced_intent-by_reference none db = refl
referenced_intent-by_reference (some r) db = refl

-- The id of the intent that a reference, chain and token lead to.
abbrev pub owner : Option Text → NormalizedSettlement → List PaymentIntentRecord → Option Text
owner reference s intents = intent_id_of (on_rail (by_reference (truthy reference) intents) s)

-- A row that is attached to an intent is so by its own reference, chain and token.
abbrev pub Attached : List PaymentIntentRecord → SettlementRecord → Type 0
Attached intents row =
    (id : Text) → row.intent_id ≡ some id → owner row.reference row.settlement intents ≡ some id

truthy_idem : (o : Option Text) → truthy (truthy o) ≡ truthy o
truthy_idem none = refl
truthy_idem (some []) = refl
truthy_idem (some (c ∷ s)) = refl

on_rail-same :
    (o : Option PaymentIntentRecord) (s t : NormalizedSettlement)
    → s.chain_id ≡ t.chain_id
    → s.token_address ≡ t.token_address
    → on_rail o s ≡ on_rail o t
unfolding matches_rail
on_rail-same none s t chain token = refl
on_rail-same (some i) s t chain token = rw (chain, token)

-- The fields that a settlement is matched by are among those that may not change.
same_identity-rail :
    (x : SettlementRecord) (c : NormalizedSettlement)
    → same_identity (settlement_from_row x) c ≡ true
    → (x.chain_id ≡ c.chain_id)
      × (x.token_address ≡ c.token_address)
      × (truthy x.reference ≡ c.reference)
unfolding same_identity settlement_from_row
same_identity-rail x c h = ground (
  arith,
  text_eq_iff x.token_address c.token_address,
  option_text_eq_iff (truthy x.reference) c.reference,
)

module _ (intents : List PaymentIntentRecord) (x : SettlementRecord) (c : NormalizedSettlement)
    (same : same_identity (settlement_from_row x) c ≡ true) where
  owner-same : owner x.reference x.settlement intents ≡ owner c.reference c intents
  owner-same =
      let (chain, token, reference) = same_identity-rail x c same in
      ap intent_id_of (
        on_rail-same (by_reference (truthy x.reference) intents) x.settlement c chain token
        ∙ ap (λ o. on_rail (by_reference o intents) c)
            (sym (truthy_idem x.reference) ∙ ap truthy reference))

  -- The overwritten row is attached where the candidate leads.
  Attached-overwrite :
      (s : SettlementRecord)
      → s.reference ≡ c.reference
      → s.intent_id ≡ owner c.reference c intents
      → Attached intents (overwrite s x)
  unfolding overwrite
  Attached-overwrite s reference target id h =
      let (chain, token, r) = same_identity-rail x c same in
      ap intent_id_of (
        on_rail-same (by_reference (truthy s.reference) intents) (overwrite s x).settlement c chain
          token
        ∙ ap (λ o. on_rail (by_reference (truthy o) intents) c) reference)
      ∙ sym target
      ∙ h

  -- A row of one intent is not rewritten for another.
  not-is_for :
      (id : Text)
      → Attached intents x
      → option_text_eq (owner c.reference c intents) (some id) ≡ false
      → is_for id x ≡ false
  not-is_for id attached apart = elim (Bool-cases (is_for id x)) [
    | inl e ↦
        let here = (option_text_eq_iff x.intent_id (some id)).0 e in
        let there : owner c.reference c intents ≡ some id = sym owner-same ∙ attached id here in
        cc ((option_text_eq_iff (owner c.reference c intents) (some id)).1 there)
    | inr e ↦ e
  ]

-- What an upsert of the merged candidate leaves: rows with distinct ids and each in its place, and
-- the rows of every intent but the candidate's own.
pub record Upserted (target : Option Text) (db db' : Database) : Type 0 where
  pub intents : db'.payment_intents ≡ db.payment_intents
  pub projections : db'.intent_projections ≡ db.intent_projections
  pub rows : Distinct row_key db'.settlements
  pub attached : All (Attached db.payment_intents) db'.settlements
  pub others :
      (id : Text)
      → option_text_eq target (some id) ≡ false
      → filter (is_for id) db'.settlements ≡ filter (is_for id) db.settlements

get_settlement-found :
    (id : Text) (db : Database) (x : SettlementRecord)
    → find_by row_key id db.settlements ≡ some x
    → get_settlement id db ≡ some (settlement_from_row x)
unfolding get_settlement
get_settlement-found id db x h = rw h

asserted :
    (o : Option SettlementRecord) (x : SettlementRecord) (c : NormalizedSettlement)
    → o ≡ some x
    → assert_immutable_identity o c ≡ ok tt
    → same_identity x c ≡ true
asserted none x c e h = cc
asserted (some y) x c e h = ground arith

module _ (c : NormalizedSettlement) (db : Database) (s : SettlementRecord)
    (id : s.unique_settlement_id ≡ c.unique_settlement_id) (reference : s.reference ≡ c.reference)
    (rail : (intents : List PaymentIntentRecord)
      → owner c.reference s.settlement intents ≡ owner c.reference c intents)
    (target : s.intent_id ≡ owner c.reference c db.payment_intents)
    (rows : Distinct row_key db.settlements)
    (attached : All (Attached db.payment_intents) db.settlements)
    (asserts : assert_immutable_identity (get_settlement c.unique_settlement_id db) c ≡ ok tt) where
  Upserted-overwrite :
      (x : SettlementRecord)
      → find_by row_key s.unique_settlement_id db.settlements ≡ some x
      → Upserted (owner c.reference c db.payment_intents) db (record db {
        settlements = update_by row_key s.unique_settlement_id (overwrite s) db.settlements;
      })
  Upserted-overwrite x found =
      let found_c : find_by row_key c.unique_settlement_id db.settlements ≡ some x =
        rw id at found in
      let same =
        asserted _ (settlement_from_row x) c
          (get_settlement-found c.unique_settlement_id db x found_c) asserts in
      let mine =
        All-find (Attached db.payment_intents) (has_key row_key s.unique_settlement_id)
          db.settlements x attached found in
      record {
        intents = refl;
        projections = refl;
        rows =
            Distinct-update_by row_key s.unique_settlement_id (overwrite s) db.settlements
              (λ a. unfold overwrite in refl) rows;
        attached =
            All-update_found row_key (Attached db.payment_intents) s.unique_settlement_id
              (overwrite s) db.settlements x found rows
              (Attached-overwrite db.payment_intents x c same s reference target) attached;
        others = λ j apart.
            filter-update_by row_key s.unique_settlement_id (overwrite s) (is_for j) db.settlements
              x found (not-is_for db.payment_intents x c same j mine.0 apart)
              (unfold overwrite in rw target apart) rows;
      }

  Upserted-append :
      find_by row_key s.unique_settlement_id db.settlements ≡ none
      → Upserted
          (owner c.reference c db.payment_intents)
          db
          (record db { settlements = db.settlements ++ s ∷ [] })
  Upserted-append gone = record {
    intents = refl;
    projections = refl;
    rows = Distinct-append row_key db.settlements s rows gone;
    attached = All-append (Attached db.payment_intents) db.settlements (s ∷ []) attached (
      λ j h.
          ap (λ r. owner r s.settlement db.payment_intents) reference
          ∙ rail db.payment_intents
          ∙ sym target
          ∙ h,
      tt,
    );
    others = λ j apart.
        let new : is_for j s ≡ false = rw target apart in
        filter-append (is_for j) db.settlements (s ∷ []) ∙ rw (new, append-nil);
  }

  write_settlement-Upserted :
      (db' : Database)
      → write_settlement s db ≡ ok db'
      → Upserted (owner c.reference c db.payment_intents) db db'
  write_settlement-Upserted db' h = elim (write_settlement-cases s db db' h) [
    | inl (x, found, e) ↦ rw e (Upserted-overwrite x found)
    | inr (gone, e) ↦ rw e (Upserted-append gone)
  ]

-- The merged candidate belongs to the intent that the candidate leads to.
pub merged_settlement-Upserted :
    (c : NormalizedSettlement) (now : ℕ) (db db' : Database)
    → Distinct row_key db.settlements
    → All (Attached db.payment_intents) db.settlements
    → assert_immutable_identity (get_settlement c.unique_settlement_id db) c ≡ ok tt
    → write_settlement
        (merged_settlement
          (get_settlement c.unique_settlement_id db)
          (referenced_intent (truthy c.reference) db)
          c
          now)
        db
      ≡ ok db'
    → Upserted (owner c.reference c db.payment_intents) db db'
unfolding merged_settlement
merged_settlement-Upserted c now db db' rows attached asserts h =
    write_settlement-Upserted c db
      (merged_settlement (get_settlement c.unique_settlement_id db)
        (referenced_intent (truthy c.reference) db) c now)
      refl refl
      (λ intents.
        ap intent_id_of (on_rail-same (by_reference (truthy c.reference) intents) _ c refl refl))
      (ap (λ o. intent_id_of (on_rail o c))
        (referenced_intent-by_reference (truthy c.reference) db))
      rows attached asserts db' h
