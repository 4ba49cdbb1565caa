-- ===== src/Intents/Coherence.antt =====
-- Creating an intent, and the coherence of the tables.
use ppops.Prelude.{
  ℕ, ◌<◌, ◌≡◌, refl, sym, ap, subst, ◌∙◌, inl, inr, false, List, [], ◌∷◌, ◌++◌, Option, none, some,
  arith, Bool-cases, filter, Text, text_eq, text_eq_iff, option_text_eq_iff, All, All-weaken,
  truthy,
}
use ppops.Prelude.Results.{ok}
use ppops.Prelude.Sorting.{sort}
use ppops.Prelude.Tables.{
  find_by, Distinct, Distinct-append, find_by-append_some, find_by-append_other,
  find_by-append_self,
}
use ppops.Domain.{PaymentIntentRecord, NormalizedSettlement, SettlementRecord}
use ppops.Database.{Database}
use ppops.Database.Intents.{get_intent, get_projection, initial_projection}
use ppops.Database.Settlements.{is_for, list_settlements_for_intent}
use ppops.Projection.Accounts.{IsAccountOf}
use ppops.Projection.{status_for, add_amounts}
use ppops.Reconciliation.{on_rail, intent_id_of}
use ppops.Reconciliation.Attachment.{Attached, owner, by_reference}
use ppops.Reconciliation.Coherence.{IsCoherent, HasAccount, HasAccount-kept, by_reference-id}
use ppops.Domain.Amount.{big_int}
use ppops.Descriptor.{Ethers}
use ppops.Intents.{Network, CreateIntentInput, Draws}
use ppops.Intents.Creating.{prepare_record}
use ppops.Intents.Inserts.{IntentAdded}

-- Adding an intent under a new reference leads no settlement elsewhere.
by_reference-append :
    (o : Option Text) (intents : List PaymentIntentRecord) (new i : PaymentIntentRecord)
    → by_reference o intents ≡ some i
    → by_reference o (intents ++ new ∷ []) ≡ some i
by_reference-append none intents new i h = cc
by_reference-append (some r) intents new i h =
    find_by-append_some (λ i. i.reference) r intents (new ∷ []) i h

owner-inv :
    (o : Option PaymentIntentRecord) (s : NormalizedSettlement) (id : Text)
    → intent_id_of (on_rail o s) ≡ some id
    → (i : PaymentIntentRecord) × (o ≡ some i) × (i.id ≡ id)
owner-inv none s id h = cc
owner-inv (some i) s id h = (i, refl, ground arith)

owner-append :
    (reference : Option Text) (s : NormalizedSettlement) (intents : List PaymentIntentRecord)
    (new : PaymentIntentRecord) (id : Text)
    → owner reference s intents ≡ some id
    → owner reference s (intents ++ new ∷ []) ≡ some id
owner-append reference s intents new id h =
    let (i, found, e) = owner-inv (by_reference (truthy reference) intents) s id h in
    ap (λ o. intent_id_of (on_rail o s))
      (by_reference-append (truthy reference) intents new i found ∙ sym found)
    ∙ h

-- No settlement is attached to an id that no intent has.
unattached :
    (id : Text) (intents : List PaymentIntentRecord) (rows : List SettlementRecord)
    → Distinct (λ i. i.id) intents
    → find_by (λ i. i.id) id intents ≡ none
    → All (Attached intents) rows
    → filter (is_for id) rows ≡ []
unattached id intents [] d gone a = refl
unattached id intents (x ∷ rows) d gone a = elim (Bool-cases (is_for id x)) [
  | inl e ↦
      let here = a.0 id ((option_text_eq_iff x.intent_id (some id)).0 e) in
      let (i, found, same) =
        owner-inv (by_reference (truthy x.reference) intents) x.settlement id here in
      let there = by_reference-id (truthy x.reference) intents i d found in
      cc (ap (λ k. find_by (λ (j : PaymentIntentRecord). j.id) k intents) same)
  | inr e ↦ rw e (unattached id intents rows d gone a.1)
]

initial-IsAccountOf :
    (intent : PaymentIntentRecord)
    → 0 < intent.expected_amount_atomic
    → intent.created_at < intent.expires_at
    → IsAccountOf intent [] intent.created_at (initial_projection intent.id intent.created_at)
unfolding status_for add_amounts
initial-IsAccountOf intent pos time = ground arith

list_settlements-none :
    (id : Text) (db : Database)
    → filter (is_for id) db.settlements ≡ []
    → list_settlements_for_intent id db ≡ []
unfolding list_settlements_for_intent sort
list_settlements-none id db e = rw e

module _ (intent : PaymentIntentRecord) (pos : 0 < intent.expected_amount_atomic)
    (time : intent.created_at < intent.expires_at) (db db' : Database)
    (added : IntentAdded intent db db') (v : IsCoherent db) where
  HasAccount-new : HasAccount db' intent
  unfolding get_projection
  HasAccount-new =
      let first = initial_projection intent.id intent.created_at in
      let none_yet =
        unattached intent.id db.payment_intents db.settlements v.ids
          (unfold get_intent in added.new_id) v.attached in
      let empty_list =
        list_settlements-none intent.id db'
          (ap (filter (is_for intent.id)) added.settlements ∙ none_yet) in
      (
        first,
        intent.created_at,
        ap (find_by (λ p. p.intent_id) intent.id) added.projections
            ∙ find_by-append_self (λ p. p.intent_id) db.intent_projections first
                added.new_projection,
        subst (λ ss. IsAccountOf intent ss intent.created_at first) (sym empty_list)
            (initial-IsAccountOf intent pos time),
      )

  HasAccount-old :
      (other : PaymentIntentRecord)
      → text_eq intent.id other.id ≡ false
      → HasAccount db other
      → HasAccount db' other
  unfolding get_projection
  HasAccount-old other apart h =
      HasAccount-kept db db' other
        (ap (find_by (λ p. p.intent_id) other.id) added.projections
          ∙ find_by-append_other (λ p. p.intent_id) other.id db.intent_projections
              (initial_projection intent.id intent.created_at) apart)
        (ap (filter (is_for other.id)) added.settlements) h

  account :
      (other : PaymentIntentRecord)
      → find_by (λ i. i.id) other.id (db.payment_intents ++ intent ∷ []) ≡ some other
      → HasAccount db' other
  unfolding get_intent
  account other h = elim (Bool-cases (text_eq intent.id other.id)) [
    | inl e ↦
        let here = find_by-append_self (λ i. i.id) db.payment_intents intent added.new_id in
        let same : intent ≡ other = cc (
          ap
            (λ k. find_by (λ (i : PaymentIntentRecord). i.id) k (db.payment_intents ++ intent ∷ []))
            ((text_eq_iff intent.id other.id).0 e)) in
        subst (HasAccount db') same HasAccount-new
    | inr e ↦ HasAccount-old other e (
        v.accounts other
          (sym (find_by-append_other (λ i. i.id) other.id db.payment_intents intent e) ∙ h))
  ]

  pub IntentAdded-IsCoherent : IsCoherent db'
  unfolding get_intent
  IntentAdded-IsCoherent = record {
    ids =
        rw added.intents (Distinct-append (λ i. i.id) db.payment_intents intent v.ids added.new_id);
    rows = rw added.settlements v.rows;
    attached =
        rw (added.settlements, added.intents)
          (All-weaken (Attached db.payment_intents) (Attached (db.payment_intents ++ intent ∷ []))
            db.settlements
            (λ x h id e.
              owner-append x.reference x.settlement db.payment_intents intent id (h id e))
            v.attached);
    accounts = λ other h. account other (rw added.intents at h);
  }

module _ (ethers : Ethers) (network : Network) (recipient_0zk merchant_private_key : Text) where
  pub prepare_record-fields :
      (input : CreateIntentInput) (external_reference : Text) (now : ℕ) (draws : Draws)
      (r : PaymentIntentRecord)
      → prepare_record ethers network recipient_0zk merchant_private_key input external_reference
          now draws
        ≡ ok r
      → (r.expected_amount_atomic ≡ big_int input.amount_atomic)
        × (r.created_at ≡ now)
        × (r.expires_at ≡ input.expires_at)
        × (r.external_reference ≡ external_reference)
  unfolding prepare_record
  prepare_record-fields input external_reference now draws r h = ground arith
