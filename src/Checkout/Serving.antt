-- ===== src/Checkout/Serving.antt =====
-- The requests that the daemon serves.
use ppops.Prelude.{
  ℕ, ◌≡◌, refl, ap, sym, ◌∙◌, subst, Bool, true, List, Option, none, some, arith, leb, Bool-cases,
  Option-cases, inl, inr, Text,
}
use ppops.Prelude.Results.{Result, ok, err, ok-inj, >>=-eq-ok}
use ppops.Prelude.Tables.{find_by, find_by-key}
use ppops.Domain.{PaymentIntentRecord, PaymentIntentView, IntentProjection, SettlementRecord}
use ppops.Domain.Amount.{is_canonical, big_int-to_text, is_canonical-printed}
use ppops.Domain.Memo.{memo_for_reference}
use ppops.Database.{Database, Failure, missing_projection}
use ppops.Database.Intents.{get_intent, get_projection}
use ppops.Database.Settlements.{list_settlements_for_intent}
use ppops.Intents.{get}
use ppops.Projection.{status_for}
use ppops.Reconciliation.Coherence.{IsCoherent}
use ppops.Checkout.{
  CheckoutRequest, request_json, checkout_intent, is_complete, or_internal, or_not_found,
  payment_stage, served_request,
}
use ppops.Checkout.Page.{is_consistent_status, is_payment_complete}

pub or_internal-eq-ok {ℓ κ} :
    {E : Type ℓ} {A : Type κ} (found : Result E A) (a : A) → or_internal found ≡ ok a → found ≡ ok a
or_internal-eq-ok (err e) a h = cc
or_internal-eq-ok (ok b) a h = ap ok (ok-inj refl h)

or_not_found-eq-ok :
    (found : Option PaymentIntentView) (v : PaymentIntentView)
    → or_not_found found ≡ ok v
    → found ≡ some v
or_not_found-eq-ok none v h = cc
or_not_found-eq-ok (some w) v h = ap some (ok-inj refl h)

module _ (format_units : Text → ℕ → Text) where
  -- A served request is that of a stored intent with its projection and its settlements.
  pub request_json-served :
      (id : Text) (ready demo : Bool) (db : Database) (r : CheckoutRequest)
      → request_json format_units id ready demo db ≡ ok r
      → (v : PaymentIntentView) × (memo : Text) × (get id db ≡ ok (some v))
        × (served_request format_units v
              (list_settlements_for_intent v.intent.id db)
              ready
              demo
              memo
            ≡ r)
  unfolding request_json checkout_intent
  request_json-served id ready demo db r h =
      let (found, got, h1) = >>=-eq-ok (or_internal (get id db)) _ h in
      let (v, is, h2) = >>=-eq-ok (or_not_found found) _ h1 in
      let (memo, printed, h3) =
        >>=-eq-ok (or_internal (memo_for_reference v.intent.reference)) _ h2 in
      (
        v,
        memo,
        or_internal-eq-ok (get id db) found got ∙ ap ok (or_not_found-eq-ok found v is),
        ok-inj refl h3,
      )

  pub request_json-texts :
      (id : Text) (ready demo : Bool) (db : Database) (r : CheckoutRequest)
      → request_json format_units id ready demo db ≡ ok r
      → (is_canonical r.received_amount_atomic ≡ true)
        × (is_canonical r.pending_amount_atomic ≡ true)
  request_json-texts id ready demo db r h =
      let (v, memo, got, same) = request_json-served id ready demo db r h in
      subst
        (λ x.
          (is_canonical x.received_amount_atomic ≡ true)
          × (is_canonical x.pending_amount_atomic ≡ true))
        same (is_canonical-printed _, is_canonical-printed _)

status_for_complete :
    (intent : PaymentIntentRecord) (creditable : List SettlementRecord) (received now : ℕ)
    → is_complete (status_for intent creditable received now) ≡ true
    → leb intent.expected_amount_atomic received ≡ true
unfolding status_for
status_for_complete intent creditable received now h = ground arith

payment_stage_complete :
    (v : PaymentIntentView) (settlements : List SettlementRecord)
    → is_payment_complete (payment_stage v settlements) ≡ is_complete v.projection.status
unfolding payment_stage
payment_stage_complete v settlements = ground arith

abbrev view_of :
    PaymentIntentRecord → Option IntentProjection → Result Failure (Option PaymentIntentView)
view_of intent o = elim o [
  | none ↦ err missing_projection
  | some p ↦ ok (some (record { intent = intent; projection = p }))
]

viewed :
    (intent : PaymentIntentRecord) (o : Option IntentProjection) (v : PaymentIntentView)
    → view_of intent o ≡ ok (some v)
    → (p : IntentProjection) × (o ≡ some p) × (record { intent = intent; projection = p } ≡ v)
viewed intent none v h = cc
viewed intent (some p) v h = (p, refl, cc)

-- A view that is got is that of a stored intent.
get-found :
    (id : Text) (db : Database) (v : PaymentIntentView)
    → get id db ≡ ok (some v)
    → (find_by (λ i. i.id) v.intent.id db.payment_intents ≡ some v.intent)
      × (get_projection v.intent.id db ≡ some v.projection)
unfolding get get_intent
get-found id db v h =
    elim (Option-cases (find_by (λ (i : PaymentIntentRecord). i.id) id db.payment_intents)) [
      | inl e ↦ cc (rw e at h)
      | inr (intent, e) ↦
          let named =
            find_by-key (λ (i : PaymentIntentRecord). i.id) id db.payment_intents intent e in
          let (p, f, is) = viewed intent (get_projection intent.id db) v (rw e at h) in
          subst
            (λ w.
              (find_by (λ (i : PaymentIntentRecord). i.id) w.intent.id db.payment_intents
                ≡ some w.intent)
              × (get_projection w.intent.id db ≡ some w.projection))
            is
            (
              subst
                  (λ k.
                    find_by (λ (i : PaymentIntentRecord). i.id) k db.payment_intents ≡ some intent)
                  (sym named) e,
              f,
            )
    ]

served_request-consistent :
    (format_units : Text → ℕ → Text) (v : PaymentIntentView) (settlements : List SettlementRecord)
    (ready demo : Bool) (memo : Text)
    → (is_complete v.projection.status ≡ true
        → leb v.intent.expected_amount_atomic v.projection.received_amount_atomic ≡ true)
    → is_consistent_status (served_request format_units v settlements ready demo memo) ≡ true
served_request-consistent format_units v settlements ready demo memo enough =
    let received = big_int-to_text v.projection.received_amount_atomic in
    let expected = big_int-to_text v.intent.expected_amount_atomic in
    let stage = payment_stage_complete v settlements in
    elim (Bool-cases (is_complete v.projection.status)) [
      | inl e ↦ let have = enough e in rw (stage, received, expected, e) (ground arith)
      | inr e ↦ rw (stage, e) refl
    ]

module _ (format_units : Text → ℕ → Text) where
  -- Where the projections are the accounts of the settlements, as every scan leaves them, the
  -- checkout page finds the status of a served request consistent: the stage says that the payment is
  -- complete exactly when the status does, and a complete payment has received the whole amount.
  pub request_json-consistent :
      (id : Text) (ready demo : Bool) (db : Database) (r : CheckoutRequest)
      → IsCoherent db
      → request_json format_units id ready demo db ≡ ok r
      → is_consistent_status r ≡ true
  request_json-consistent id ready demo db r coherent h =
      let (v, memo, got, same) = request_json-served format_units id ready demo db r h in
      let (stored, projected) = get-found id db v got in
      let (p, t, found, account) = coherent.accounts v.intent stored in
      subst (λ x. is_consistent_status x ≡ true) same
        (served_request-consistent format_units v (list_settlements_for_intent v.intent.id db) ready
          demo memo
          (λ complete.
            let is : v.projection ≡ p = cc (projected, found) in
            subst
              (λ (q : IntentProjection).
                leb v.intent.expected_amount_atomic q.received_amount_atomic ≡ true)
              (sym is)
              (status_for_complete v.intent _ p.received_amount_atomic t (
                sym (ap is_complete account.status)
                ∙ ap (λ (q : IntentProjection). is_complete q.status) (sym is)
                ∙ complete))))
