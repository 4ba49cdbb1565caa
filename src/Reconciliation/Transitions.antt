-- ===== src/Reconciliation/Transitions.antt =====
-- The events that a run of projections gives rise to.
use ppops.Prelude.{ℕ, ◌+◌, ◌≡◌, refl, List, [], ◌∷◌, Option, some, arith, if◌then◌else◌}
use ppops.Domain.{IntentProjection, EventType, payment_confirmed, payment_reverted}
use ppops.Reconciliation.{is_paid, transition_event_type}

abbrev confirms : Option EventType → ℕ
confirms (some payment_confirmed) = 1
confirms _ = 0

abbrev reverts : Option EventType → ℕ
reverts (some payment_reverted) = 1
reverts _ = 0

abbrev paid_count : IntentProjection → ℕ
paid_count p = if is_paid p then 1 else 0

-- The numbers of confirmed and reverted events of the transitions from `p` through `later`, and
-- the last projection.
abbrev pub confirmations : IntentProjection → List IntentProjection → ℕ
confirmations p [] = 0
confirmations p (q ∷ later) = confirms (transition_event_type p q) + confirmations q later

abbrev pub reversions : IntentProjection → List IntentProjection → ℕ
reversions p [] = 0
reversions p (q ∷ later) = reverts (transition_event_type p q) + reversions q later

abbrev pub last_of : IntentProjection → List IntentProjection → IntentProjection
last_of p [] = p
last_of p (q ∷ later) = last_of q later

transition_balance :
    (p q : IntentProjection)
    → paid_count p + confirms (transition_event_type p q)
      ≡ paid_count q + reverts (transition_event_type p q)
unfolding transition_event_type
transition_balance p q = ground arith

-- However an intent's projection moves, the confirmed and the reverted events of its transitions
-- balance: there is
-- one more confirmed than reverted if the run turned unpaid into paid, one fewer if paid into
-- unpaid, and as many otherwise.
pub confirmations-reversions :
    (p : IntentProjection) (later : List IntentProjection)
    → paid_count p + confirmations p later ≡ paid_count (last_of p later) + reversions p later
confirmations-reversions p [] = refl
confirmations-reversions p (q ∷ later) =
    omega (arith, transition_balance p q, confirmations-reversions q later)
