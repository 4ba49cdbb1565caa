-- ===== src/Intents.antt =====
-- src/intents/service.ts: creating and reading payment intents. Signing is awaited, so other
-- requests may run between the first look at the tables and the transaction: `meanwhile` is what
-- they do to them.
pub mod Inserts
pub mod Verifying
pub mod Idempotence
pub mod Coherence
pub mod Creating
use ppops.Prelude.{
  ℕ, zero, suc, ◌+◌, ◌≡◌, Bool, true, false, not, ◌&&◌, ◌||◌, List, [], ◌∷◌, ◌++◌, map, Option,
  none, some, ltb, leb, ◌==◌, if◌then◌else◌, is_some, length, all, any, Text, codes, text_eq,
  to_lower_case,
}
use mathlib.Core.List.{reverse}
use ppops.Prelude.Results.{Result, ok, err, ◌>>=◌, ◌>>◌, guard}
use ppops.Domain.{SignedPaymentDescriptor, PaymentIntentRecord, PaymentIntentView}
use ppops.Domain.Amount.{is_positive_atomic_amount, big_int}
use ppops.Descriptor.{
  Ethers, DescriptorError, or_throw, max_safe_integer, max_uint256, create_signed_descriptor,
  verify_signed_descriptor,
}
use ppops.Database.{
  Database, IdempotencyRow, Failure, missing_projection, payment_intent_not_found,
  idempotency_conflict, invalid_idempotency_key, bad_external_reference, bad_amount_atomic,
  bad_expires_at, descriptor_rejected, unexpected_replay, wrong_instance, descriptor_expired,
  transaction,
}
use ppops.Database.Intents.{
  get_intent, get_projection, insert_intent, get_intent_idempotency, insert_intent_idempotency,
  list_intents,
}

-- The fields of `config.network` that the service reads.
pub record Network : Type 0 where
  pub chain_id : ℕ
  pub token_address : Text
  pub token_decimals : ℕ
  pub token_symbol : Text

pub record CreateIntentInput : Type 0 where
  pub external_reference : Text
  pub amount_atomic : Text
  pub expires_at : ℕ

-- The random texts that one creation draws: two of 32 bytes, and a UUID without its dashes.
pub record Draws : Type 0 where
  pub reference_hex : Text
  pub nonce_hex : Text
  pub uuid_hex : Text

-- ECMAScript white space and line terminators.
abbrev pub is_space : ℕ → Bool
is_space c =
    leb 9 c && leb c 13
    || c == 32
    || c == 160
    || c == 0x1680
    || leb 0x2000 c && leb c 0x200a
    || c == 0x2028
    || c == 0x2029
    || c == 0x202f
    || c == 0x205f
    || c == 0x3000
    || c == 0xfeff

pub drop_spaces : Text → Text
drop_spaces [] = []
drop_spaces (c ∷ s) = if is_space c then drop_spaces s else c ∷ s

unfoldable pub trim : Text → Text
unfolding drop_spaces
trim s = reverse (drop_spaces (reverse (drop_spaces s)))

-- The checks of `createRecord`, with the trimmed reference as their result.
unfoldable pub validate_input : CreateIntentInput → ℕ → Result Failure Text
unfolding trim
validate_input input now = do
  let external_reference = trim input.external_reference
  guard (leb 1 (length external_reference) && leb (length external_reference) 512)
      bad_external_reference
  guard (is_positive_atomic_amount input.amount_atomic) bad_amount_atomic
  guard (leb (big_int input.amount_atomic) max_uint256) bad_amount_atomic
  guard (leb input.expires_at max_safe_integer && ltb now input.expires_at) bad_expires_at
  ok external_reference

abbrev pub or_rejected {ℓ} : {A : Type ℓ} → Result DescriptorError A → Result Failure A
or_rejected (ok a) = ok a
or_rejected (err e) = err descriptor_rejected

abbrev pub view_with :
    Option PaymentIntentRecord → Database → Result Failure (Option PaymentIntentView)
view_with none db = ok none
view_with (some intent) db = elim (get_projection intent.id db) [
  | none ↦ err missing_projection
  | some p ↦ ok (some (record { intent = intent; projection = p }))
]

-- `get`
unfoldable pub get : Text → Database → Result Failure (Option PaymentIntentView)
get id db = view_with (get_intent id db) db

abbrev pub present : Option PaymentIntentView → Result Failure PaymentIntentView
present none = err payment_intent_not_found
present (some view) = ok view

unfoldable pub require_view : Text → Database → Result Failure PaymentIntentView
unfolding get
require_view id db = do found ← get id db; present found

unfoldable pub list_views :
    List PaymentIntentRecord → Database → Result Failure (List PaymentIntentView)
list_views [] db = ok []
list_views (intent ∷ rest) db = do
  view ← view_with (some intent) db
  views ← list_views rest db
  elim view [ none ↦ ok views | some v ↦ ok (v ∷ views) ]

-- `list`, with offset 0
unfoldable pub list : ℕ → Database → Result Failure (List PaymentIntentView)
unfolding list_views
list limit db = list_views (list_intents limit db) db

-- A storage key and a fingerprint, each a digest.
pub record Idempotency : Type 0 where
  pub idempotency_key : Text
  pub fingerprint : Text

abbrev pub existing_intent : Option IdempotencyRow → Text → Result Failure (Option Text)
existing_intent none fingerprint = ok none
existing_intent (some row) fingerprint =
    if text_eq row.request_fingerprint fingerprint
    then ok (some row.intent_id)
    else err idempotency_conflict

abbrev pub look_up : Option Idempotency → Database → Result Failure (Option Text)
look_up none db = ok none
look_up (some i) db = existing_intent (get_intent_idempotency i.idempotency_key db) i.fingerprint

abbrev pub remember : Option Idempotency → Text → ℕ → Database → Result Failure Database
remember none id created_at db = ok db
remember (some i) id created_at db =
    insert_intent_idempotency i.idempotency_key i.fingerprint id created_at db

abbrev pub insert_new :
    PaymentIntentRecord → Option Idempotency → Database → Result Failure (Option Text × Database)
insert_new intent idempotency db = do
  db' ← insert_intent intent db
  db'' ← remember idempotency intent.id intent.created_at db'
  ok (none, db'')

abbrev pub insert_unless :
    Option Text
    → PaymentIntentRecord
    → Option Idempotency
    → Database
    → Result Failure (Option Text × Database)
insert_unless (some id) intent idempotency db = ok (some id, db)
insert_unless none intent idempotency db = insert_new intent idempotency db

-- The body of the transaction: the id of the intent that the key already has, or none after the
-- inserts.
unfoldable pub insert_operation :
    PaymentIntentRecord → Option Idempotency → Database → Result Failure (Option Text × Database)
insert_operation intent idempotency db = do
  found ← look_up idempotency db
  insert_unless found intent idempotency db

-- What `createRecord` returns: the new intent's view, or the id of the one that the key has.
pub data Creation : Type 0 where
  created : PaymentIntentView → Creation
  replayed : Text → Creation

abbrev pub finish : Text → Result Failure (Option Text) → Database → Result Failure Creation
finish id (err e) db = err e
finish id (ok (some existing)) db = ok (replayed existing)
finish id (ok none) db = do view ← require_view id db; ok (created view)

unfoldable pub commit_record :
    PaymentIntentRecord → Option Idempotency → Database → Result Failure Creation × Database
unfolding insert_operation
commit_record intent idempotency db =
    let (result, db') = transaction (insert_operation intent idempotency) db in
    (finish intent.id result db', db')
