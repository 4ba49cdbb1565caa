-- ===== src/Quorum.antt =====
-- src/railgun/rpc-quorum.ts: agreement among RPC providers. What the providers answer in the two
-- attempts of a question is an argument; `none` is a rejected or timed-out request. Answers are
-- never undefined.
pub mod Groups
pub mod Values
pub mod Heights
pub mod Chain
use ppops.Prelude.{
  ℕ, ◌+◌, ◌-◌, ◌/◌, Bool, true, false, ◌&&◌, List, [], ◌∷◌, ◌++◌, Option, none, some, ltb, leb,
  ◌==◌, if◌then◌else◌, filter, find, length, Text, to_lower_case, text_eq, codes,
}
use ppops.Prelude.Results.{Result, ok, err, ◌>>=◌, ◌>>◌, guard}
use ppops.Prelude.Sorting.{sort}
use ppops.Prelude.Tables.{find_by, update_by}
use ppops.Domain.Amount.{to_text}
use ppops.Descriptor.{max_safe_integer}

pub data QuorumError : Type 0 where
  no_agreement omitted_block invalid_chain_id wrong_chain_id : QuorumError

-- The settled answers of one attempt, in the order of the providers.
abbrev pub Answers {ℓ} : Type ℓ → Type ℓ
Answers A = List (Option A)

-- The answers to one question, in the first attempt and in the second.
pub record Attempts {ℓ} (A : Type ℓ) : Type ℓ where
  pub first : Answers A
  pub second : Answers A

abbrev pub fulfilled {ℓ} : {A : Type ℓ} → Answers A → List A
fulfilled [] = []
fulfilled (none ∷ rest) = fulfilled rest
fulfilled (some a ∷ rest) = a ∷ fulfilled rest

-- An entry of the map `groups`.
pub record Group {ℓ} (A : Type ℓ) : Type ℓ where
  pub key : Text
  pub values : List A

abbrev pub group_key {ℓ} : {A : Type ℓ} → Group A → Text
group_key g = g.key

abbrev pub add_to {ℓ} : {A : Type ℓ} → Option (Group A) → Text → A → List (Group A) → List (Group A)
add_to none key value groups = groups ++ record { key = key; values = value ∷ [] } ∷ []
add_to (some g) key value groups =
    update_by group_key key (λ g. record g { values = g.values ++ value ∷ [] }) groups

abbrev pub larger {ℓ} : {A : Type ℓ} → Group A → Group A → Bool
larger left right = ltb (length right.values) (length left.values)

abbrev pub winner {ℓ} : {A : Type ℓ} → List (Group A) → Option (Group A)
winner [] = none
winner (g ∷ rest) = some g

abbrev pub first_of {ℓ} : {A : Type ℓ} → List A → Option A
first_of [] = none
first_of (a ∷ rest) = some a

-- `Math.floor(providers.length / 2) + 1`
abbrev pub quorum_of : ℕ → ℕ
quorum_of providers = providers / 2 + 1

abbrev pub settle_attempts {ℓ} : {A : Type ℓ} → Option A → Option A → Result QuorumError A
settle_attempts (some a) second = ok a
settle_attempts none (some a) = ok a
settle_attempts none none = err no_agreement

module _ {ℓ} {A : Type ℓ} (key_for : A → Text) (quorum : ℕ) where
  pub group_all : List A → List (Group A) → List (Group A)
  group_all [] groups = groups
  group_all (value ∷ rest) groups =
      group_all rest
        (add_to (find_by group_key (key_for value) groups) (key_for value) value groups)

  abbrev pub value_of : Option (Group A) → Option A
  value_of none = none
  value_of (some g) = if leb quorum (length g.values) then first_of g.values else none

  -- One attempt of `consensusValue`.
  unfoldable pub agreed_value : Answers A → Option A
  unfolding group_all
  agreed_value answers = value_of (winner (sort larger (group_all (fulfilled answers) [])))

  unfoldable pub consensus_value : Attempts A → Result QuorumError A
  unfolding agreed_value
  consensus_value attempts =
      settle_attempts (agreed_value attempts.first) (agreed_value attempts.second)

module _ (quorum max_block_lag : ℕ) where
  abbrev pub cluster : List ℕ → ℕ → List ℕ
  cluster heights base =
      filter (λ height. leb base height && leb (height - base) max_block_lag) heights

  abbrev pub has_cluster : List ℕ → ℕ → Bool
  has_cluster heights base = leb quorum (length (cluster heights base))

  -- The safe heights of the answers.
  abbrev pub safe_heights : Answers ℕ → List ℕ
  safe_heights answers = filter (λ height. leb height max_safe_integer) (fulfilled answers)

  -- One attempt of `consensusHeight`.
  unfoldable pub agreed_height : Answers ℕ → Option ℕ
  agreed_height answers =
      let heights = sort ltb (safe_heights answers) in find (has_cluster heights) heights

  unfoldable pub consensus_height : Attempts ℕ → Result QuorumError ℕ
  unfolding agreed_height
  consensus_height attempts =
      settle_attempts (agreed_height attempts.first) (agreed_height attempts.second)

pub record Block : Type 0 where
  pub number : ℕ
  pub hash : Option Text
  pub timestamp : ℕ

-- The fields of a receipt that are read; `status` is null for some chains.
pub record TransactionReceipt : Type 0 where
  pub hash : Text
  pub block_number : ℕ
  pub block_hash : Text
  pub index : ℕ
  pub status : Option ℕ

abbrev colon : Text
colon = codes ":"

abbrev or_null : Option Text → Text
or_null none = codes "null"
or_null (some s) = s

abbrev pub block_key : Option Block → Text
block_key none = codes "null"
block_key (some b) = to_text b.number ++ colon ++ or_null b.hash ++ colon ++ to_text b.timestamp

abbrev status_text : Option ℕ → Text
status_text none = codes "null"
status_text (some n) = to_text n

abbrev pub receipt_key : Option TransactionReceipt → Text
receipt_key none = codes "null"
receipt_key (some r) =
    to_lower_case r.hash
    ++ colon
    ++ to_text r.block_number
    ++ colon
    ++ to_lower_case r.block_hash
    ++ colon
    ++ to_text r.index
    ++ colon
    ++ status_text r.status

abbrev found_block : Option Block → Result QuorumError Block
found_block none = err omitted_block
found_block (some b) = ok b

-- The latest block, and the finalized one where the tag is used.
pub record ChainContext : Type 0 where
  pub latest_block : ℕ
  pub finalized_block : Option ℕ

-- What the providers answer to the questions of one `chainContext`.
pub record ContextAnswers : Type 0 where
  pub chain_ids : Attempts Text
  pub latest : Attempts ℕ
  pub finalized : Attempts ℕ
  pub blocks : ℕ → Attempts (Option Block)

module _ (quorum : ℕ) where
  unfoldable pub get_transaction_receipt :
      Attempts (Option TransactionReceipt) → Result QuorumError (Option TransactionReceipt)
  get_transaction_receipt attempts = consensus_value receipt_key quorum attempts

  unfoldable pub get_block : Attempts (Option Block) → Result QuorumError Block
  get_block attempts = do block ← consensus_value block_key quorum attempts; found_block block

-- `parse_big_int` is `BigInt(String(value))`, with `none` for a throw.
module _ (parse_big_int : Text → Option ℕ) (chain_id max_block_lag quorum : ℕ) where
  abbrev check_chain_id : Option ℕ → Result QuorumError (Unit {0})
  check_chain_id none = err invalid_chain_id
  check_chain_id (some n) = guard (n == chain_id) wrong_chain_id

  abbrev agreed_chain_id : Attempts Text → Result QuorumError (Unit {0})
  agreed_chain_id chain_ids = do
    id ← consensus_value to_lower_case quorum chain_ids
    check_chain_id (parse_big_int id)

  abbrev verified_by : Result QuorumError (Unit {0}) → Result QuorumError (Unit {0}) × Bool
  verified_by (ok _) = (ok tt, true)
  verified_by (err e) = (err e, false)

  -- `assertChainId`, on `chainVerified`
  unfoldable pub assert_chain_id : Attempts Text → Bool → Result QuorumError (Unit {0}) × Bool
  assert_chain_id chain_ids true = (ok tt, true)
  assert_chain_id chain_ids false = verified_by (agreed_chain_id chain_ids)

  abbrev finalized_context : ℕ → ContextAnswers → Result QuorumError ChainContext
  finalized_context latest_block answers = do
    finalized_height ← consensus_height quorum max_block_lag answers.finalized
    block ← get_block quorum (answers.blocks finalized_height)
    ok (record { latest_block = latest_block; finalized_block = some finalized_height })

  abbrev context_of : Bool → ContextAnswers → Result QuorumError ChainContext
  context_of use_finalized_tag answers = do
    latest_block ← consensus_height quorum max_block_lag answers.latest
    let unfinalized : ChainContext = record { latest_block = latest_block; finalized_block = none }
    if use_finalized_tag then finalized_context latest_block answers else ok unfinalized

  unfoldable pub chain_context :
      Bool → ContextAnswers → Bool → Result QuorumError ChainContext × Bool
  unfolding assert_chain_id
  chain_context use_finalized_tag answers verified =
      let (asserted, verified') = assert_chain_id answers.chain_ids verified in
      (asserted >> context_of use_finalized_tag answers, verified')
