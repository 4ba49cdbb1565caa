-- ===== src/Scanner.antt =====
-- src/railgun/scanner.ts: what the chain and the wallet say of a settlement. The wallet's notes,
-- their buckets and token addresses come from the RAILGUN libraries and are arguments; how the
-- scan refreshes the wallet is not modelled.
pub mod Statuses
pub mod Workers
pub mod Refresh
pub mod Notes
use ppops.Prelude.{
  ℕ, ◌+◌, Bool, true, false, ◌&&◌, List, [], ◌∷◌, ◌++◌, Option, none, some, leb, ◌==◌,
  if◌then◌else◌, any, Text, codes, text_eq, to_lower_case, truthy, ltb, is_some, not, filter,
}
use ppops.Prelude.Results.{Result, ok, err, ◌>>=◌, ◌>>◌, guard}
use ppops.Domain.{
  ChainStatus, observed, confirmed, finalized, reverted, PoiStatus, spendable, pending, blocked,
  unknown, NormalizedSettlement, is_finalized,
}
use ppops.Domain.Amount.{to_text}
use ppops.Domain.Memo.{parse_ppops_reference}
use ppops.Quorum.{
  Attempts, Block, TransactionReceipt, ChainContext, QuorumError, get_transaction_receipt,
  get_block,
}
use ppops.Webhook.{strip_text}

-- `config.network.finality`
pub data Finality : Type 0 where
  finalized_tag : Finality
  confirmations : ℕ → Finality

pub data ScanError : Type 0 where
  no_reference : ScanError
  already_scanning : ScanError
  rpc : QuorumError → ScanError

abbrev with_prefix : Option Text → Text → Text
with_prefix none lower = codes "0x" ++ lower
with_prefix (some rest) lower = lower

unfoldable pub normalize_transaction_hash : Text → Text
unfolding strip_text
normalize_transaction_hash hash =
    let lower = to_lower_case hash in with_prefix (strip_text (codes "0x") lower) lower

abbrev pub is_valid_status : Text × Text → Bool
is_valid_status (list, status) = text_eq status (codes "Valid")

-- `RailgunWalletBalanceBucket` of the RAILGUN library: the members that the code names.
pub data Bucket : Type 0 where
  spendable_bucket shield_blocked shield_pending proof_submitted : Bucket
  missing_internal_poi missing_external_poi spent other_bucket : Bucket

unfoldable pub bucket_to_poi_status : Bucket → List (Text × Text) → PoiStatus
bucket_to_poi_status spendable_bucket raw_statuses = spendable
bucket_to_poi_status shield_blocked raw_statuses = blocked
bucket_to_poi_status shield_pending raw_statuses = pending
bucket_to_poi_status proof_submitted raw_statuses = pending
bucket_to_poi_status missing_internal_poi raw_statuses = pending
bucket_to_poi_status missing_external_poi raw_statuses = pending
bucket_to_poi_status spent raw_statuses =
    if any is_valid_status raw_statuses then spendable else unknown
bucket_to_poi_status other_bucket raw_statuses = unknown

abbrev pub chain_status_when_receipt_missing : Option ChainStatus → ChainStatus
chain_status_when_receipt_missing none = observed
chain_status_when_receipt_missing (some previous) =
    if is_finalized previous then reverted else observed

-- latestBlock - receipt.blockNumber + 1 >= n
abbrev pub has_confirmations : ℕ → TransactionReceipt → ChainContext → Bool
has_confirmations n receipt context = leb (receipt.block_number + n) (context.latest_block + 1)

abbrev reached : Option ℕ → ℕ → Bool
reached none block_number = false
reached (some finalized_block) block_number = leb block_number finalized_block

unfoldable pub chain_status_for : Finality → TransactionReceipt → ChainContext → ChainStatus
chain_status_for finalized_tag receipt context =
    if reached context.finalized_block receipt.block_number then finalized else confirmed
chain_status_for (confirmations n) receipt context =
    if has_confirmations n receipt context
    then finalized
    else if has_confirmations 1 receipt context
    then confirmed
    else observed

-- receipt.status === 1
abbrev pub succeeded : TransactionReceipt → Bool
succeeded receipt = elim receipt.status [ none ↦ false | some n ↦ n == 1 ]

module _ (quorum : ℕ) (finality : Finality) where
  abbrev with_block :
      NormalizedSettlement
      → TransactionReceipt
      → ChainContext
      → Result QuorumError Block
      → Result QuorumError NormalizedSettlement
  with_block settlement receipt context (err e) = err e
  with_block settlement receipt context (ok block) = ok (record settlement {
    block_number = receipt.block_number;
    block_timestamp = block.timestamp;
    chain_status = chain_status_for finality receipt context;
  })

  abbrev with_receipt :
      NormalizedSettlement
      → ChainContext
      → (ℕ → Attempts (Option Block))
      → Option TransactionReceipt
      → Result QuorumError NormalizedSettlement
  with_receipt settlement context blocks none = ok (record settlement {
    chain_status = chain_status_when_receipt_missing (some settlement.chain_status);
  })
  with_receipt settlement context blocks (some receipt) =
      if succeeded receipt
      then with_block settlement receipt context (get_block quorum (blocks receipt.block_number))
      else ok (record settlement { chain_status = reverted })

  -- `refreshKnownChainState`, behind its `chainContext`
  unfoldable pub refresh_known_chain_state :
      NormalizedSettlement
      → Result QuorumError ChainContext
      → Attempts (Option TransactionReceipt)
      → (ℕ → Attempts (Option Block))
      → Result QuorumError NormalizedSettlement
  refresh_known_chain_state settlement chain_context receipts blocks = do
    context ← chain_context
    receipt ← get_transaction_receipt quorum receipts
    with_receipt settlement context blocks receipt

-- What is read of a note of the wallet, with its bucket and its token's address.
pub record Txo : Type 0 where
  pub txid : Text
  pub tree : ℕ
  pub position : ℕ
  pub block_number : ℕ
  pub memo_text : Option Text
  pub is_erc20 : Bool
  pub value : ℕ
  pub transact_creation_railgun_txid : Option Text
  pub raw_ppoi_statuses : List (Text × Text)
  pub balance_bucket : Bucket
  pub token_address : Text

-- The texts with colons between them.
abbrev pub with_colons : List Text → Text
with_colons [] = []
with_colons (s ∷ []) = s
with_colons (s ∷ t ∷ rest) = s ++ b':' ∷ with_colons (t ∷ rest)

-- `uniqueSettlementId`
unfoldable pub settlement_id_for : ℕ → Text → Text → ℕ → ℕ → Text
settlement_id_for chain_id txid_version transaction_hash tree position =
    with_colons
      (to_text chain_id ∷ txid_version ∷ transaction_hash ∷ to_text tree ∷ to_text position ∷ [])

abbrev status_of_receipt : Finality → Option TransactionReceipt → ChainContext → ChainStatus
status_of_receipt finality none context = chain_status_when_receipt_missing none
status_of_receipt finality (some receipt) context =
    if succeeded receipt then chain_status_for finality receipt context else reverted

abbrev block_number_of : Option TransactionReceipt → ℕ → ℕ
block_number_of none number = number
block_number_of (some receipt) number = receipt.block_number

abbrev or_rpc {ℓ} : {A : Type ℓ} → Result QuorumError A → Result ScanError A
or_rpc (ok a) = ok a
or_rpc (err e) = err (rpc e)

abbrev or_no_reference : Option Text → Result ScanError Text
or_no_reference none = err no_reference
or_no_reference (some reference) = ok reference

-- `bucket_name` is the text of a bucket, which is stored.
module _ (bucket_name : Bucket → Text) (quorum chain_id : ℕ) (finality : Finality) where
  -- `normalizeTXO`; the timestamp cache only saves the same question a second time.
  unfoldable pub normalize_txo :
      Text
      → Txo
      → ChainContext
      → Attempts (Option TransactionReceipt)
      → (ℕ → Attempts (Option Block))
      → Result ScanError NormalizedSettlement
  normalize_txo txid_version txo context receipts blocks = do
    reference ← or_no_reference (parse_ppops_reference txo.memo_text)
    let transaction_hash = normalize_transaction_hash txo.txid
    receipt ← or_rpc (get_transaction_receipt quorum receipts)
    let block_number = block_number_of receipt txo.block_number
    block ← or_rpc (get_block quorum (blocks block_number))
    ok (record {
      unique_settlement_id =
          settlement_id_for chain_id txid_version transaction_hash txo.tree txo.position;
      chain_id = chain_id;
      txid_version = txid_version;
      tree = txo.tree;
      position = txo.position;
      transaction_hash = transaction_hash;
      railgun_txid = truthy txo.transact_creation_railgun_txid;
      token_address = to_lower_case txo.token_address;
      amount_atomic = txo.value;
      block_number = block_number;
      block_timestamp = block.timestamp;
      balance_bucket = bucket_name txo.balance_bucket;
      raw_ppoi_statuses = txo.raw_ppoi_statuses;
      chain_status = status_of_receipt finality receipt context;
      poi_status = bucket_to_poi_status txo.balance_bucket txo.raw_ppoi_statuses;
      reference = some reference;
    })

  -- The notes that carry a reference: those that `scan` keeps.
  unfoldable pub carries_reference : Text × Txo → Bool
  carries_reference (txid_version, txo) =
      txo.is_erc20 && ltb 0 txo.value && is_some (parse_ppops_reference txo.memo_text)

  -- `mapWithConcurrency` of `normalizeTXO`: the outputs stand in the order of the inputs, and one
  -- failure is the failure of all.
  unfoldable pub normalize_all :
      ChainContext
      → (Txo → Attempts (Option TransactionReceipt))
      → (ℕ → Attempts (Option Block))
      → List (Text × Txo)
      → Result ScanError (List NormalizedSettlement)
  normalize_all context receipts blocks [] = ok []
  normalize_all context receipts blocks ((txid_version, txo) ∷ rest) = do
    settlement ← normalize_txo txid_version txo context (receipts txo) blocks
    settlements ← normalize_all context receipts blocks rest
    ok (settlement ∷ settlements)

  -- The guard of `scan`, and the flag `scanning` from there on.
  unfoldable pub begin_scan : Bool → Result ScanError (Unit {0}) × Bool
  begin_scan true = (err already_scanning, true)
  begin_scan false = (ok tt, true)

  -- The body of `scan`, and the flag that it leaves: `finally` clears it as soon as the notes are
  -- given to `mapWithConcurrency`, whose promise is returned without waiting for it, or something
  -- has thrown. A call that is refused does not reach it.
  unfoldable pub run_scan :
      Result ScanError (Unit {0}) × Bool
      → List (Text × Txo)
      → Result QuorumError ChainContext
      → (Txo → Attempts (Option TransactionReceipt))
      → (ℕ → Attempts (Option Block))
      → Result ScanError (List NormalizedSettlement) × Bool
  run_scan (err e, scanning) txos chain_context receipts blocks = (err e, scanning)
  run_scan (ok _, scanning) txos chain_context receipts blocks =
      let settlements = or_rpc chain_context >>= (λ (context : ChainContext).
        normalize_all context receipts blocks (filter carries_reference txos)) in
      (settlements, false)

  -- `scan`, on the notes of the refreshed wallet: its result, and the flag `scanning` after it.
  unfoldable pub scan :
      Bool
      → List (Text × Txo)
      → Result QuorumError ChainContext
      → (Txo → Attempts (Option TransactionReceipt))
      → (ℕ → Attempts (Option Block))
      → Result ScanError (List NormalizedSettlement) × Bool
  unfolding begin_scan run_scan
  scan scanning txos chain_context receipts blocks =
      run_scan (begin_scan scanning) txos chain_context receipts blocks
