-- ===== src/Scenarios/Chain.antt =====
-- Requests to the daemon, answers of the RPC providers and the statuses that follow from them.
use ppops.Prelude.{
  ◌++◌, ℕ, ◌+◌, ◌≡◌, refl, true, false, List, [], ◌∷◌, Option, none, some, arith, Text, codes,
}
use Prim.Native.Nat.{min}
use ppops.Prelude.{◌↔◌, ◌⊎◌, to_lower_case}
use ppops.Prelude.Results.{ok}
use ppops.Domain.{pending, finalized, NormalizedSettlement, SettlementRecord}
use ppops.Reconciliation.{same_identity}
use ppops.Prelude.Sorting.{sort}
use ppops.Domain.Amount.{to_text}
use ppops.Scanner.{begin_scan, run_scan}
use ppops.Quorum.{Block, get_transaction_receipt, get_block, assert_chain_id}
use ppops.Quorum.Chain.{verified_after, OnceAgreed, AgreesOnChain, assert_chain_id-agreed}
use ppops.Domain.Memo.{parse_ppops_reference, is_hex_text}
use ppops.Scanner.{normalize_all, normalize_txo, normalize_transaction_hash, bucket_to_poi_status}
use ppops.Scanner.{settlement_id_for}
use ppops.Scanner.Notes.{ComesTo, scan-StandForAll}
use ppops.Scanner.{Bucket, shield_pending, Txo, carries_reference, scan, refresh_known_chain_state}
use ppops.Scanner.Refresh.{HasFinalReceipt, refresh_known_chain_state-same_identity}
use ppops.Scenarios.Shop.{reference, settlement_of, recorded}
use ppops.RateLimit.{no_requests}
use ppops.RateLimit.Windows.{granted, requests_of, granted-window}
use ppops.Quorum.{
  Attempts, TransactionReceipt, ChainContext, quorum_of, agreed_value, consensus_value,
  consensus_height, fulfilled, safe_heights,
}
use ppops.Quorum.Heights.{Agreed, consensus_height-Agreed}
use ppops.Quorum.Values.{AgreedValue, consensus_value-AgreedValue, agreed_value_unique}
use ppops.Scanner.{confirmations, chain_status_for}
use ppops.Scanner.Statuses.{chain_status_for_mono, settlement_id_for-injective}

-- Three requests of one address and one of another, within a minute.
abbrev requests : List (Text × ℕ)
requests =
    (codes "10.0.0.1", 1500)
    ∷ (codes "10.0.0.2", 1600)
    ∷ (codes "10.0.0.1", 2000)
    ∷ (codes "10.0.0.1", 60999)
    ∷ []

granted-window_example :
    granted 2 60000 (codes "10.0.0.1") ((codes "10.0.0.1", 1000) ∷ requests) no_requests
    ≡ min 2 (1 + requests_of 2 60000 (codes "10.0.0.1") requests)
granted-window_example =
    granted-window 2 60000 (codes "10.0.0.1") 1000 requests no_requests tt refl
      (omega arith, (omega arith, (omega arith, (omega arith, tt))))

-- Three providers; one lags and one fails.
abbrev heights : Attempts ℕ
heights = record {
  first = some 100 ∷ none ∷ some 40 ∷ [];
  second = some 102 ∷ some 101 ∷ some 40 ∷ [];
}

consensus_height-Agreed_example :
    Agreed 2 3
      (safe_heights 2 3 heights.first)
      (safe_heights 2 3 heights.second)
      (consensus_height 2 3 heights)
consensus_height-Agreed_example = consensus_height-Agreed 2 3 heights

abbrev identity : Text → Text
identity s = s

abbrev values : Attempts Text
values = record {
  first = some (codes "a") ∷ some (codes "b") ∷ none ∷ [];
  second = some (codes "b") ∷ some (codes "a") ∷ some (codes "b") ∷ [];
}

consensus_value-AgreedValue_example :
    AgreedValue identity 3
      (fulfilled values.first)
      (fulfilled values.second)
      (consensus_value identity (quorum_of 3) values)
consensus_value-AgreedValue_example = consensus_value-AgreedValue identity 3 values

agreed_value_unique_example :
    (v : Text) × (agreed_value identity (quorum_of 3) values.second ≡ some v) × (v ≡ codes "b")
agreed_value_unique_example =
    agreed_value_unique identity 3 values.second (codes "b") refl (omega arith)

abbrev receipt : TransactionReceipt
receipt = record {
  hash = codes "0x1";
  block_number = 10;
  block_hash = codes "0x2";
  index = 0;
  status = some 1;
}

abbrev context : ℕ → ChainContext
context latest = record { latest_block = latest; finalized_block = none }

chain_status_for_mono_example : chain_status_for (confirmations 5) receipt (context 30) ≡ finalized
unfolding chain_status_for
chain_status_for_mono_example =
    chain_status_for_mono (confirmations 5) receipt (context 14) (context 30)
      (record { latest = omega arith; finalized_grows = λ n e. cc e }) refl

settlement_id_for-injective_example :
    (◌≡◌ {A = ℕ} 1 1)
    × (codes "V2" ≡ codes "V2")
    × (codes "0xab" ≡ codes "0xab")
    × (◌≡◌ {A = ℕ} 2 2)
    × (◌≡◌ {A = ℕ} 3 3)
settlement_id_for-injective_example =
    settlement_id_for-injective 1 1 (codes "V2") (codes "V2") (codes "0xab") (codes "0xab") 2 2 3 3
      refl refl refl refl refl

abbrev read_chain_id : Text → Option ℕ
read_chain_id s = some 42161

abbrev chain_ids : Attempts Text
chain_ids = record {
  first = some (codes "0xA4B1") ∷ some (codes "0xa4b1") ∷ none ∷ [];
  second = [];
}

-- Two of the providers fail.
abbrev failed_ids : Attempts Text
failed_ids = record { first = some (codes "0xa4b1") ∷ none ∷ none ∷ []; second = [] }

assert_chain_id-agreed_example :
    ((assert_chain_id read_chain_id 42161 3 2 failed_ids
        (verified_after read_chain_id 42161 3 2 (failed_ids ∷ chain_ids ∷ []) false)).0
      ≡ ok tt)
    ↔ (OnceAgreed read_chain_id 42161 3 2 (failed_ids ∷ chain_ids ∷ [])
        ⊎ AgreesOnChain read_chain_id 42161 3 2 failed_ids)
assert_chain_id-agreed_example =
    assert_chain_id-agreed read_chain_id 42161 3 2 (failed_ids ∷ chain_ids ∷ []) failed_ids

-- The call that fails after the agreement is accepted all the same, the one before it is not.
accepted_after :
    ((assert_chain_id read_chain_id 42161 3 2 failed_ids
        (verified_after read_chain_id 42161 3 2 (failed_ids ∷ chain_ids ∷ []) false)).0
      ≡ ok tt)
    × (verified_after read_chain_id 42161 3 2 (failed_ids ∷ []) false ≡ false)
unfolding assert_chain_id consensus_value sort to_lower_case
accepted_after = (refl, refl)

abbrev receipts : Attempts (Option TransactionReceipt)
receipts = record { first = some (some receipt) ∷ some (some receipt) ∷ none ∷ []; second = [] }

abbrev block : Block
block = record { number = 10; hash = some (codes "0x2"); timestamp = 950 }

abbrev blocks : ℕ → Attempts (Option Block)
blocks n = record { first = some (some block) ∷ some (some block) ∷ none ∷ []; second = [] }

abbrev stored : SettlementRecord
stored = recorded (settlement_of (codes "a") 100 5 900)

abbrev refreshed : NormalizedSettlement
refreshed = record stored.settlement { block_number = 10; block_timestamp = 950 }

refresh_known_chain_state-same_identity_example :
    (refreshed.unique_settlement_id ≡ stored.unique_settlement_id)
    × (same_identity stored refreshed ≡ true)
    × (refreshed.chain_status ≡ finalized
        → HasFinalReceipt 2 (confirmations 5) (ok (context 30)) receipts)
unfolding refresh_known_chain_state get_transaction_receipt consensus_value sort to_lower_case
    to_text get_block chain_status_for
refresh_known_chain_state-same_identity_example =
    refresh_known_chain_state-same_identity 2 (confirmations 5) stored (ok (context 30)) receipts
      blocks refreshed refl

abbrev note : Txo
note = record {
  txid = codes "ab";
  tree = 0;
  position = 7;
  block_number = 10;
  memo_text = some (codes "ppops:v1:" ++ reference);
  is_erc20 = true;
  value = 25;
  transact_creation_railgun_txid = none;
  raw_ppoi_statuses = [];
  balance_bucket = shield_pending;
  token_address = codes "0xAF88";
}

-- The same note without a memo.
abbrev bare_note : Txo
bare_note = record note { memo_text = none }

abbrev bucket_name : Bucket → Text
bucket_name b = codes "ShieldPending"

abbrev scanned_note : NormalizedSettlement
scanned_note = record {
  unique_settlement_id = codes "1:V2:0xab:0:7";
  chain_id = 1;
  txid_version = codes "V2";
  tree = 0;
  position = 7;
  transaction_hash = codes "0xab";
  railgun_txid = none;
  token_address = codes "0xaf88";
  amount_atomic = 25;
  block_number = 10;
  block_timestamp = 950;
  balance_bucket = codes "ShieldPending";
  raw_ppoi_statuses = [];
  chain_status = finalized;
  poi_status = pending;
  reference = some reference;
}

scan-StandForAll_example :
    (false ≡ false)
    × ComesTo bucket_name 2 1
        (confirmations 5)
        false
        ((codes "V2", bare_note) ∷ (codes "V2", note) ∷ [])
        (ok (scanned_note ∷ []))
unfolding scan begin_scan run_scan normalize_all carries_reference parse_ppops_reference is_hex_text
    normalize_txo get_transaction_receipt consensus_value sort to_lower_case to_text get_block
    settlement_id_for normalize_transaction_hash chain_status_for bucket_to_poi_status
scan-StandForAll_example =
    scan-StandForAll bucket_name 2 1 (confirmations 5) false false
      ((codes "V2", bare_note) ∷ (codes "V2", note) ∷ []) (ok (context 30)) (λ txo. receipts) blocks
      (ok (scanned_note ∷ [])) refl
