-- ===== src/Scanner/Refresh.antt =====
-- Refreshing the chain state of a known settlement.
use ppops.Prelude.{
  ℕ, ◌≡◌, refl, sym, ap, ◌∙◌, true, Option, none, some, arith, Bool-cases, inl, inr, Text,
  text_eq_refl, option_text_eq, option_text_eq_iff,
}
use ppops.Prelude.Results.{Result, ok, err, ◌>>=◌, >>=-eq-ok}
use ppops.Domain.{ChainStatus, finalized, reverted, NormalizedSettlement, SettlementRecord}
use ppops.Quorum.{
  Attempts, Block, TransactionReceipt, ChainContext, QuorumError, get_transaction_receipt,
  get_block,
}
use ppops.Reconciliation.{same_identity}
use ppops.Scanner.{
  Finality, chain_status_when_receipt_missing, chain_status_for, succeeded, with_block,
  with_receipt, refresh_known_chain_state,
}

-- A settlement at another place of the chain.
abbrev moved : ℕ → ℕ → ChainStatus → NormalizedSettlement → NormalizedSettlement
moved number timestamp status s = record s {
  block_number = number;
  block_timestamp = timestamp;
  chain_status = status;
}

option_text_eq_refl : (o : Option Text) → option_text_eq o o ≡ true
option_text_eq_refl o = (option_text_eq_iff o o).1 refl

same_identity-moved :
    (stored : SettlementRecord) (number timestamp : ℕ) (status : ChainStatus)
    → same_identity stored (moved number timestamp status stored.settlement) ≡ true
unfolding same_identity
same_identity-moved stored number timestamp status =
    rw
      (
        text_eq_refl stored.txid_version,
        text_eq_refl stored.transaction_hash,
        text_eq_refl stored.token_address,
        option_text_eq_refl stored.reference,
      )
      (ground arith)

module _ (quorum : ℕ) (finality : Finality) where
  -- A settlement that was refreshed as finalized has a receipt that says so.
  abbrev pub HasFinalReceipt :
      Result QuorumError ChainContext → Attempts (Option TransactionReceipt) → Type 0
  HasFinalReceipt chain_context receipts =
      (context : ChainContext) × (receipt : TransactionReceipt) × (chain_context ≡ ok context)
      × (get_transaction_receipt quorum receipts ≡ ok (some receipt))
      × (succeeded receipt ≡ true)
      × (chain_status_for finality receipt context ≡ finalized)

  with_block-moved :
      (s : NormalizedSettlement) (receipt : TransactionReceipt) (context : ChainContext)
      (block : Result QuorumError Block) (s' : NormalizedSettlement)
      → with_block quorum finality s receipt context block ≡ ok s'
      → (timestamp : ℕ) × (s'
          ≡ moved receipt.block_number timestamp (chain_status_for finality receipt context) s)
  with_block-moved s receipt context (err e) s' h = cc
  with_block-moved s receipt context (ok block) s' h = (block.timestamp, ground arith)

  -- What a refresh makes of a settlement.
  abbrev Refreshed :
      NormalizedSettlement
      → ChainContext
      → Option TransactionReceipt
      → NormalizedSettlement
      → Type 0
  Refreshed s context receipt s' =
      (number : ℕ) × (timestamp : ℕ) × (status : ChainStatus) × (s'
        ≡ moved number timestamp status s)
      × (status ≡ finalized
          → (r : TransactionReceipt) × (receipt ≡ some r)
            × (succeeded r ≡ true)
            × (chain_status_for finality r context ≡ finalized))

  with_receipt-Refreshed :
      (s : NormalizedSettlement) (context : ChainContext) (blocks : ℕ → Attempts (Option Block))
      (receipt : Option TransactionReceipt) (s' : NormalizedSettlement)
      → with_receipt quorum finality s context blocks receipt ≡ ok s'
      → Refreshed s context receipt s'
  with_receipt-Refreshed s context blocks none s' h = (
    s.block_number,
    s.block_timestamp,
    chain_status_when_receipt_missing (some s.chain_status),
    ground arith,
    λ f. absurd (ground arith),
  )
  with_receipt-Refreshed s context blocks (some receipt) s' h =
      elim (Bool-cases (succeeded receipt)) [
        | inl e ↦
            let (timestamp, same) =
              with_block-moved s receipt context (get_block quorum (blocks receipt.block_number)) s'
                (rw (e) at h) in
            (
              receipt.block_number,
              timestamp,
              chain_status_for finality receipt context,
              same,
              λ f. (receipt, refl, e, f),
            )
        | inr e ↦
            (s.block_number, s.block_timestamp, reverted, ground arith, λ f. absurd (ground arith))
      ]

  -- A settlement that is refreshed keeps everything that identifies it, so that reconciling it is no
  -- collision, and it is finalized only if the providers agreed on a context and on a receipt of
  -- its transaction that succeeded and is final in that context.
  pub refresh_known_chain_state-same_identity :
      (stored : SettlementRecord) (chain_context : Result QuorumError ChainContext)
      (receipts : Attempts (Option TransactionReceipt)) (blocks : ℕ → Attempts (Option Block))
      (s : NormalizedSettlement)
      → refresh_known_chain_state quorum finality stored.settlement chain_context receipts blocks
        ≡ ok s
      → (s.unique_settlement_id ≡ stored.unique_settlement_id)
        × (same_identity stored s ≡ true)
        × (s.chain_status ≡ finalized → HasFinalReceipt chain_context receipts)
  unfolding refresh_known_chain_state
  refresh_known_chain_state-same_identity stored chain_context receipts blocks s h =
      let (context, agreed, h1) =
        >>=-eq-ok chain_context
          (λ (context : ChainContext).
            get_transaction_receipt quorum receipts
            >>= with_receipt quorum finality stored.settlement context blocks)
          h in
      let (receipt, received, h2) =
        >>=-eq-ok (get_transaction_receipt quorum receipts)
          (λ (r : Option TransactionReceipt).
            with_receipt quorum finality stored.settlement context blocks r)
          h1 in
      let (number, timestamp, status, same, final) =
        with_receipt-Refreshed stored.settlement context blocks receipt s h2 in
      (
        ap (λ (x : NormalizedSettlement). x.unique_settlement_id) same,
        ap (same_identity stored) same ∙ same_identity-moved stored number timestamp status,
        λ f.
            let (r, e, ok_, its) =
              final (sym (ap (λ (x : NormalizedSettlement). x.chain_status) same) ∙ f) in
            (context, r, agreed, received ∙ ap ok e, ok_, its),
      )
