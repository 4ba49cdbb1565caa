-- ===== src/Scanner/Statuses.antt =====
-- What the chain status of a settlement says.
use ppops.Prelude.{
  ℕ, ◌≤◌, ◌≡◌, refl, Bool, true, [], ◌∷◌, ◌++◌, some, arith, ◌==◌, Option-cases, inl, inr, all,
  Text, not,
}
use ppops.Domain.{finalized}
use ppops.Domain.Amount.{to_text, digits-to_text, to_text-injective, is_digit}
use ppops.Quorum.{TransactionReceipt, ChainContext}
use ppops.Scanner.{Finality, finalized_tag, confirmations, chain_status_for, settlement_id_for}

-- One context is as far as another.
pub record IsLater (earlier later : ChainContext) : Type 0 where
  pub latest : earlier.latest_block ≤ later.latest_block
  pub finalized_grows :
      (n : ℕ)
      → earlier.finalized_block ≡ some n
      → (m : ℕ) × (later.finalized_block ≡ some m) × (n ≤ m)

-- A transaction that is final stays so: with the same receipt, in a context whose latest block and
-- finalized block are no lower, its status is still finalized.
pub chain_status_for_mono :
    (finality : Finality) (receipt : TransactionReceipt) (earlier later : ChainContext)
    → IsLater earlier later
    → chain_status_for finality receipt earlier ≡ finalized
    → chain_status_for finality receipt later ≡ finalized
unfolding chain_status_for
chain_status_for_mono finalized_tag receipt earlier later l h =
    elim (Option-cases earlier.finalized_block) [
      | inl e ↦ absurd (ground arith)
      | inr (n, e) ↦ let (m, f, less) = l.finalized_grows n e in ground arith
    ]
chain_status_for_mono (confirmations n) receipt earlier later l h =
    let grows = l.latest in ground arith

abbrev pub no_colon : Text → Bool
no_colon s = all (λ c. not (c == b':')) s

split-colon :
    (a b s t : Text)
    → no_colon a ≡ true
    → no_colon b ≡ true
    → (a ++ b':' ∷ s) ≡ (b ++ b':' ∷ t)
    → (a ≡ b) × (s ≡ t)
split-colon [] [] s t h k e = ground arith
split-colon [] (d ∷ b) s t h k e = absurd (ground arith)
split-colon (c ∷ a) [] s t h k e = absurd (ground arith)
split-colon (c ∷ a) (d ∷ b) s t h k e = ground (arith, split-colon a b s t)

digits-no_colon : (s : Text) → all is_digit s ≡ true → no_colon s ≡ true
digits-no_colon [] h = refl
digits-no_colon (c ∷ s) h = ground (arith, digits-no_colon s)

to_text-no_colon : (n : ℕ) → no_colon (to_text n) ≡ true
to_text-no_colon n = digits-no_colon (to_text n) (digits-to_text n)

-- Settlement ids tell notes apart: two notes with one id have the same chain, version, transaction,
-- tree and position, if no version or transaction hash has a colon in it.
pub settlement_id_for-injective :
    (c c' : ℕ) (version version' hash hash' : Text) (tree tree' position position' : ℕ)
    → no_colon version ≡ true
    → no_colon version' ≡ true
    → no_colon hash ≡ true
    → no_colon hash' ≡ true
    → settlement_id_for c version hash tree position
      ≡ settlement_id_for c' version' hash' tree' position'
    → (c ≡ c') × (version ≡ version') × (hash ≡ hash') × (tree ≡ tree') × (position ≡ position')
unfolding settlement_id_for
settlement_id_for-injective c c' version version' hash hash' tree tree' position position' v v' h h'
      e =
    let (chains, e1) =
      split-colon (to_text c) (to_text c') _ _ (to_text-no_colon c) (to_text-no_colon c') e in
    let (versions, e2) = split-colon version version' _ _ v v' e1 in
    let (hashes, e3) = split-colon hash hash' _ _ h h' e2 in
    let (trees, positions) =
      split-colon (to_text tree) (to_text tree') _ _ (to_text-no_colon tree)
        (to_text-no_colon tree') e3 in
    (
      to_text-injective c c' chains,
      versions,
      hashes,
      to_text-injective tree tree' trees,
      to_text-injective position position' positions,
    )
