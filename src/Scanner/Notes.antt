-- ===== src/Scanner/Notes.antt =====
-- The settlements that a scan makes of the wallet's notes.
use ppops.Prelude.{
  ◌↔◌, Bool-cases, ◌≢◌, ap, sym, ◌∙◌, ℕ, ◌<◌, ◌≡◌, refl, Bool, true, false, List, [], ◌∷◌, Option,
  none, some, arith, is_some, filter, Text, subst, Option-cases, inl, inr,
}
use ppops.Prelude.Results.{Result, ok, err, ◌>>=◌, >>=-eq-ok}
use ppops.Domain.{NormalizedSettlement}
use ppops.Domain.Memo.{parse_ppops_reference}
use ppops.Quorum.{Attempts, Block, TransactionReceipt, ChainContext, QuorumError}
use ppops.Scanner.{
  Bucket, Finality, Txo, or_rpc, or_no_reference, normalize_transaction_hash, settlement_id_for,
  carries_reference, normalize_txo, normalize_all, scan, ScanError, already_scanning, begin_scan,
  run_scan,
}

module _ (bucket_name : Bucket → Text) (quorum chain_id : ℕ) (finality : Finality) where
  -- The settlement stands for the note: its amount, place, transaction and reference, under its id.
  abbrev pub StandsFor : Text × Txo → NormalizedSettlement → Type 0
  StandsFor (txid_version, txo) s =
      (parse_ppops_reference txo.memo_text ≡ s.reference)
      × (is_some s.reference ≡ true)
      × (s.amount_atomic ≡ txo.value)
      × (s.unique_settlement_id
          ≡ settlement_id_for chain_id txid_version (normalize_transaction_hash txo.txid) txo.tree
              txo.position)

  or_no_reference-eq-ok :
      (o : Option Text) (reference : Text) → or_no_reference o ≡ ok reference → o ≡ some reference
  or_no_reference-eq-ok none reference h = cc
  or_no_reference-eq-ok (some r) reference h = ground arith

  normalize_txo-StandsFor :
      (txid_version : Text) (txo : Txo) (context : ChainContext)
      (receipts : Attempts (Option TransactionReceipt)) (blocks : ℕ → Attempts (Option Block))
      (s : NormalizedSettlement)
      → normalize_txo bucket_name quorum chain_id finality txid_version txo context receipts blocks
        ≡ ok s
      → StandsFor (txid_version, txo) s
  unfolding normalize_txo
  normalize_txo-StandsFor txid_version txo context receipts blocks s h =
      elim (Option-cases (parse_ppops_reference txo.memo_text)) [
        | inl e ↦ absurd (ground arith)
        | inr (reference, e) ↦ ground (arith, e)
      ]

  -- The note pays something with a reference: it is of an ERC-20 token, of a positive value, and
  -- its memo holds a reference.
  abbrev pub PaysReference : Text × Txo → Type 0
  PaysReference (txid_version, txo) =
      (txo.is_erc20 ≡ true)
      × (0 < txo.value)
      × (is_some (parse_ppops_reference txo.memo_text) ≡ true)

  -- The settlements stand, in order, for the notes that pay with a reference, and for no other.
  pub data StandForAll : List (Text × Txo) → List NormalizedSettlement → Type 0 where
    nothing : StandForAll [] []
    paid_note :
        {note : Text × Txo} {s : NormalizedSettlement} {notes : List (Text × Txo)}
        {settlements : List NormalizedSettlement}
        → PaysReference note
        → StandsFor note s
        → StandForAll notes settlements
        → StandForAll (note ∷ notes) (s ∷ settlements)
    other_note :
        {note : Text × Txo} {notes : List (Text × Txo)} {settlements : List NormalizedSettlement}
        → ¬ PaysReference note
        → StandForAll notes settlements
        → StandForAll (note ∷ notes) settlements

  carries_reference_iff :
      (note : Text × Txo)
      → (carries_reference bucket_name quorum chain_id finality note ≡ true) ↔ PaysReference note
  unfolding carries_reference
  carries_reference_iff (txid_version, txo) = (λ h. ground arith, λ (e, v, r). ground arith)

  normalize_all-StandForAll :
      (context : ChainContext) (receipts : Txo → Attempts (Option TransactionReceipt))
      (blocks : ℕ → Attempts (Option Block)) (notes : List (Text × Txo))
      (settlements : List NormalizedSettlement)
      → normalize_all bucket_name quorum chain_id finality context receipts blocks
          (filter (carries_reference bucket_name quorum chain_id finality) notes)
        ≡ ok settlements
      → StandForAll notes settlements
  unfolding normalize_all
  normalize_all-StandForAll context receipts blocks [] [] h = nothing
  normalize_all-StandForAll context receipts blocks [] (s ∷ ss) h = cc
  normalize_all-StandForAll context receipts blocks ((version, txo) ∷ notes) ss h =
      let carries = carries_reference bucket_name quorum chain_id finality in
      let rest_of = normalize_all bucket_name quorum chain_id finality context receipts blocks in
      let (pays, does) = carries_reference_iff (version, txo) in
      elim (Bool-cases (carries (version, txo))) [
        | inl e ↦
            let (s, first, h1) =
              >>=-eq-ok
                (normalize_txo bucket_name quorum chain_id finality version txo context
                  (receipts txo) blocks)
                (λ (s : NormalizedSettlement).
                  rest_of (filter carries notes)
                  >>= (λ (ss : List NormalizedSettlement). ok (s ∷ ss)))
                (rw e at h) in
            let (rest, later, h2) =
              >>=-eq-ok (rest_of (filter carries notes))
                (λ (ss : List NormalizedSettlement). ok (s ∷ ss)) h1 in
            let same : (s ∷ rest) ≡ ss = ground arith in
            let stands =
              normalize_txo-StandsFor version txo context (receipts txo) blocks s first in
            subst (StandForAll ((version, txo) ∷ notes)) same (
              paid_note (pays e) stands
                (normalize_all-StandForAll context receipts blocks notes rest later))
        | inr e ↦
            other_note (λ p. let yes = does p in cc)
              (normalize_all-StandForAll context receipts blocks notes ss (rw e at h))
      ]

  -- What a scan comes to, from whether the flag was set.
  abbrev pub ComesTo :
      Bool → List (Text × Txo) → Result ScanError (List NormalizedSettlement) → Type 0
  ComesTo scanning notes (ok settlements) = (scanning ≡ false) × StandForAll notes settlements
  ComesTo scanning notes (err e) = (e ≡ already_scanning) ↔ (scanning ≡ true)

  or_rpc-apart {ℓ} : {A : Type ℓ} (r : Result QuorumError A) → or_rpc r ≢ err already_scanning
  or_rpc-apart (ok a) h = cc
  or_rpc-apart (err e) h = cc

  or_no_reference-apart : (o : Option Text) → or_no_reference o ≢ err already_scanning
  or_no_reference-apart none h = cc
  or_no_reference-apart (some r) h = cc

  normalize_txo-apart :
      (txid_version : Text) (txo : Txo) (context : ChainContext)
      (receipts : Attempts (Option TransactionReceipt)) (blocks : ℕ → Attempts (Option Block))
      → normalize_txo bucket_name quorum chain_id finality txid_version txo context receipts blocks
        ≢ err already_scanning
  unfolding normalize_txo
  normalize_txo-apart txid_version txo context receipts blocks h =
      ground (arith, or_no_reference-apart (parse_ppops_reference txo.memo_text))

  normalize_all-apart :
      (context : ChainContext) (receipts : Txo → Attempts (Option TransactionReceipt))
      (blocks : ℕ → Attempts (Option Block)) (notes : List (Text × Txo))
      → normalize_all bucket_name quorum chain_id finality context receipts blocks notes
        ≢ err already_scanning
  unfolding normalize_all
  normalize_all-apart context receipts blocks [] h = cc
  normalize_all-apart context receipts blocks ((version, txo) ∷ notes) h = ground (
    arith,
    normalize_txo-apart version txo context (receipts txo) blocks,
    normalize_all-apart context receipts blocks notes,
  )

  run_scan-ComesTo :
      (notes : List (Text × Txo)) (chain_context : Result QuorumError ChainContext)
      (receipts : Txo → Attempts (Option TransactionReceipt)) (blocks : ℕ → Attempts (Option Block))
      (result : Result ScanError (List NormalizedSettlement))
      → (or_rpc chain_context >>= (λ (context : ChainContext).
          normalize_all bucket_name quorum chain_id finality context receipts blocks
            (filter (carries_reference bucket_name quorum chain_id finality) notes)))
        ≡ result
      → ComesTo false notes result
  run_scan-ComesTo notes (err e) receipts blocks (ok ss) h = cc
  run_scan-ComesTo notes (err e) receipts blocks (err e') h =
      (λ same. absurd (ground arith), λ f. cc)
  run_scan-ComesTo notes (ok context) receipts blocks (ok ss) h =
      (refl, normalize_all-StandForAll context receipts blocks notes ss h)
  run_scan-ComesTo notes (ok context) receipts blocks (err e) h =
      (λ same. absurd (normalize_all-apart context receipts blocks _ (h ∙ ap err same)), λ f. cc)

  -- A scan leaves the flag as it found it: set where it was refused, cleared otherwise, also when
  -- it fails. It is refused for a scan in progress exactly if the flag was set. If it succeeds, it
  -- yields one settlement for each ERC-20 note of a positive value whose memo holds a reference, in
  -- the order of the notes, with the note's amount, reference and id, and none for any other note.
  pub scan-StandForAll :
      (scanning after : Bool) (notes : List (Text × Txo))
      (chain_context : Result QuorumError ChainContext)
      (receipts : Txo → Attempts (Option TransactionReceipt)) (blocks : ℕ → Attempts (Option Block))
      (result : Result ScanError (List NormalizedSettlement))
      → scan bucket_name quorum chain_id finality scanning notes chain_context receipts blocks
        ≡ (result, after)
      → (after ≡ scanning) × ComesTo scanning notes result
  unfolding scan begin_scan run_scan
  scan-StandForAll true after notes chain_context receipts blocks (ok ss) h = cc (ap (λ r. r.0) h)
  scan-StandForAll true after notes chain_context receipts blocks (err e) h =
      (ap (λ r. r.1) (sym h), (λ x. refl, λ x. ground arith))
  scan-StandForAll false after notes chain_context receipts blocks result h = (
    ap (λ r. r.1) (sym h),
    run_scan-ComesTo notes chain_context receipts blocks result (ap (λ r. r.0) h),
  )
