-- ===== src/Quorum/Chain.antt =====
-- The chain that the providers serve.
use ppops.Prelude.{
  ℕ, ◌≡◌, refl, ◌↔◌, Bool, true, false, Option, none, some, arith, Text, List, [], ◌∷◌,
  to_lower_case, ◌⊎◌, inl, inr,
}
use ppops.Prelude.Results.{Result, ok, err, >>=-eq-ok}
use ppops.Quorum.{
  Attempts, QuorumError, consensus_value, check_chain_id, agreed_chain_id, verified_by,
  assert_chain_id,
}

module _ (parse_big_int : Text → Option ℕ) (chain_id max_block_lag quorum : ℕ) where
  -- The providers agree on a text that denotes the configured chain.
  abbrev pub AgreesOnChain : Attempts Text → Type 0
  AgreesOnChain chain_ids =
      (id : Text) × (consensus_value to_lower_case quorum chain_ids ≡ ok id)
      × (parse_big_int id ≡ some chain_id)

  -- They do so in one of the calls.
  abbrev pub OnceAgreed : List (Attempts Text) → Type 0
  OnceAgreed [] = ⊥
  OnceAgreed (chain_ids ∷ rest) = AgreesOnChain chain_ids ⊎ OnceAgreed rest

  -- The flag after a sequence of calls, the first one first.
  abbrev pub verified_after : List (Attempts Text) → Bool → Bool
  verified_after [] verified = verified
  verified_after (chain_ids ∷ rest) verified =
      verified_after rest
        (assert_chain_id parse_big_int chain_id max_block_lag quorum chain_ids verified).1

  check_chain_id-eq-ok :
      (n : Option ℕ)
      → check_chain_id parse_big_int chain_id max_block_lag quorum n ≡ ok tt
      → n ≡ some chain_id
  check_chain_id-eq-ok none h = cc
  check_chain_id-eq-ok (some n) h = ground arith

  check_chain_id_self :
      check_chain_id parse_big_int chain_id max_block_lag quorum (some chain_id) ≡ ok tt
  check_chain_id_self = ground arith

  agreed_chain_id_iff :
      (chain_ids : Attempts Text)
      → (agreed_chain_id parse_big_int chain_id max_block_lag quorum chain_ids ≡ ok tt)
        ↔ AgreesOnChain chain_ids
  agreed_chain_id_iff chain_ids = (
    λ h.
        let (id, consensus, checked) =
          >>=-eq-ok (consensus_value to_lower_case quorum chain_ids)
            (λ (id : Text).
              check_chain_id parse_big_int chain_id max_block_lag quorum (parse_big_int id))
            h in
        (id, consensus, check_chain_id-eq-ok (parse_big_int id) checked),
    λ (id, consensus, denotes). rw (consensus, denotes) check_chain_id_self,
  )

  verified_by-eq-ok :
      (r : Result QuorumError (Unit {0}))
      → let (answer, after) = verified_by parse_big_int chain_id max_block_lag quorum r in
        ((answer ≡ ok tt) ↔ (r ≡ ok tt)) × ((after ≡ true) ↔ (r ≡ ok tt))
  verified_by-eq-ok (ok x) = ((λ h. refl, λ h. refl), (λ h. refl, λ h. refl))
  verified_by-eq-ok (err e) = ((λ h. cc, λ h. cc), (λ h. cc, λ h. cc))

  one_call :
      (chain_ids : Attempts Text) (verified : Bool)
      → let (answer, after) =
          assert_chain_id parse_big_int chain_id max_block_lag quorum chain_ids verified in
        ((answer ≡ ok tt) ↔ ((verified ≡ true) ⊎ AgreesOnChain chain_ids))
        × ((after ≡ true) ↔ ((verified ≡ true) ⊎ AgreesOnChain chain_ids))
  unfolding assert_chain_id
  one_call chain_ids true = ((λ h. inl refl, λ h. refl), (λ h. inl refl, λ h. refl))
  one_call chain_ids false =
      let r = agreed_chain_id parse_big_int chain_id max_block_lag quorum chain_ids in
      let ((a0, a1), (b0, b1)) = verified_by-eq-ok r in
      let (agrees, agreed) = agreed_chain_id_iff chain_ids in
      let here : (false ≡ true) ⊎ AgreesOnChain chain_ids → r ≡ ok tt =
        λ e. elim e [ inl e ↦ cc e | inr p ↦ agreed p ] in
      ((λ h. inr (agrees (a0 h)), λ e. a1 (here e)), (λ h. inr (agrees (b0 h)), λ e. b1 (here e)))

  verified_after_iff :
      (calls : List (Attempts Text)) (verified : Bool)
      → (verified_after calls verified ≡ true) ↔ ((verified ≡ true) ⊎ OnceAgreed calls)
  verified_after_iff [] verified = (λ h. inl h, λ e. elim e [ inl h ↦ h | inr h ↦ absurd h ])
  verified_after_iff (chain_ids ∷ rest) verified =
      let (first, last) =
        verified_after_iff rest
          (assert_chain_id parse_big_int chain_id max_block_lag quorum chain_ids verified).1 in
      let (c0, c1) = (one_call chain_ids verified).1 in
      (
        λ h. elim (first h) [
          | inl e ↦ elim (c0 e) [ inl v ↦ inl v | inr p ↦ inr (inl p) ]
          | inr later ↦ inr (inr later)
        ],
        λ e. elim e [
          | inl v ↦ last (inl (c1 (inl v)))
          | inr once ↦ elim once [ inl p ↦ last (inl (c1 (inr p))) | inr later ↦ last (inr later) ]
        ],
      )

  -- From a start with nothing verified and after any calls, failed ones included, the chain id is
  -- accepted exactly if the providers agreed, in this call or in an earlier one, on a text that
  -- denotes the configured chain.
  pub assert_chain_id-agreed :
      (earlier : List (Attempts Text)) (chain_ids : Attempts Text)
      → ((assert_chain_id parse_big_int chain_id max_block_lag quorum chain_ids
            (verified_after earlier false)).0
          ≡ ok tt)
        ↔ (OnceAgreed earlier ⊎ AgreesOnChain chain_ids)
  assert_chain_id-agreed earlier chain_ids =
      let (a0, a1) = (one_call chain_ids (verified_after earlier false)).0 in
      let (v0, v1) = verified_after_iff earlier false in
      (
        λ h. elim (a0 h) [
          | inl v ↦ elim (v0 v) [ inl e ↦ cc e | inr once ↦ inl once ]
          | inr p ↦ inr p
        ],
        λ e. elim e [ inl once ↦ a1 (inl (v1 (inr once))) | inr p ↦ a1 (inr p) ],
      )
