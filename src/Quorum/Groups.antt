-- ===== src/Quorum/Groups.antt =====
-- The groups that consensusValue sorts the answers into, by key.
use mathlib.Core.List.{append-nil, append_assoc}
use ppops.Prelude.{
  ℕ, ◌≡◌, refl, sym, ap, ◌∙◌, subst, false, List, [], ◌∷◌, ◌++◌, Option, none, some, arith,
  if◌then◌else◌, Bool-cases, inl, inr, filter, Text, text_eq, text_eq_iff,
}
use ppops.Prelude.Tables.{
  find_by, find_by-append_other, find_by-append_self, find_by-update_self, find_by-update_other,
  Distinct, Distinct-append, Distinct-update_by,
}
use ppops.Quorum.{Group, group_key, add_to, group_all}

module _ {ℓ} {A : Type ℓ} (key_for : A → Text) where
  -- The answers with a key, in their order.
  abbrev pub with_key : Text → List A → List A
  with_key k values = filter (λ v. text_eq (key_for v) k) values

  abbrev pub members : Option (Group A) → List A
  members none = []
  members (some g) = g.values

  -- The groups hold the values seen, each under its key.
  pub record IsGrouping (seen : List A) (groups : List (Group A)) : Type ℓ where
    pub keys : Distinct group_key groups
    pub hold : (k : Text) → members (find_by group_key k groups) ≡ with_key k seen

  with_key-append :
      (k : Text) (seen : List A) (v : A)
      → with_key k (seen ++ v ∷ [])
        ≡ (if text_eq (key_for v) k then with_key k seen ++ v ∷ [] else with_key k seen)
  with_key-append k [] v = ground arith
  with_key-append k (x ∷ seen) v = ground (arith, with_key-append k seen v)

  add_to_self :
      (o : Option (Group A)) (v : A) (groups : List (Group A))
      → find_by group_key (key_for v) groups ≡ o
      → members (find_by group_key (key_for v) (add_to o (key_for v) v groups))
        ≡ members o ++ v ∷ []
  add_to_self none v groups h =
      ap members
        (find_by-append_self group_key groups (record { key = key_for v; values = v ∷ [] }) h)
  add_to_self (some g) v groups h = ap members (
      find_by-update_self group_key (key_for v) (λ g. record g { values = g.values ++ v ∷ [] })
        groups g (λ a. refl) h)

  add_to-other :
      (o : Option (Group A)) (v : A) (groups : List (Group A)) (k : Text)
      → text_eq (key_for v) k ≡ false
      → find_by group_key k (add_to o (key_for v) v groups) ≡ find_by group_key k groups
  add_to-other none v groups k apart =
      find_by-append_other group_key k groups (record { key = key_for v; values = v ∷ [] }) apart
  add_to-other (some g) v groups k apart =
      find_by-update_other group_key (key_for v) k (λ g. record g { values = g.values ++ v ∷ [] })
        groups (λ a. refl) apart

  add_to-Distinct :
      (o : Option (Group A)) (v : A) (groups : List (Group A))
      → find_by group_key (key_for v) groups ≡ o
      → Distinct group_key groups
      → Distinct group_key (add_to o (key_for v) v groups)
  add_to-Distinct none v groups h d = Distinct-append group_key groups _ d h
  add_to-Distinct (some g) v groups h d =
      Distinct-update_by group_key (key_for v) (λ g. record g { values = g.values ++ v ∷ [] })
        groups (λ a. refl) d

  add_to-IsGrouping :
      (v : A) (seen : List A) (groups : List (Group A))
      → IsGrouping seen groups
      → IsGrouping
          (seen ++ v ∷ [])
          (add_to (find_by group_key (key_for v) groups) (key_for v) v groups)
  add_to-IsGrouping v seen groups i = record {
    keys = add_to-Distinct (find_by group_key (key_for v) groups) v groups refl i.keys;
    hold = λ k. elim (Bool-cases (text_eq (key_for v) k)) [
      | inl e ↦
          let same = (text_eq_iff (key_for v) k).0 e in
          let added = add_to (find_by group_key (key_for v) groups) (key_for v) v groups in
          let self : members (find_by group_key (key_for v) added)
              ≡ with_key (key_for v) seen ++ v ∷ [] =
            add_to_self (find_by group_key (key_for v) groups) v groups refl
            ∙ ap (λ s. s ++ v ∷ []) (i.hold (key_for v)) in
          subst (λ k. members (find_by group_key k added) ≡ with_key k seen ++ v ∷ []) same self
          ∙ sym (with_key-append k seen v ∙ rw e)
      | inr e ↦
          ap members (add_to-other (find_by group_key (key_for v) groups) v groups k e)
          ∙ i.hold k
          ∙ sym (with_key-append k seen v ∙ rw e)
    ];
  }

  pub group_all-IsGrouping :
      (quorum : ℕ) (values seen : List A) (groups : List (Group A))
      → IsGrouping seen groups
      → IsGrouping (seen ++ values) (group_all key_for quorum values groups)
  unfolding group_all
  group_all-IsGrouping quorum [] seen groups i = rw append-nil i
  group_all-IsGrouping quorum (v ∷ values) seen groups i =
      rw (← append_assoc seen (v ∷ []) values)
        (group_all-IsGrouping quorum values (seen ++ v ∷ []) _ (add_to-IsGrouping v seen groups i))
