-- ===== src/Payer/Journal/Nullifiers.antt =====
-- Records that share a nullifier, in lower case.
use ppops.Prelude.{
  ◌≡◌, refl, Bool, true, false, ◌||◌, List, [], ◌∷◌, Option, none, some, arith, any, map, Text,
  text_eq, text_eq_iff, All, to_lower_case,
}
use ppops.Prelude.Sorting.{All-sort}
use ppops.Prelude.Tables.{find_by, find_by-key}
use ppops.Domain.Memo.{to_lower_case_idem}
use ppops.Payer.Journal.{SubmissionRecord}
use ppops.Payer.Journal.Calls.{
  has_active_broadcaster_nullifier_conflict, includes, is_active, normalized_nullifiers, record_key,
  shares_one, text_ltb,
}

-- One text of the first list is, in lower case, one of the second.
abbrev pub meets : Option (List Text) → Option (List Text) → Bool
meets none other = false
meets (some nullifiers) other = shares_one (map to_lower_case nullifiers) other

text_eq_sym : (a b : Text) → text_eq a b ≡ text_eq b a
text_eq_sym a b = ground (arith, text_eq_iff a b, text_eq_iff b a)

nil-meets : (m : List Text) → meets (some []) (some m) ≡ false
nil-meets [] = refl
nil-meets (v ∷ m) = nil-meets m

meets-cons :
    (w : Text) (l m : List Text)
    → meets (some (w ∷ l)) (some m)
      ≡ (includes (map to_lower_case m) (to_lower_case w) || meets (some l) (some m))
meets-cons w l [] = refl
meets-cons w l (v ∷ m) =
    ground (arith, meets-cons w l m, text_eq_sym (to_lower_case w) (to_lower_case v))

pub meets_sym : (l m : Option (List Text)) → meets l m ≡ meets m l
meets_sym none none = refl
meets_sym none (some m) = refl
meets_sym (some l) none = refl
meets_sym (some []) (some m) = nil-meets m
meets_sym (some (w ∷ l)) (some m) = cc (meets-cons w l m, meets_sym (some l) (some m))

lower-map : (l : List Text) → All (λ v. to_lower_case v ≡ v) l → map to_lower_case l ≡ l
lower-map [] h = refl
lower-map (v ∷ l) h = cc (h.0, lower-map l h.1)

lower-All : (l : List Text) → All (λ v. to_lower_case v ≡ v) (map to_lower_case l)
lower-All [] = tt
lower-All (v ∷ l) = (to_lower_case_idem v, lower-All l)

lower-normalized :
    (l : List Text) → map to_lower_case (normalized_nullifiers l) ≡ normalized_nullifiers l
unfolding normalized_nullifiers
lower-normalized l =
    lower-map (normalized_nullifiers l)
      (All-sort text_ltb (λ v. to_lower_case v ≡ v) (map to_lower_case l) (lower-All l))

found-any :
    (test : SubmissionRecord → Bool) (k : Text) (records : List SubmissionRecord)
    (r : SubmissionRecord)
    → any test records ≡ false
    → find_by record_key k records ≡ some r
    → test r ≡ false
found-any test k [] r none_of h = cc
found-any test k (x ∷ records) r none_of h = ground (arith, found-any test k records r)

-- Without a conflict, the nullifiers to reserve are apart from those of the other active records.
pub available-apart :
    (records : List SubmissionRecord) (id : Text) (nullifiers : List Text) (k : Text)
    (r : SubmissionRecord)
    → has_active_broadcaster_nullifier_conflict records id nullifiers ≡ false
    → text_eq id k ≡ false
    → find_by record_key k records ≡ some r
    → is_active r ≡ true
    → meets (some (normalized_nullifiers nullifiers)) r.nullifiers ≡ false
unfolding has_active_broadcaster_nullifier_conflict
available-apart records id nullifiers k r available apart found active =
    let key = find_by-key record_key k records r found in
    let other : text_eq r.intent_id id ≡ false =
      ground (arith, text_eq_iff r.intent_id id, text_eq_iff id k, key) in
    let unshared = found-any _ k records r available found in
    rw (lower-normalized nullifiers) (ground arith)
