-- ===== src/Domain/Memo.antt =====
-- `parsePPOpsReference` and `memoForReference` of src/domain.ts.
use ppops.Prelude.{
  ℕ, suc, ◌≡◌, refl, sym, ap, Bool, true, false, ◌&&◌, ◌||◌, [], ◌∷◌, ◌++◌, Option, none, some, map,
  arith, leb, ◌==◌, if◌then◌else◌, Bool-cases, inl, inr, all, length, Text, codes, lower,
  to_lower_case, truthy,
}
use ppops.Prelude.Results.{Result, ok, err}

abbrev pub is_hex : ℕ → Bool
is_hex c = leb b'0' c && leb c b'9' || leb b'a' c && leb c b'f' || leb b'A' c && leb c b'F'

-- /^0x[0-9a-f]{n}$/i
unfoldable pub is_hex_text : ℕ → Text → Bool
unfolding lower
is_hex_text n [] = false
is_hex_text n (z ∷ []) = false
is_hex_text n (z ∷ x ∷ s) = z == b'0' && lower x == b'x' && length s == n && all is_hex s

abbrev pub is_reference : Text → Bool
is_reference s = is_hex_text 64 s

abbrev pub memo_prefix : Text
memo_prefix = codes "ppops:v1:"

-- What follows `prefix` in a text, compared without case.
unfoldable pub strip_prefix : Text → Text → Option Text
unfolding lower
strip_prefix [] s = some s
strip_prefix (p ∷ ps) [] = none
strip_prefix (p ∷ ps) (c ∷ s) = if p == lower c then strip_prefix ps s else none

abbrev reference_group : Option Text → Option Text
reference_group none = none
reference_group (some s) = if is_reference s then some (to_lower_case s) else none

abbrev parse_memo : Option Text → Option Text
parse_memo none = none
parse_memo (some memo) = reference_group (strip_prefix memo_prefix memo)

unfoldable pub parse_ppops_reference : Option Text → Option Text
unfolding strip_prefix
parse_ppops_reference memo_text = parse_memo (truthy memo_text)

unfoldable pub memo_for_reference : Text → Result (Unit {0}) Text
memo_for_reference reference =
    if is_reference reference then ok (memo_prefix ++ to_lower_case reference) else err tt

lower_idem : (c : ℕ) → lower (lower c) ≡ lower c
unfolding lower
lower_idem c = ground arith

pub to_lower_case_idem : (s : Text) → to_lower_case (to_lower_case s) ≡ to_lower_case s
unfolding to_lower_case
to_lower_case_idem [] = refl
to_lower_case_idem (c ∷ s) = cc (lower_idem c, to_lower_case_idem s)

is_hex-lower : (c : ℕ) → is_hex (lower c) ≡ is_hex c
unfolding lower
is_hex-lower c = ground arith

all-is_hex-lower : (s : Text) → all is_hex (map lower s) ≡ all is_hex s
all-is_hex-lower [] = refl
all-is_hex-lower (c ∷ s) = rw (is_hex-lower c, all-is_hex-lower s)

length-map-lower : (s : Text) → length (map lower s) ≡ length s
length-map-lower [] = refl
length-map-lower (c ∷ s) = ap suc (length-map-lower s)

lower-eq-zero : (c : ℕ) → (lower c == b'0') ≡ (c == b'0')
unfolding lower
lower-eq-zero c = ground arith

pub is_reference-to_lower_case : (s : Text) → is_reference (to_lower_case s) ≡ is_reference s
unfolding is_hex_text to_lower_case
is_reference-to_lower_case [] = refl
is_reference-to_lower_case (z ∷ []) = refl
is_reference-to_lower_case (z ∷ x ∷ s) =
    rw (lower-eq-zero z, lower_idem x, length-map-lower s, all-is_hex-lower s)

-- The memo of a reference is read back as that reference in lower case.
pub parse-memo_for_reference :
    (reference memo : Text)
    → memo_for_reference reference ≡ ok memo
    → parse_ppops_reference (some memo) ≡ some (to_lower_case reference)
unfolding memo_for_reference parse_ppops_reference
parse-memo_for_reference reference memo h = elim (Bool-cases (is_reference reference)) [
  | inl e ↦
      let m : memo_prefix ++ to_lower_case reference ≡ memo = ground arith in
      rw (← m) (rw (is_reference-to_lower_case reference, e, to_lower_case_idem reference))
  | inr e ↦ ground arith
]

strip_prefix-lower :
    (ps s r : Text) → strip_prefix ps s ≡ some r → to_lower_case s ≡ ps ++ to_lower_case r
unfolding strip_prefix to_lower_case
strip_prefix-lower [] s r h = ground arith
strip_prefix-lower (p ∷ ps) [] r h = cc
strip_prefix-lower (p ∷ ps) (c ∷ s) r h = ground (arith, strip_prefix-lower ps s r)

reference_group_inv :
    (found : Option Text) (reference : Text)
    → reference_group found ≡ some reference
    → (r : Text) × (found ≡ some r) × (is_reference r ≡ true) × (reference ≡ to_lower_case r)
reference_group_inv none reference h = cc
reference_group_inv (some r) reference h = (r, refl, ground arith, ground arith)

-- A memo that is read is, without case, the memo of the reference that it yields.
pub memo_for_reference-parse :
    (memo reference : Text)
    → parse_ppops_reference (some memo) ≡ some reference
    → memo_for_reference reference ≡ ok (to_lower_case memo)
unfolding memo_for_reference parse_ppops_reference
memo_for_reference-parse [] reference h = cc
memo_for_reference-parse (c ∷ s) reference h =
    let (r, found, valid, e) = reference_group_inv (strip_prefix memo_prefix (c ∷ s)) reference h in
    rw (e, is_reference-to_lower_case r, valid, to_lower_case_idem r)
      (ap ok (sym (strip_prefix-lower memo_prefix (c ∷ s) r found)))
