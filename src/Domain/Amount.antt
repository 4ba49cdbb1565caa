-- ===== src/Domain/Amount.antt =====
-- `isPositiveAtomicAmount` of src/domain.ts, and the decimal texts of bigints: `BigInt(text)` is
-- `big_int`, `value.toString()` is `to_text`.
use mathlib.Core.List.{append-nil}
use ppops.Prelude.{
  sym, ◌↔◌, lt→ltb, ℕ, zero, suc, ◌+◌, ◌-◌, ◌*◌, ◌/◌, ◌%◌, ◌≤◌, ◌<◌, ◌≡◌, refl, ◌∙◌, ap, Bool, true,
  false, ◌&&◌, [], ◌∷◌, ◌++◌, arith, ltb, leb, if◌then◌else◌, Bool-cases, inl, inr, all, Text,
}

abbrev pub is_digit : ℕ → Bool
is_digit c = leb b'0' c && leb c b'9'

-- `BigInt(text)` of a text of decimal digits, behind those already read.
pub digits_value : ℕ → Text → ℕ
digits_value n [] = n
digits_value n (c ∷ s) = digits_value (n * 10 + (c - b'0')) s

unfoldable pub big_int : Text → ℕ
unfolding digits_value
big_int s = digits_value 0 s

-- /^(?:0|[1-9][0-9]*)$/
unfoldable pub is_canonical : Text → Bool
is_canonical [] = false
is_canonical (c ∷ []) = is_digit c
is_canonical (c ∷ d ∷ s) = leb b'1' c && leb c b'9' && all is_digit (d ∷ s)

unfoldable pub is_positive_atomic_amount : Text → Bool
unfolding is_canonical big_int
is_positive_atomic_amount value = is_canonical value && ltb 0 (big_int value)

-- The digits of `n` in front of `s`, with fuel above `n`.
pub print_digits : ℕ → ℕ → Text → Text
print_digits zero n s = s
print_digits (suc f) n s =
    let rest = print_digits f (n / 10) ((b'0' + n % 10) ∷ s) in
    if ltb n 10 then (b'0' + n) ∷ s else rest

unfoldable pub to_text : ℕ → Text
unfolding print_digits
to_text n = print_digits (suc n) n []

value-print_digits :
    (f n : ℕ) (s : Text) → n < f → digits_value 0 (print_digits f n s) ≡ digits_value n s
unfolding digits_value print_digits
value-print_digits zero n s h = elim h [ ]
value-print_digits (suc f) n s h = elim (Bool-cases (ltb n 10)) [
  | inl small ↦ rw small (ap (λ k. digits_value k s) (omega arith))
  | inr big ↦ rw big (
      value-print_digits f (n / 10) ((b'0' + n % 10) ∷ s) (ground arith)
      ∙ ap (λ k. digits_value k s) (omega arith))
]

-- Reading what was printed returns the number.
pub big_int-to_text : (n : ℕ) → big_int (to_text n) ≡ n
unfolding big_int to_text digits_value
big_int-to_text n = value-print_digits (suc n) n [] (omega arith)

-- Any two fuels above `n` print alike.
print_digits-fuel : (f g n : ℕ) (s : Text) → n < f → n < g → print_digits f n s ≡ print_digits g n s
unfolding print_digits
print_digits-fuel zero g n s h k = elim h [ ]
print_digits-fuel (suc f) zero n s h k = elim k [ ]
print_digits-fuel (suc f) (suc g) n s h k = elim (Bool-cases (ltb n 10)) [
  | inl small ↦ rw small
  | inr big ↦
      rw big (print_digits-fuel f g (n / 10) ((b'0' + n % 10) ∷ s) (ground arith) (ground arith))
]

-- Printing a number with one more digit prints that digit last.
print_digits-push :
    (f n c : ℕ) (s : Text)
    → n < f
    → 0 < n
    → is_digit c ≡ true
    → print_digits (suc (n * 10 + (c - b'0'))) (n * 10 + (c - b'0')) s ≡ print_digits f n (c ∷ s)
unfolding print_digits
print_digits-push f n c s h pos d =
    let digit : (b'0' ≤ c) × (c < b'0' + 10) = ground arith in
    let big : ltb (n * 10 + (c - b'0')) 10 ≡ false = ground arith in
    let quotient : (n * 10 + (c - b'0')) / 10 ≡ n = omega arith in
    let last : b'0' + (n * 10 + (c - b'0')) % 10 ≡ c = omega arith in
    rw big
      (rw (quotient, last) (print_digits-fuel (n * 10 + (c - b'0')) f n (c ∷ s) (omega arith) h))

print-value :
    (s : Text) (f n : ℕ) (r : Text)
    → n < f
    → 0 < n
    → all is_digit s ≡ true
    → print_digits (suc (digits_value n s)) (digits_value n s) r ≡ print_digits f n (s ++ r)
unfolding digits_value
print-value [] f n r h pos d = print_digits-fuel (suc n) f n r (omega arith) h
print-value (c ∷ s) f n r h pos d =
    print-value s (suc (n * 10 + (c - b'0'))) (n * 10 + (c - b'0')) r (omega arith) (omega arith)
      (ground arith)
    ∙ print_digits-push f n c (s ++ r) h pos (ground arith)

-- A canonical text is what its number prints: no two accepted texts denote one number.
pub to_text-big_int : (s : Text) → is_canonical s ≡ true → to_text (big_int s) ≡ s
unfolding is_canonical to_text big_int digits_value print_digits
to_text-big_int [] h = cc
to_text-big_int (c ∷ []) h =
    let small : ltb (0 + (c - b'0')) 10 ≡ true = ground arith in
    let same : b'0' + (0 + (c - b'0')) ≡ c = ground arith in rw (small, same)
to_text-big_int (c ∷ d ∷ s) h =
    let lead : (b'1' ≤ c) × (c < b'0' + 10) = ground arith in
    let first : b'0' + (0 + (c - b'0')) ≡ c = omega arith in
    let small : ltb (0 + (c - b'0')) 10 ≡ true = ground arith in
    print-value (d ∷ s) 10 (0 + (c - b'0')) [] (omega arith) (omega arith) (ground arith)
    ∙ rw (small, first, append-nil)

is_canonical-print_digits :
    (f n : ℕ) (s : Text)
    → n < f
    → 0 < n
    → all is_digit s ≡ true
    → is_canonical (print_digits f n s) ≡ true
unfolding is_canonical print_digits
is_canonical-print_digits zero n s h pos d = elim h [ ]
is_canonical-print_digits (suc f) n [] h pos d =
    ground (arith, is_canonical-print_digits f (n / 10) ((b'0' + n % 10) ∷ []))
is_canonical-print_digits (suc f) n (c ∷ s) h pos d =
    ground (arith, is_canonical-print_digits f (n / 10) ((b'0' + n % 10) ∷ c ∷ s))

is_canonical-to_text : (n : ℕ) → 0 < n → is_canonical (to_text n) ≡ true
unfolding to_text
is_canonical-to_text n pos = is_canonical-print_digits (suc n) n [] (omega arith) pos refl

-- What a number prints is canonical.
pub is_canonical-printed : (n : ℕ) → is_canonical (to_text n) ≡ true
unfolding is_canonical to_text print_digits
is_canonical-printed zero = refl
is_canonical-printed (suc n) = is_canonical-to_text (suc n) (omega arith)

digits-print_digits :
    (f n : ℕ) (s : Text) → all is_digit s ≡ true → all is_digit (print_digits f n s) ≡ true
unfolding print_digits
digits-print_digits zero n s d = d
digits-print_digits (suc f) n s d =
    ground (arith, digits-print_digits f (n / 10) ((b'0' + n % 10) ∷ s))

pub digits-to_text : (n : ℕ) → all is_digit (to_text n) ≡ true
unfolding to_text
digits-to_text n = digits-print_digits (suc n) n [] refl

pub to_text-injective : (n m : ℕ) → to_text n ≡ to_text m → n ≡ m
to_text-injective n m h = sym (big_int-to_text n) ∙ ap big_int h ∙ big_int-to_text m

-- A text is accepted as an amount exactly when it is the decimal text of a positive number.
pub is_positive_atomic_amount_iff :
    (value : Text)
    → (is_positive_atomic_amount value ≡ true)
      ↔ ((n : ℕ) × (0 < n) × (value ≡ to_text n) × (big_int value ≡ n))
unfolding is_positive_atomic_amount
is_positive_atomic_amount_iff value = (
  λ h. (big_int value, ground arith, sym (to_text-big_int value (ground arith)), refl),
  λ (n, pos, e, v). rw (e, is_canonical-to_text n pos, big_int-to_text n) (lt→ltb 0 n pos),
)
