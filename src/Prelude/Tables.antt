-- ===== src/Prelude/Tables.antt =====
-- Tables as lists of rows in the order of insertion, read and updated by a text key.
use mathlib.Core.Path.{◌≡◌, refl, ap, sym, ◌∙◌, subst}
use mathlib.Core.Logic.{inl, inr}
use mathlib.Core.Bool.{Bool, false}
use mathlib.Core.List.{List, [], ◌∷◌, ◌++◌}
use mathlib.Core.Option.{Option, none, some}
use native.Mathlib.Omega.{arith}
use ppops.Prelude.Tests.{Bool-cases}
use ppops.Prelude.Lists.{All, All-weaken, find, filter, update}
use ppops.Prelude.Texts.{Text, text_eq, text_eq_iff, text_eq_refl}

module _ {ℓ} {A : Type ℓ} (key : A → Text) where
  abbrev pub has_key : Text → A → Bool
  has_key k a = text_eq (key a) k

  -- SELECT ... WHERE key = k
  abbrev pub find_by : Text → List A → Option A
  find_by k xs = find (has_key k) xs

  -- UPDATE ... WHERE key = k
  abbrev pub update_by : Text → (A → A) → List A → List A
  update_by k f xs = update (has_key k) f xs

  pub find_by-key : (k : Text) (xs : List A) (x : A) → find_by k xs ≡ some x → key x ≡ k
  find_by-key k [] x h = cc
  find_by-key k (y ∷ ys) x h =
      ground (arith, text_eq_iff (key y) k, text_eq_iff (key x) k, find_by-key k ys x)

  pub find_by-append :
      (k : Text) (xs ys : List A)
      → find_by k (xs ++ ys) ≡ elim (find_by k xs) [ none ↦ find_by k ys | some x ↦ some x ]
  find_by-append k [] ys = refl
  find_by-append k (x ∷ xs) ys = ground (arith, find_by-append k xs ys)

  pub find_by-append_none :
      (k : Text) (xs ys : List A) → find_by k xs ≡ none → find_by k (xs ++ ys) ≡ find_by k ys
  find_by-append_none k [] ys h = refl
  find_by-append_none k (x ∷ xs) ys h = ground (arith, find_by-append_none k xs ys)

  -- A new row is seen under its own key alone.
  pub find_by-append_other :
      (k : Text) (xs : List A) (y : A)
      → text_eq (key y) k ≡ false
      → find_by k (xs ++ y ∷ []) ≡ find_by k xs
  find_by-append_other k [] y h = rw h
  find_by-append_other k (x ∷ xs) y h = ground (arith, find_by-append_other k xs y h)

  pub find_by-append_self :
      (xs : List A) (y : A) → find_by (key y) xs ≡ none → find_by (key y) (xs ++ y ∷ []) ≡ some y
  find_by-append_self xs y h = find_by-append_none (key y) xs (y ∷ []) h ∙ rw (text_eq_refl (key y))

  pub find_by-append_some :
      (k : Text) (xs ys : List A) (x : A) → find_by k xs ≡ some x → find_by k (xs ++ ys) ≡ some x
  find_by-append_some k [] ys x h = cc
  find_by-append_some k (y ∷ xs) ys x h = ground (arith, find_by-append_some k xs ys x)

  -- An update under one key that keeps the keys is seen under that key alone.
  pub find_by-update_self :
      (k : Text) (f : A → A) (xs : List A) (x : A)
      → ((a : A) → key (f a) ≡ key a)
      → find_by k xs ≡ some x
      → find_by k (update_by k f xs) ≡ some (f x)
  find_by-update_self k f [] x keep h = cc
  find_by-update_self k f (y ∷ ys) x keep h = ground (
    arith,
    keep y,
    text_eq_iff (key y) k,
    text_eq_iff (key (f y)) k,
    find_by-update_self k f ys x keep,
  )

  pub find_by-update_none :
      (k : Text) (f : A → A) (xs : List A) → find_by k xs ≡ none → update_by k f xs ≡ xs
  find_by-update_none k f [] h = refl
  find_by-update_none k f (y ∷ ys) h = ground (arith, find_by-update_none k f ys)

  pub find_by-update_other :
      (k j : Text) (f : A → A) (xs : List A)
      → ((a : A) → key (f a) ≡ key a)
      → text_eq k j ≡ false
      → find_by j (update_by k f xs) ≡ find_by j xs
  find_by-update_other k j f [] keep h = refl
  find_by-update_other k j f (y ∷ ys) keep h = ground (
    arith,
    keep y,
    text_eq_iff k j,
    text_eq_iff (key y) k,
    text_eq_iff (key y) j,
    text_eq_iff (key (f y)) j,
    find_by-update_other k j f ys keep,
  )

  -- No two rows have one key.
  abbrev pub Distinct : List A → Type ℓ
  Distinct [] = Unit
  Distinct (x ∷ xs) = (find_by (key x) xs ≡ none) × Distinct xs

  pub Distinct-append :
      (xs : List A) (y : A) → Distinct xs → find_by (key y) xs ≡ none → Distinct (xs ++ y ∷ [])
  Distinct-append [] y d h = (refl, tt)
  Distinct-append (x ∷ xs) y d h =
      let apart : text_eq (key x) (key y) ≡ false = ground arith in
      let rest : find_by (key y) xs ≡ none = ground arith in
      let flip : text_eq (key y) (key x) ≡ false =
        ground (arith, text_eq_iff (key x) (key y), text_eq_iff (key y) (key x)) in
      (find_by-append_none (key x) xs (y ∷ []) d.0 ∙ rw flip, Distinct-append xs y d.1 rest)

  find_by-update_keys :
      (k j : Text) (f : A → A) (xs : List A)
      → ((a : A) → key (f a) ≡ key a)
      → find_by j xs ≡ none
      → find_by j (update_by k f xs) ≡ none
  find_by-update_keys k j f [] keep h = refl
  find_by-update_keys k j f (y ∷ ys) keep h =
      ground (arith, keep y, find_by-update_keys k j f ys keep)

  pub Distinct-update_by :
      (k : Text) (f : A → A) (xs : List A)
      → ((a : A) → key (f a) ≡ key a)
      → Distinct xs
      → Distinct (update_by k f xs)
  Distinct-update_by k f [] keep d = tt
  Distinct-update_by k f (x ∷ xs) keep d =
      let rest = Distinct-update_by k f xs keep d.1 in
      let fresh = find_by-update_keys k (key x) f xs keep d.0 in
      elim (Bool-cases (has_key k x)) [
        | inl e ↦ rw (e, keep x) (fresh, rest)
        | inr e ↦ rw e (fresh, rest)
      ]

  -- A filter that passes over the updated row, old and new, does not see the update.
  pub filter-update_by :
      (k : Text) (f : A → A) (test : A → Bool) (xs : List A) (x : A)
      → find_by k xs ≡ some x
      → test x ≡ false
      → test (f x) ≡ false
      → Distinct xs
      → filter test (update_by k f xs) ≡ filter test xs
  filter-update_by k f test [] x h old new d = cc
  filter-update_by k f test (y ∷ ys) x h old new d = elim (Bool-cases (has_key k y)) [
    | inl e ↦
        let here : y ≡ x = ground arith in
        let gone : find_by k ys ≡ none = rw (← (text_eq_iff (key y) k).0 e) d.0 in
        rw (e, find_by-update_none k f ys gone) (ground arith)
    | inr e ↦ ground (arith, filter-update_by k f test ys x)
  ]

  -- What holds of every row and of the new version of the updated one holds after an update.
  pub All-update_by {κ} :
      (P : A → Type κ) (k : Text) (f : A → A) (xs : List A)
      → ((a : A) → P a → key a ≡ k → P (f a))
      → All P xs
      → All P (update_by k f xs)
  All-update_by P k f [] step h = tt
  All-update_by P k f (x ∷ xs) step h =
      let rest = All-update_by P k f xs step h.1 in
      elim (Bool-cases (has_key k x)) [
        | inl e ↦ rw e (step x h.0 ((text_eq_iff (key x) k).0 e), rest)
        | inr e ↦ rw e (h.0, rest)
      ]

-- A row found under one key is found under another that no two rows share.
pub find_by-other_key {ℓ} :
    {A : Type ℓ} (key other : A → Text) (k : Text) (xs : List A) (x : A)
    → Distinct other xs
    → find_by key k xs ≡ some x
    → find_by other (other x) xs ≡ some x
find_by-other_key key other k [] x d h = cc
find_by-other_key key other k (y ∷ ys) x d h = elim (Bool-cases (text_eq (key y) k)) [
  | inl e ↦ let here : y ≡ x = ground arith in rw (← here) (rw (text_eq_refl (other y)))
  | inr e ↦
      let found = find_by-other_key key other k ys x d.1 (ground arith) in
      ground (arith, text_eq_iff (other y) (other x), d.0)
]

-- What holds of every row and of the new version of the found one holds after an update.
pub All-update_found {ℓ κ} :
    {A : Type ℓ} (key : A → Text) (P : A → Type κ) (k : Text) (f : A → A) (xs : List A) (x : A)
    → find_by key k xs ≡ some x
    → Distinct key xs
    → P (f x)
    → All P xs
    → All P (update_by key k f xs)
All-update_found key P k f [] x h d new a = tt
All-update_found key P k f (y ∷ ys) x h d new a = elim (Bool-cases (text_eq (key y) k)) [
  | inl e ↦
      let here : x ≡ y = ground arith in
      let gone : find_by key k ys ≡ none = rw (← (text_eq_iff (key y) k).0 e) d.0 in
      rw (e, find_by-update_none key k f ys gone) (subst (λ z. P (f z)) here new, a.1)
  | inr e ↦ rw e (a.0, All-update_found key P k f ys x (ground arith) d.1 new a.1)
]

-- Where no two rows share a key, each row is found under its own.
pub Distinct-found {ℓ} :
    {A : Type ℓ} (key : A → Text) (xs : List A)
    → Distinct key xs
    → All (λ x. find_by key (key x) xs ≡ some x) xs
Distinct-found key [] d = tt
Distinct-found {A} key (x ∷ xs) d = (
  rw (text_eq_refl (key x)),
  All-weaken (λ y. find_by key (key y) xs ≡ some y) (λ y. find_by key (key y) (x ∷ xs) ≡ some y) xs
      (λ y h. elim (Bool-cases (text_eq (key x) (key y))) [
        | inl e ↦ cc (ap (λ k. find_by key k xs) ((text_eq_iff (key x) (key y)).0 e), d.0)
        | inr e ↦ rw e h
      ])
      (Distinct-found key xs d.1),
)

-- Two updates that agree on the found row agree.
pub update_by-agree {ℓ} :
    {A : Type ℓ} (key : A → Text) (k : Text) (f g : A → A) (xs : List A) (x : A)
    → find_by key k xs ≡ some x
    → Distinct key xs
    → f x ≡ g x
    → update_by key k f xs ≡ update_by key k g xs
update_by-agree key k f g [] x h d e = refl
update_by-agree key k f g (y ∷ ys) x h d e = elim (Bool-cases (text_eq (key y) k)) [
  | inl same ↦
      let here : x ≡ y = ground arith in
      let gone : find_by key k ys ≡ none = rw (← (text_eq_iff (key y) k).0 same) d.0 in
      rw (same, find_by-update_none key k f ys gone, find_by-update_none key k g ys gone)
        (ap (λ z. z ∷ ys) (ap f (sym here) ∙ e ∙ ap g here))
  | inr other ↦ rw (other, update_by-agree key k f g ys x (ground arith) d.1 e)
]

pub find_by-none-All {ℓ} :
    {A : Type ℓ} (key : A → Text) (k : Text) (xs : List A)
    → find_by key k xs ≡ none
    → All (λ x. text_eq (key x) k ≡ false) xs
find_by-none-All key k [] h = tt
find_by-none-All key k (x ∷ xs) h = (ground arith, find_by-none-All key k xs (ground arith))
