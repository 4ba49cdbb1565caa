-- ===== src/Prelude/Results.antt =====
-- A computation that may throw, and one that reads and writes a state besides. An exception drops
-- the state of the computation that throws it.
use mathlib.Core.Path.{◌≡◌, refl}
use mathlib.Core.Logic.{◌⊎◌, inl, inr}
use mathlib.Core.Bool.{Bool, true, false}

pub data Result {ℓ κ} (E : Type ℓ) (A : Type κ) : Type (ℓ ⊔ κ) where
  ok : A → Result E A
  err : E → Result E A

-- `if (!test) throw e`
abbrev pub guard {ℓ} : {E : Type ℓ} → (test : Bool) → (thrown : E) → Result E (Unit {0})
guard false thrown = err thrown
guard true thrown = ok tt

abbrev pub ◌>>=◌ {ℓ κ ι} :
    {E : Type ℓ} {A : Type κ} {B : Type ι} → Result E A → (A → Result E B) → Result E B
err thrown >>= next = err thrown
ok value >>= next = next value

abbrev pub ◌>>◌ {ℓ κ ι} :
    {E : Type ℓ} {A : Type κ} {B : Type ι} → Result E A → Result E B → Result E B
first >> second = first >>= λ _. second

infixl 5 ◌>>=◌ ◌>>◌
pub ok-inj {ℓ κ} :
    {E : Type ℓ} {A : Type κ} {first : Result E A} {a b : A} → first ≡ ok a → first ≡ ok b → a ≡ b
ok-inj g h = cc

pub Result-cases {ℓ κ} :
    {E : Type ℓ} {A : Type κ} (first : Result E A)
    → ((value : A) × (first ≡ ok value)) ⊎ ((thrown : E) × (first ≡ err thrown))
Result-cases (ok value) = inl (value, refl)
Result-cases (err thrown) = inr (thrown, refl)

-- What a guard lets through passed its test.
pub guarded {ℓ κ} :
    {E : Type ℓ} {A : Type κ} (test : Bool) (thrown : E) (next : Result E A) {result : A}
    → (guard test thrown >>= λ _. next) ≡ ok result
    → (test ≡ true) × (next ≡ ok result)
guarded false thrown next h = cc
guarded true thrown next h = (refl, h)

-- A chain that succeeds began with a success.
pub >>=-eq-ok {ℓ κ ι} :
    {E : Type ℓ} {A : Type κ} {B : Type ι} (first : Result E A) (next : A → Result E B) {result : B}
    → (first >>= next) ≡ ok result
    → (value : A) × (first ≡ ok value) × (next value ≡ ok result)
>>=-eq-ok (err thrown) next h = cc
>>=-eq-ok (ok value) next h = (value, refl, h)
