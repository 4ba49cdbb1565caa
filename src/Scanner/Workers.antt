-- ===== src/Scanner/Workers.antt =====
-- src/railgun/scanner.ts: `mapWithConcurrency` as steps of its workers, in any order. A worker takes
-- the input at the cursor or stores the output of the one it took. The operation succeeds; where it
-- throws, the whole call does.
use ppops.Prelude.{
  ℕ, zero, suc, ◌+◌, ◌-◌, ◌*◌, ◌<◌, ◌≤◌, ◌≡◌, ◌⊎◌, refl, ap, sym, ◌∙◌, subst, true, false, List, [],
  ◌∷◌, ◌++◌, Option, none, some, arith, ltb, ◌==◌, if◌then◌else◌, Bool-cases, inl, inr, any, length,
  length-append,
}

-- `inputs[index]`
abbrev pub nth {ℓ} : {A : Type ℓ} → List A → ℕ → Option A
nth [] i = none
nth (a ∷ inputs) zero = some a
nth (a ∷ inputs) (suc i) = nth inputs i

-- `working` are the indices that workers have taken, `idle` the workers without one.
pub record Workers {ℓ} (B : Type ℓ) : Type ℓ where
  pub cursor : ℕ
  pub idle : ℕ
  pub working : List ℕ
  pub outputs : ℕ → Option B

module _ {ℓ κ} {A : Type ℓ} {B : Type κ} (operation : A → B) (inputs : List A) where
  -- The output of an index.
  abbrev pub output_of : ℕ → Option B
  output_of i = elim (nth inputs i) [ none ↦ none | some a ↦ some (operation a) ]

  abbrev pub with_output : ℕ → (ℕ → Option B) → ℕ → Option B
  with_output i outputs j = if i == j then output_of i else outputs j

  unfoldable pub start : ℕ → Workers B
  start concurrency = record {
    cursor = 0;
    idle = if ltb concurrency (length inputs) then concurrency else length inputs;
    working = [];
    outputs = λ i. none;
  }

  unfoldable pub taken : Workers B → Workers B
  taken w = record {
    cursor = w.cursor + 1;
    idle = w.idle - 1;
    working = w.cursor ∷ w.working;
    outputs = w.outputs;
  }

  unfoldable pub completed : ℕ → List ℕ → List ℕ → Workers B → Workers B
  completed i before after w = record {
    cursor = w.cursor;
    idle = w.idle + 1;
    working = before ++ after;
    outputs = with_output i w.outputs;
  }

  pub data Step (w : Workers B) : Workers B → Type κ where
    takes : 0 < w.idle → w.cursor < length inputs → Step w (taken w)
    completes :
        (i : ℕ) (before after : List ℕ)
        → before ++ i ∷ after ≡ w.working
        → Step w (completed i before after w)

  -- A number of steps.
  pub data Steps : ℕ → Workers B → Workers B → Type κ where
    stop : (w : Workers B) → Steps 0 w w
    next : (n : ℕ) (v w x : Workers B) → Step v w → Steps n w x → Steps (suc n) v x

  -- The steps that are left.
  abbrev left : Workers B → ℕ
  left w = 2 * (length inputs - w.cursor) + length w.working

  Step-left : (v w : Workers B) → Step v w → left w + 1 ≡ left v
  unfolding taken completed
  Step-left v _ (takes idle more) = omega arith
  Step-left v _ (completes i before after e) =
      let size : length v.working ≡ length before + suc (length after) =
        sym (ap length e) ∙ length-append before (i ∷ after) in
      rw (size, length-append before after) (omega arith)

  Steps-left : (n : ℕ) (v w : Workers B) → Steps n v w → n + left w ≡ left v
  Steps-left _ v _ (stop _) = omega arith
  Steps-left _ v w (next n _ x _ step steps) =
      let one = Step-left v x step in let rest = Steps-left n x w steps in omega arith

  -- Each index before the cursor is being worked on or has its output.
  record Sound (crew : ℕ) (w : Workers B) : Type κ where
    within : w.cursor ≤ length inputs
    staffed : w.idle + length w.working ≡ crew
    covered :
        (i : ℕ) → i < w.cursor → (any (λ j. i == j) w.working ≡ true) ⊎ (w.outputs i ≡ output_of i)

  any-remove :
      (j i : ℕ) (before after : List ℕ)
      → (j == i) ≡ false
      → any (λ k. j == k) (before ++ i ∷ after) ≡ any (λ k. j == k) (before ++ after)
  any-remove j i [] after apart = rw apart refl
  any-remove j i (k ∷ before) after apart = rw (any-remove j i before after apart) refl

  Step-Sound : (crew : ℕ) (v w : Workers B) → Step v w → Sound crew v → Sound crew w
  unfolding taken completed
  Step-Sound crew v _ (takes idle more) s = record {
    within = omega arith;
    staffed = (let t = s.staffed in omega arith);
    covered = λ i before. elim (Bool-cases (i == v.cursor)) [
      | inl e ↦ inl (rw e refl)
      | inr e ↦ rw e (s.covered i (ground arith))
    ];
  }
  Step-Sound crew v _ (completes i before after e) s = record {
    within = s.within;
    staffed =
        (let t = s.staffed in
          let size : length v.working ≡ length before + suc (length after) =
            sym (ap length e) ∙ length-append before (i ∷ after) in
          rw (length-append before after) (omega arith));
    covered = λ j within. elim (Bool-cases (i == j)) [
      | inl same ↦ let here : i ≡ j = ground arith in inr (rw same (ap output_of here))
      | inr apart ↦
          let flip : (j == i) ≡ false = ground arith in
          let others : any (λ k. j == k) v.working ≡ any (λ k. j == k) (before ++ after) =
            sym (ap (any (λ k. j == k)) e) ∙ any-remove j i before after flip in
          rw (apart, ← others) (s.covered j within)
    ];
  }

  Steps-Sound : (crew n : ℕ) (v w : Workers B) → Steps n v w → Sound crew v → Sound crew w
  Steps-Sound crew _ v _ (stop _) s = s
  Steps-Sound crew _ v w (next n _ x _ step steps) s =
      Steps-Sound crew n x w steps (Step-Sound crew v x step s)

  -- The workers of a call.
  abbrev crew_of : ℕ → ℕ
  crew_of concurrency = if ltb concurrency (length inputs) then concurrency else length inputs

  start-Sound : (concurrency : ℕ) → Sound (crew_of concurrency) (start concurrency)
  unfolding start
  start-Sound concurrency = record {
    within = omega arith;
    staffed = omega arith;
    covered = λ i before. absurd (omega arith);
  }

  -- While there is work left, some worker can go on.
  Sound-Step :
      (crew : ℕ) (w : Workers B) (working : List ℕ)
      → Sound crew w
      → (0 < length inputs → 0 < crew)
      → working ≡ w.working
      → ((next : Workers B) × Step w next) ⊎ ((w.cursor ≡ length inputs) × (w.working ≡ []))
  Sound-Step crew w (i ∷ working) s staffed e =
      inl (completed i [] working w, completes i [] working e)
  Sound-Step crew w [] s staffed e = elim (Bool-cases (ltb w.cursor (length inputs))) [
    | inl more ↦
        let some_input : 0 < length inputs = ground arith in
        let enough = staffed some_input in
        let total : w.idle + 0 ≡ crew =
          subst (λ (l : List ℕ). w.idle + length l ≡ crew) (sym e) s.staffed in
        inl (taken w, takes (omega arith) (ground arith))
    | inr done ↦ let bound = s.within in inr (ground arith, sym e)
  ]

  not_busy : (i : ℕ) (working : List ℕ) → working ≡ [] → any (λ k. i == k) working ≡ true → ⊥
  not_busy i [] e h = cc
  not_busy i (j ∷ working) e h = cc

  -- However the workers' steps are interleaved, a call on inputs with at least one worker ends: it
  -- takes no more than two steps for each input, it can go on until it has taken them all, and then
  -- the output of each input stands at its index.
  pub workers-end :
      (concurrency n : ℕ) (w : Workers B) (i : ℕ)
      → 0 < concurrency
      → Steps n (start concurrency) w
      → i < length inputs
      → (n ≤ 2 * length inputs)
        × (((next : Workers B) × Step w next)
            ⊎ ((n ≡ 2 * length inputs) × (w.outputs i ≡ output_of i)))
  unfolding start
  workers-end concurrency n w i some_worker steps inside =
      let sound =
        Steps-Sound (crew_of concurrency) n (start concurrency) w steps (start-Sound concurrency) in
      let total = Steps-left n (start concurrency) w steps in
      (
        omega arith,
        elim (Sound-Step (crew_of concurrency) w w.working sound (λ h. ground arith) refl) [
          | inl more ↦ inl more
          | inr (at_end, idle) ↦
              let size : length w.working ≡ 0 = ap length idle in
              inr (
                omega arith,
                elim (sound.covered i (omega arith)) [
                  | inl busy ↦ absurd (not_busy i w.working idle busy)
                  | inr done ↦ done
                ],
              )
        ],
      )
