-- ===== src/Scenarios/Working.antt =====
-- Two workers on three inputs, and the reports of a daemon's scans.
use ppops.Prelude.{ℕ, true, some, ◌*◌, ◌≤◌, ◌≡◌, ◌⊎◌, List, [], ◌∷◌, arith, length}
use ppops.Runtime.Health.{
  Report, progressed, snapshot, snapshot-last_success, started, state_after, succeeded,
}
use ppops.Scanner.Workers.{
  Workers, Step, Steps, next, output_of, start, stop, taken, takes, workers-end,
}

abbrev double : ℕ → ℕ
double n = 2 * n

abbrev numbers : List ℕ
numbers = 10 ∷ 20 ∷ 30 ∷ []

abbrev first_taken : Workers ℕ
first_taken = taken double numbers (start double numbers 2)

-- One worker takes the first input, and another the second.
two_taken : Steps double numbers 2 (start double numbers 2) (taken double numbers first_taken)
unfolding start taken
two_taken =
    next 1 (start double numbers 2) first_taken (taken double numbers first_taken)
      (takes (omega arith) (omega arith))
      (next 0 first_taken (taken double numbers first_taken) (taken double numbers first_taken)
        (takes (omega arith) (omega arith)) (stop (taken double numbers first_taken)))

workers-end_example :
    (2 ≤ 2 * length numbers)
    × (((after : Workers ℕ) × Step double numbers (taken double numbers first_taken) after)
        ⊎ ((2 ≡ 2 * length numbers)
            × ((taken double numbers first_taken).outputs 1 ≡ output_of double numbers 1)))
workers-end_example =
    workers-end double numbers 2 2 (taken double numbers first_taken) 1 (omega arith) two_taken
      (omega arith)

-- A scan succeeded at 61.5 seconds, and another one is under way.
abbrev reports : List Report
reports = progressed (some 70) ∷ started 65_000 ∷ succeeded 60_000 61_500 ∷ started 60_000 ∷ []

snapshot-last_success_example :
    (snapshot 30_000 1_200_000 91_000 (state_after 1_000 reports)).railgun_ready ≡ true
snapshot-last_success_example = snapshot-last_success 30_000 1_200_000 91_000 1_000 reports
