-- ===== src/Programs.antt =====
-- `waitAnswer` of the client program, client/src/main.cpp. The server program is in the module
-- Serving.
pub mod Answers
pub mod Loop
pub mod Serving
pub mod Logging
mod Tests
use diginext.Base.{
  ℕ, zero, suc, Bool, true, false, not, Option, none, some, List, [], ◌∷◌, codes, eqb, Outcome, ok,
  out_of_fuel, ◌>>=◌, if◌then◌else◌,
}

-- `MAX_COUNT`.
abbrev max_count : ℕ
max_count = 15

-- The loop of `waitAnswer`, with `tries` left, from `i` on. `answers i` is what `getAnswer` gives
-- at the i-th try. The result is the answer that is printed, and the number of sleeps.
pub wait_answer_from : ℕ → ℕ → (ℕ → List ℕ) → Option (List ℕ) × ℕ
wait_answer_from zero i answers = (none, 0)
wait_answer_from (suc tries) i answers =
    let rest : Option (List ℕ) × ℕ = wait_answer_from tries (suc i) answers in
    if not (eqb (answers i) (codes "")) then (some (answers i), 0) else (rest.0, suc rest.1)

pub wait_answer : (ℕ → List ℕ) → Option (List ℕ) × ℕ
wait_answer answers = wait_answer_from max_count 0 answers
