-- ===== src/Programs/Answers.antt =====
-- `waitAnswer`.
use diginext.Base.{
  ℕ, zero, suc, ◌+◌, ◌≡◌, ◌≢◌, refl, ap, ◌∙◌, false, Bool-cases, inl, inr, ◌⊎◌, Option, none, some,
  List, [], eqb, eqb-true, eqb_refl, All, arith,
}
use diginext.Tcp.Worker.Wait.{count_from}
use diginext.Programs.{wait_answer_from, wait_answer}

-- The first `n` tries from `i` on find no answer, and the next one finds one, or none of them does.
abbrev pub IsAnswered : ℕ → ℕ → (ℕ → List ℕ) → Option (List ℕ) × ℕ → Type 0
IsAnswered tries i answers result =
    ((n more : ℕ) × (tries ≡ n + suc more)
      × All (λ j. answers j ≡ []) (count_from i n)
      × (answers (i + n) ≢ [])
      × (result ≡ (some (answers (i + n)), n)))
    ⊎ (All (λ j. answers j ≡ []) (count_from i tries) × (result ≡ (none, tries)))

wait_answer_from_lem :
    (tries i : ℕ) (answers : ℕ → List ℕ)
    → IsAnswered tries i answers (wait_answer_from tries i answers)
unfolding wait_answer_from
wait_answer_from_lem zero i answers = inr (tt, refl)
wait_answer_from_lem (suc tries) i answers = elim (Bool-cases (eqb (answers i) [])) [
  | inr h ↦ inl (
    0,
    tries,
    omega arith,
    tt,
    λ e. some_answer (ap answers (omega arith) ∙ e) h,
    rw h (ap (λ j. (some (answers j), zero)) (omega arith)),
  )
  | inl h ↦ elim (wait_answer_from_lem tries (suc i) answers) [
    | inl (n, more, e, before, now, r) ↦ inl (
      suc n,
      more,
      omega (arith, e),
      (eqb-true _ _ h, before),
      λ d. now (ap answers (omega arith) ∙ d),
      rw (h, r) (ap (λ j. (some (answers j), suc n)) (omega arith)),
    )
    | inr (never, r) ↦ inr ((eqb-true _ _ h, never), rw (h, r) refl)
  ]
]
  where
    some_answer : answers i ≡ [] → eqb (answers i) [] ≡ false → ⊥
    some_answer e h = ground (arith, h, ap (λ a. eqb a []) e ∙ eqb_refl [])

-- waitAnswer prints the answer of the first of fifteen tries that finds one that is not empty,
-- after one sleep for each try before, and prints nothing if none does.
pub wait_answer_lem : (answers : ℕ → List ℕ) → IsAnswered 15 0 answers (wait_answer answers)
unfolding wait_answer
wait_answer_lem answers = wait_answer_from_lem 15 0 answers
