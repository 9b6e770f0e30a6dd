-- ===== src/Tcp/Worker/Wait.antt =====
-- `waitStart` and `waitStop`. `status i` is what `started_status` is at the i-th try: another
-- thread sets it. The result comes with the number of sleeps of a second.
use diginext.Base.{
  ℕ, zero, suc, ◌+◌, ◌≡◌, refl, ap, ◌∙◌, Bool, true, false, not, Bool-cases, inl, inr, ◌⊎◌, List,
  [], ◌∷◌, All, if◌then◌else◌, arith,
}

-- `MAX_TRY`.
abbrev pub max_try : ℕ
max_try = 30

-- The loop, with `tries` left, from `try_count` on.
unfoldable pub wait_from : ℕ → ℕ → (ℕ → Bool) → Bool × ℕ
wait_from zero try_count status = (false, 0)
wait_from (suc tries) try_count status =
    let rest : Bool × ℕ = wait_from tries (suc try_count) status in
    if status try_count then (true, 0) else (rest.0, suc rest.1)

unfoldable pub wait_start : (ℕ → Bool) → Bool × ℕ
wait_start status = wait_from max_try 0 status

unfoldable pub wait_stop : (ℕ → Bool) → Bool × ℕ
wait_stop status = wait_from max_try 0 (λ i. not (status i))

-- `n` numbers from `i` on.
abbrev pub count_from : ℕ → ℕ → List ℕ
count_from i zero = []
count_from i (suc n) = i ∷ count_from (suc i) n

-- The first `n` tries from `i` on fail, and the next one does not, or all of them fail.
abbrev pub IsWait : ℕ → ℕ → (ℕ → Bool) → Bool × ℕ → Type 0
IsWait tries i status result =
    ((n more : ℕ) × (tries ≡ n + suc more)
      × All (λ j. status j ≡ false) (count_from i n)
      × (status (i + n) ≡ true)
      × (result ≡ (true, n)))
    ⊎ (All (λ j. status j ≡ false) (count_from i tries) × (result ≡ (false, tries)))

wait_from_lem : (tries i : ℕ) (status : ℕ → Bool) → IsWait tries i status (wait_from tries i status)
unfolding wait_from
wait_from_lem zero i status = inr (tt, refl)
wait_from_lem (suc tries) i status = elim (Bool-cases (status i)) [
  | inl h ↦ inl (0, tries, omega arith, tt, ap status (omega arith) ∙ h, ground (arith, h))
  | inr h ↦ elim (wait_from_lem tries (suc i) status) [
    | inl (n, more, e, before, now, r) ↦ inl (
      suc n,
      more,
      omega (arith, e),
      (h, before),
      ap status (omega arith) ∙ now,
      ground (arith, h, r),
    )
    | inr (never, r) ↦ inr ((h, never), ground (arith, h, r))
  ]
]

-- waitStart returns true after n sleeps if the try after n failed ones is the first, of the thirty,
-- that sees the status set, and false after thirty sleeps if none does. waitStop does the same with
-- the status reset.
pub wait_start_lem :
    (status : ℕ → Bool)
    → IsWait 30 0 status (wait_start status) × IsWait 30 0 (λ i. not (status i)) (wait_stop status)
unfolding wait_start wait_stop
wait_start_lem status = (wait_from_lem 30 0 status, wait_from_lem 30 0 (λ i. not (status i)))
