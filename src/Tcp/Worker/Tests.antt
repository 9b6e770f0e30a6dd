-- ===== src/Tcp/Worker/Tests.antt =====
-- Witnesses and runs of the thread's theorems.
use diginext.Base.{ℕ, ◌≡◌, refl, Bool, true, false, not, ltb, some, none, List, [], ◌∷◌, arith}
use diginext.Tcp.Worker.{
  running, Worker, returns, terminates, RunStep, goes_on, out_of_work, meanwhile, Pace, start,
  destroy,
}
use diginext.Tcp.Worker.Ends.{IsEnded, destroy-terminates}
use diginext.Tcp.Worker.Stopped.{start-stopped}
use diginext.Tcp.Worker.Wait.{IsWait, wait_from, wait_start, wait_stop, wait_start_lem}

-- The status is set from the third try on.
abbrev set_late : ℕ → Bool
set_late i = not (ltb i 2)

wait_start_lem_example :
    IsWait 30 0 set_late (wait_start set_late)
    × IsWait 30 0 (λ i. not (set_late i)) (wait_stop set_late)
wait_start_lem_example = wait_start_lem set_late

wait_start_run : wait_start set_late ≡ (true, 2)
unfolding wait_start wait_from
wait_start_run = refl

-- A thread that takes four steps whenever it may.
abbrev four : List RunStep
four = goes_on ∷ goes_on ∷ goes_on ∷ goes_on ∷ []

abbrev pace : Pace
pace = record { disconnecting = []; waiting = λ i. []; joining = four }

abbrev in_run : Worker
in_run = record { started_status = true; server_thread = some running; io_stopped = false }

destroy-terminates_example :
    (destroy pace (meanwhile (out_of_work ∷ goes_on ∷ []) in_run) ≡ terminates)
    × (start pace (λ i. four) (meanwhile (out_of_work ∷ goes_on ∷ []) in_run) ≡ terminates)
destroy-terminates_example =
    destroy-terminates out_of_work goes_on [] pace (λ i. four) in_run (cc) refl

start-stopped_example :
    (w : Worker) × (start pace
        (λ i. four)
        (record { started_status = false; server_thread = none; io_stopped = true })
      ≡ returns w)
    × IsEnded (meanwhile four w)
    × ((meanwhile four w).io_stopped ≡ true)
start-stopped_example = start-stopped pace (λ i. four) four (omega arith)
