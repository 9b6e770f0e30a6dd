-- ===== src/Tcp/Worker/Stopped.antt =====
-- `start` of a new worker, and of one that has been stopped.
use diginext.Base.{
  ℕ, zero, suc, ◌-◌, ◌≤◌, ◌≡◌, length, refl, ap, ◌∙◌, Bool, true, false, none, some, List, ◌∷◌,
  replicate, arith,
}
use diginext.Tcp.Worker.Wait.{wait_from}
use diginext.Tcp.Worker.Ends.{
  IsStopping, weaken, meanwhile-IsStopping, before_try-IsStopping, IsEnded, IsStopping-IsEnded,
}
use diginext.Tcp.Worker.{
  entering, running, Worker, returns, RunStep, goes_on, run_step, step_at, thread_step, meanwhile,
  before_try, wait_until, new_thread, Pace, start, idle,
}

pub meanwhile-running :
    (n : ℕ) (w : Worker)
    → w.server_thread ≡ some running
    → w.io_stopped ≡ false
    → meanwhile (replicate n goes_on) w ≡ w
unfolding meanwhile thread_step step_at run_step
meanwhile-running zero w r s = refl
meanwhile-running (suc n) w r s =
    ap (meanwhile (replicate n goes_on)) one ∙ meanwhile-running n w r s
  where
    one : thread_step goes_on w ≡ w
    one = ground arith

wait_from-second_try :
    (tries : ℕ) (status : ℕ → Bool)
    → status 0 ≡ false
    → status 1 ≡ true
    → wait_from (suc (suc tries)) 0 status ≡ (true, 1)
unfolding wait_from
wait_from-second_try tries status e f = ground (arith, e, f)

entered : Worker
entered = record { started_status = false; server_thread = some entering; io_stopped = false }

abbrev pub serving : Worker
serving = record { started_status = true; server_thread = some running; io_stopped = false }

wait_until-entered :
    (steps : ℕ → List RunStep)
    → meanwhile (steps 0) entered ≡ serving
    → (wait_until (λ s. s) steps entered).1 ≡ serving
unfolding wait_until entered
wait_until-entered steps e =
    ap (λ r. before_try steps r.1 entered)
      (wait_from-second_try 28 (λ i. (before_try steps i entered).started_status)
        (unfold before_try in refl) (unfold before_try in ap (λ w. w.started_status) e))
    ∙ unfold before_try in e

-- start of a new worker returns with the status set and the thread in run, if the thread comes that
-- far during the first sleep of waitStart and run goes on.
pub start-idle :
    (n : ℕ) (pace : Pace) (steps : ℕ → List RunStep)
    → steps 0 ≡ goes_on ∷ replicate n goes_on
    → start pace steps idle
      ≡ returns (record { started_status = true; server_thread = some running; io_stopped = false })
unfolding start new_thread entered
start-idle n pace steps e = ap returns (wait_until-entered steps first)
  where
    first : meanwhile (steps 0) entered ≡ serving
    first =
        ap (λ l. meanwhile l entered) e
        ∙ unfold meanwhile thread_step step_at in meanwhile-running n serving refl refl

-- start of a worker that stop has stopped returns, but nothing restarts its io_service: whatever
-- the thread does during the call, with three more steps at least, run has returned, the thread is
-- at its end, the status is reset, and the io_service is still stopped.
pub start-stopped :
    (pace : Pace) (steps : ℕ → List RunStep) (more : List RunStep)
    → 3 ≤ length more
    → (w : Worker) × (start pace steps
          (record { started_status = false; server_thread = none; io_stopped = true })
        ≡ returns w)
      × IsEnded (meanwhile more w)
      × ((meanwhile more w).io_stopped ≡ true)
unfolding start new_thread
start-stopped pace steps more enough =
    (w, refl, IsStopping-IsEnded (meanwhile more w) last, last.stopped)
  where
    entering_stopped : Worker
    entering_stopped = record {
      started_status = false;
      server_thread = some entering;
      io_stopped = true;
    }

    w : Worker
    w = (wait_until (λ s. s) steps entering_stopped).1

    first : IsStopping 3 entering_stopped
    first = record { stopped = refl; consistent = refl; joinable = refl; near = omega arith }

    last : IsStopping 0 (meanwhile more w)
    last = weaken (3 - length more) 0 (meanwhile more w) (omega arith) (
        meanwhile-IsStopping 3 more w
          (unfold wait_until in before_try-IsStopping 3 _ steps entering_stopped first))
