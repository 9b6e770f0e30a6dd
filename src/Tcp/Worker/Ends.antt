-- ===== src/Tcp/Worker/Ends.antt =====
-- `stop` and the destructor.
use diginext.Base.{
  ap, ℕ, zero, suc, ◌≤◌, ◌-◌, ◌≡◌, ◌≢◌, refl, ◌∙◌, Bool, true, false, not, Option, none, some, List,
  [], ◌∷◌, length, if_true, arith,
}
use diginext.Tcp.Worker.{
  ◌>>=◌, Position, entering, running, leaving, finished, Worker, returns, terminates, RunStep,
  goes_on, out_of_work, throws, run_step, step_at, thread_step, meanwhile, before_try, wait_until,
  new_thread, join_at, join, Pace, stop, start, destroy_thread, destroy,
}

-- The status tells whether the thread is between its two assignments.
abbrev status_at : Option Position → Bool
status_at (some running) = true
status_at (some leaving) = true
status_at _ = false

abbrev pub IsConsistent : Worker → Type 0
IsConsistent w = w.started_status ≡ status_at w.server_thread

-- The steps that a thread needs to its end once the `io_service` is stopped.
abbrev steps_left : Option Position → ℕ
steps_left (some entering) = 3
steps_left (some running) = 2
steps_left (some leaving) = 1
steps_left _ = 0

abbrev is_joinable : Option Position → Bool
is_joinable none = false
is_joinable (some p) = true

-- A worker whose `io_service` is stopped, and how far its thread is.
pub record IsStopping (n : ℕ) (w : Worker) : Type 0 where
  pub stopped : w.io_stopped ≡ true
  pub consistent : IsConsistent w
  pub joinable : is_joinable w.server_thread ≡ true
  pub near : steps_left w.server_thread ≤ n

sub_zero : (n : ℕ) → n - 0 ≡ n
sub_zero n = omega arith

sub_suc : (n k : ℕ) → n - suc k ≡ n - 1 - k
sub_suc n k = omega arith

pub weaken : (m n : ℕ) (w : Worker) → m ≤ n → IsStopping m w → IsStopping n w
weaken m n w h v = ground arith

thread_step-IsStopping :
    (n : ℕ) (run : RunStep) (w : Worker) → IsStopping n w → IsStopping (n - 1) (thread_step run w)
unfolding thread_step step_at run_step
thread_step-IsStopping n goes_on w v = ground arith
thread_step-IsStopping n out_of_work w v = ground arith
thread_step-IsStopping n throws w v = ground arith

pub meanwhile-IsStopping :
    (n : ℕ) (steps : List RunStep) (w : Worker)
    → IsStopping n w
    → IsStopping (n - length steps) (meanwhile steps w)
unfolding meanwhile
meanwhile-IsStopping n [] w v = rw (sub_zero n) v
meanwhile-IsStopping n (run ∷ steps) w v =
    rw (sub_suc n (length steps))
      (meanwhile-IsStopping (n - 1) steps (thread_step run w) (thread_step-IsStopping n run w v))

pub before_try-IsStopping :
    (n k : ℕ) (steps : ℕ → List RunStep) (w : Worker)
    → IsStopping n w
    → IsStopping n (before_try steps k w)
unfolding before_try
before_try-IsStopping n zero steps w v = v
before_try-IsStopping n (suc k) steps w v =
    weaken (n - length (steps k)) n _ (omega arith) (
      meanwhile-IsStopping n (steps k) (before_try steps k w) (before_try-IsStopping n k steps w v))

-- A worker whose thread has been started and not joined.
abbrev IsLive : Worker → Type 0
IsLive w = IsConsistent w × (is_joinable w.server_thread ≡ true)

thread_step-IsLive : (run : RunStep) (w : Worker) → IsLive w → IsLive (thread_step run w)
unfolding thread_step step_at run_step
thread_step-IsLive goes_on w v = ground arith
thread_step-IsLive out_of_work w v = ground arith
thread_step-IsLive throws w v = ground arith

meanwhile-IsLive : (steps : List RunStep) (w : Worker) → IsLive w → IsLive (meanwhile steps w)
unfolding meanwhile
meanwhile-IsLive [] w v = v
meanwhile-IsLive (run ∷ steps) w v =
    meanwhile-IsLive steps (thread_step run w) (thread_step-IsLive run w v)

live : (w : Worker) → IsConsistent w → w.started_status ≡ true → IsLive w
live w c s = ground arith

stopping : (w : Worker) → IsLive w → IsStopping 3 (record w { io_stopped = true })
stopping w v = ground arith

abbrev pub IsEnded : Worker → Type 0
IsEnded w = (w.server_thread ≡ some finished) × (w.started_status ≡ false)

-- The thread of a stopped worker has run to its end.
pub IsStopping-IsEnded : (w : Worker) → IsStopping 0 w → IsEnded w
IsStopping-IsEnded w v = ground arith

joined :
    (w : Worker)
    → IsStopping 0 w
    → join_at w.server_thread w
      ≡ returns (record w { server_thread = none; started_status = false; io_stopped = true })
unfolding join_at
joined w v = ground arith

-- stop of a started worker, whose thread takes three more steps at least while it is joined,
-- returns, whatever the thread did before. The thread is not joinable then, and the status is
-- reset.
pub stop_lem :
    (pace : Pace) (w : Worker)
    → IsConsistent w
    → w.started_status ≡ true
    → 3 ≤ length pace.joining
    → stop pace w
      ≡ returns (record { started_status = false; server_thread = none; io_stopped = true })
unfolding stop wait_until join
stop_lem pace w c s fair = if_true w.started_status _ _ s ∙ joined w₃ last
  where
    w₁ : Worker
    w₁ = meanwhile pace.disconnecting w

    w₂ : Worker
    w₂ = (wait_until not pace.waiting (record w₁ { io_stopped = true })).1

    w₃ : Worker
    w₃ = meanwhile pace.joining w₂

    last : IsStopping 0 w₃
    last = weaken (3 - length pace.joining) 0 w₃ (omega arith) (
        meanwhile-IsStopping 3 pace.joining w₂ (
          before_try-IsStopping 3 _ pace.waiting (record w₁ { io_stopped = true })
            (stopping w₁ (meanwhile-IsLive pace.disconnecting w (live w c s)))))

-- The destructor of a worker that is started.
pub destroy-returns :
    (pace : Pace) (w : Worker)
    → IsConsistent w
    → w.started_status ≡ true
    → 3 ≤ length pace.joining
    → destroy pace w
      ≡ returns (record { started_status = false; server_thread = none; io_stopped = true })
unfolding destroy destroy_thread
destroy-returns pace w c s fair = ap (λ f. f >>= destroy_thread) (stop_lem pace w c s fair)

pub meanwhile-finished :
    (steps : List RunStep) (w : Worker) → IsEnded w → IsEnded (meanwhile steps w)
unfolding meanwhile thread_step step_at
meanwhile-finished [] w v = v
meanwhile-finished (run ∷ steps) w v = meanwhile-finished steps (thread_step run w) (ground arith)

pub ended_worker :
    (w : Worker) (pace : Pace) (steps : ℕ → List RunStep)
    → IsEnded w
    → (destroy pace w ≡ terminates) × (start pace steps w ≡ terminates)
unfolding destroy start stop destroy_thread new_thread
ended_worker w pace steps (t, s) = (rw (s, t) refl, rw (s, t) refl)

pub run-ends :
    (run next : RunStep) (w : Worker)
    → run ≢ goes_on
    → w.server_thread ≡ some running
    → IsEnded (thread_step next (thread_step run w))
unfolding thread_step step_at run_step
run-ends goes_on next w e r = absurd (e refl)
run-ends out_of_work next w e r = ground arith
run-ends throws next w e r = ground arith

-- When run has ended by itself, for want of work or by an exception, and the thread has reset the
-- status, the destructor and start both end the program: the thread is still joinable, and stop
-- does not join it.
pub destroy-terminates :
    (run next : RunStep) (more : List RunStep) (pace : Pace) (steps : ℕ → List RunStep) (w : Worker)
    → run ≢ goes_on
    → w.server_thread ≡ some running
    → (destroy pace (meanwhile (run ∷ next ∷ more) w) ≡ terminates)
      × (start pace steps (meanwhile (run ∷ next ∷ more) w) ≡ terminates)
unfolding meanwhile
destroy-terminates run next more pace steps w ended r =
    ended_worker (meanwhile more (thread_step next (thread_step run w))) pace steps
      (meanwhile-finished more (thread_step next (thread_step run w)) (run-ends run next w ended r))
