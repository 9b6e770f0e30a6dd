-- ===== src/Tcp/Worker.antt =====
-- The thread of `tcp_server` and of `tcp_client`: `start`, `stop`, the destructor and the body of
-- the thread. The two classes have the same code here, but for what `stop` disconnects, which
-- touches nothing that this module speaks of.
pub mod Wait
pub mod Ends
pub mod Stopped
mod Tests
use diginext.Base.{
  ℕ, zero, suc, ◌≡◌, Bool, true, false, not, Option, none, some, List, [], ◌∷◌, if◌then◌else◌,
}
use diginext.Tcp.Worker.Wait.{wait_from, max_try}

-- Where the body of the thread stands: before it sets the status, in `io_service->run()`, before it
-- resets the status, and at its end.
pub data Position : Type 0 where
  entering running leaving finished : Position

-- `started_status`, `server_thread` (`none` is not joinable), and whether the `io_service` is
-- stopped.
pub record Worker : Type 0 where
  pub started_status : Bool
  pub server_thread : Option Position
  pub io_stopped : Bool

-- The end of a call: `std::terminate` ends the program, and a join may block.
pub data Fate : Type 0 where
  returns : Worker → Fate
  terminates : Fate
  blocks : Worker → Fate

infixl 5 ◌>>=◌
abbrev pub ◌>>=◌ : Fate → (Worker → Fate) → Fate
returns w >>= f = f w
terminates >>= f = terminates
blocks w >>= f = blocks w

-- The constructor.
abbrev pub idle : Worker
idle = record { started_status = false; server_thread = none; io_stopped = false }

-- What `io_service->run()` does next: it runs on, it has no work left, or a handler throws.
pub data RunStep : Type 0 where
  goes_on out_of_work throws : RunStep

-- `run` returns when it has no work left, which stops the `io_service`, at once when that is
-- stopped, and by an exception.
pub run_step : RunStep → Worker → Worker
run_step goes_on w = record w { server_thread = some (if w.io_stopped then leaving else running) }
run_step out_of_work w = record w { server_thread = some leaving; io_stopped = true }
run_step throws w = record w { server_thread = some leaving }

-- One step of the thread. `io_service` is not null before the end of the destructor.
pub step_at : Option Position → RunStep → Worker → Worker
step_at none run w = w
step_at (some entering) run w = record w { started_status = true; server_thread = some running }
step_at (some running) run w = run_step run w
step_at (some leaving) run w = record w { started_status = false; server_thread = some finished }
step_at (some finished) run w = w

pub thread_step : RunStep → Worker → Worker
thread_step run w = step_at w.server_thread run w

-- The steps that the thread takes meanwhile.
unfoldable pub meanwhile : List RunStep → Worker → Worker
meanwhile [] w = w
meanwhile (run ∷ steps) w = meanwhile steps (thread_step run w)

-- The thread's steps before the n-th try of a wait.
pub before_try : (ℕ → List RunStep) → ℕ → Worker → Worker
before_try steps zero w = w
before_try steps (suc n) w = meanwhile (steps n) (before_try steps n w)

-- `waitStart` and `waitStop`, with the result and the state after it.
pub wait_until : (Bool → Bool) → (ℕ → List RunStep) → Worker → Bool × Worker
wait_until test steps w =
    let r = wait_from max_try 0 (λ i. test (before_try steps i w).started_status) in
    (r.0, before_try steps r.1 w)

-- `server_thread = std::thread(...)`: terminates if the thread is joinable.
pub new_thread : Worker → Fate
new_thread w = elim w.server_thread [
  | none ↦ returns (record w { server_thread = some entering })
  | some p ↦ terminates
]

-- `join()`, with the steps that the thread takes at most.
pub join_at : Option Position → Worker → Fate
join_at none w = returns w
join_at (some finished) w = returns (record w { server_thread = none })
join_at (some p) w = blocks w

pub join : List RunStep → Worker → Fate
join steps w = let w' = meanwhile steps w in join_at w'.server_thread w'

-- What the thread does during a call of `stop`: after `started()`, between the tries of `waitStop`,
-- and while it is joined.
pub record Pace : Type 0 where
  pub disconnecting : List RunStep
  pub waiting : ℕ → List RunStep
  pub joining : List RunStep

-- `stop`.
pub stop : Pace → Worker → Fate
stop pace w =
    if w.started_status
    then (let w₁ = meanwhile pace.disconnecting w in
        let w₂ = (wait_until not pace.waiting (record w₁ { io_stopped = true })).1 in
        join pace.joining w₂)
    else returns w

-- `start`, with the thread's steps between the tries of `waitStart`.
pub start : Pace → (ℕ → List RunStep) → Worker → Fate
start pace steps w = do
  w₁ ← (if w.started_status then stop pace w else returns w)
  w₂ ← new_thread w₁
  returns (wait_until (λ s. s) steps w₂).1

-- The destructor: `stop`, and then that of `server_thread`, which terminates if it is joinable.
pub destroy_thread : Worker → Fate
destroy_thread w = elim w.server_thread [ none ↦ returns w | some p ↦ terminates ]

pub destroy : Pace → Worker → Fate
destroy pace w = stop pace w >>= destroy_thread
