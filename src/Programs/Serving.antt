-- ===== src/Programs/Serving.antt =====
-- The server program, server/src/main.cpp, on the thread of its `tcp_server`.
use diginext.Base.{
  ℕ, zero, suc, ◌+◌, ◌<◌, ◌≡◌, ◌≢◌, refl, sym, subst, ap, ◌∙◌, List, [], ◌∷◌, All, length,
  replicate, Outcome, ok, out_of_fuel, bind_step, ◌>>=◌, if◌then◌else◌, arith,
}
use diginext.Tcp.Worker.{
  Worker, Fate, returns, terminates, blocks, RunStep, goes_on, Pace, meanwhile, thread_step,
  destroy, idle,
}
use diginext.Tcp.Worker.Wait.{count_from}
use diginext.Tcp.Worker.Ends.{IsEnded, ended_worker, meanwhile-finished, run-ends}
use diginext.Tcp.Worker.Stopped.{serving, meanwhile-running, start-idle}
use diginext.Storage.Host.Life

-- What the thread does meanwhile: during `stop`, between the tries of `waitStart`, in the sleep of
-- `Start`, in each sleep of `main`, and between its loop and the destructor.
pub record Schedule : Type 0 where
  pub pace : Pace
  pub starting : ℕ → List RunStep
  pub settling : List RunStep
  pub sleeps : ℕ → List RunStep
  pub leaving : List RunStep

-- The loop of `main`, from the i-th sleep on.
unfoldable serving_loop : ℕ → (ℕ → List RunStep) → ℕ → Worker → Outcome Worker
serving_loop zero sleeps i w = out_of_fuel
serving_loop (suc fuel) sleeps i w =
    let rest : Outcome Worker = serving_loop fuel sleeps (suc i) (meanwhile (sleeps i) w) in
    if Life.started w then rest else ok w

-- The loop, and then the destructor of `tcp_server`.
unfoldable after_start : ℕ → Schedule → Fate → Outcome Fate
unfolding serving_loop
after_start fuel s (returns w) = do
  w' ← serving_loop fuel s.sleeps 0 w
  ok (destroy s.pace (meanwhile s.leaving w'))
after_start fuel s terminates = ok terminates
after_start fuel s (blocks w) = ok (blocks w)

-- `main` of the server: how its process ends. The switch of the log flags is left out.
unfoldable pub server_main : ℕ → Schedule → Outcome Fate
unfolding after_start
server_main fuel s = after_start fuel s (Life.start s.pace s.starting s.settling idle)

-- `run` goes on.
abbrev IsQuiet : List RunStep → Type 0
IsQuiet steps = All (λ run. run ≡ goes_on) steps

IsQuiet-replicate :
    (steps : List RunStep) → IsQuiet steps → steps ≡ replicate (length steps) goes_on
IsQuiet-replicate [] h = refl
IsQuiet-replicate (run ∷ steps) h = rw (h.0, sym (IsQuiet-replicate steps h.1)) refl

meanwhile-quiet : (steps : List RunStep) → IsQuiet steps → meanwhile steps serving ≡ serving
meanwhile-quiet steps h =
    ap (λ l. meanwhile l serving) (IsQuiet-replicate steps h)
    ∙ meanwhile-running (length steps) serving refl refl

start-serving :
    (s : Schedule) (first : List RunStep)
    → s.starting 0 ≡ goes_on ∷ first
    → IsQuiet first
    → IsQuiet s.settling
    → Life.start s.pace s.starting s.settling idle ≡ returns serving
start-serving s first e h k =
    Life.start_lem s.pace s.starting s.settling idle serving refl (
      start-idle (length first) s.pace s.starting
        (e ∙ ap (λ l. goes_on ∷ l) (IsQuiet-replicate first h)))
    ∙ ap returns (meanwhile-quiet s.settling k)

first_sleep :
    (fuel i : ℕ) (sleeps : ℕ → List RunStep)
    → serving_loop (suc fuel) sleeps i serving
      ≡ serving_loop fuel sleeps (suc i) (meanwhile (sleeps i) serving)
unfolding serving_loop Life.started
first_sleep fuel i sleeps = refl

sleep_quiet :
    (fuel i : ℕ) (sleeps : ℕ → List RunStep)
    → IsQuiet (sleeps i)
    → serving_loop (suc fuel) sleeps i serving ≡ serving_loop fuel sleeps (suc i) serving
sleep_quiet fuel i sleeps h =
    first_sleep fuel i sleeps
    ∙ ap (λ w. serving_loop fuel sleeps (suc i) w) (meanwhile-quiet (sleeps i) h)

serving_loop-ended :
    (fuel i : ℕ) (sleeps : ℕ → List RunStep) (w : Worker)
    → IsEnded w
    → serving_loop (suc fuel) sleeps i w ≡ ok w
unfolding serving_loop Life.started
serving_loop-ended fuel i sleeps w (t, e) = rw e refl

run-IsEnded :
    (steps : List RunStep) (run next : RunStep) (more : List RunStep)
    → steps ≡ run ∷ next ∷ more
    → run ≢ goes_on
    → IsEnded (meanwhile steps serving)
run-IsEnded steps run next more e h =
    subst (λ l. IsEnded (meanwhile l serving)) (sym e)
      (unfold meanwhile in
        meanwhile-finished more (thread_step next (thread_step run serving))
          (run-ends run next serving h refl))

serving_loop-ends :
    (fuel n i : ℕ) (sleeps : ℕ → List RunStep) (run next : RunStep) (more : List RunStep)
    → All (λ j. IsQuiet (sleeps j)) (count_from i n)
    → sleeps (i + n) ≡ run ∷ next ∷ more
    → run ≢ goes_on
    → suc n < fuel
    → (w : Worker) × IsEnded w × (serving_loop fuel sleeps i serving ≡ ok w)
serving_loop-ends zero n i sleeps run next more h e k enough = absurd (omega arith)
serving_loop-ends (suc zero) n i sleeps run next more h e k enough = absurd (omega arith)
serving_loop-ends (suc (suc fuel)) zero i sleeps run next more h e k enough =
    let ended = run-IsEnded (sleeps i) run next more (ap sleeps (omega arith) ∙ e) k in
    (
      meanwhile (sleeps i) serving,
      ended,
      first_sleep (suc fuel) i sleeps
          ∙ serving_loop-ended fuel (suc i) sleeps (meanwhile (sleeps i) serving) ended,
    )
serving_loop-ends (suc (suc fuel)) (suc n) i sleeps run next more h e k enough =
    let (w, ended, loop) =
      serving_loop-ends (suc fuel) n (suc i) sleeps run next more h.1 (ap sleeps (omega arith) ∙ e)
        k (omega arith) in
    (w, ended, sleep_quiet (suc fuel) i sleeps h.0 ∙ loop)

serving_loop-endless :
    (fuel i : ℕ) (sleeps : ℕ → List RunStep)
    → ((j : ℕ) → IsQuiet (sleeps j))
    → serving_loop fuel sleeps i serving ≡ out_of_fuel
serving_loop-endless zero i sleeps h = unfold serving_loop in refl
serving_loop-endless (suc fuel) i sleeps h =
    sleep_quiet fuel i sleeps (h i) ∙ serving_loop-endless fuel (suc i) sleeps h

-- The server program, whose thread is in run before the first sleep of waitStart ends, ends by
-- std::terminate if run ends by itself in some sleep of main, for want of work or by an exception,
-- and the thread resets the status in that sleep.
pub server_main-terminates :
    (fuel n : ℕ) (s : Schedule) (first : List RunStep) (run next : RunStep) (more : List RunStep)
    → s.starting 0 ≡ goes_on ∷ first
    → IsQuiet first
    → IsQuiet s.settling
    → All (λ i. IsQuiet (s.sleeps i)) (count_from 0 n)
    → s.sleeps n ≡ run ∷ next ∷ more
    → run ≢ goes_on
    → suc n < fuel
    → server_main fuel s ≡ ok terminates
unfolding server_main after_start
server_main-terminates fuel n s first run next more e quiet settled h ends k enough =
    let (w, ended, loop) =
      serving_loop-ends fuel n 0 s.sleeps run next more h (ap s.sleeps (omega arith) ∙ ends) k
        enough in
    ap (after_start fuel s) (start-serving s first e quiet settled)
    ∙ bind_step _ loop (
        ap ok
          (ended_worker (meanwhile s.leaving w) s.pace s.starting
            (meanwhile-finished s.leaving w ended)).0)

-- If run goes on for ever, the server program never ends: no fuel is enough.
pub server_main-endless :
    (fuel : ℕ) (s : Schedule) (first : List RunStep)
    → s.starting 0 ≡ goes_on ∷ first
    → IsQuiet first
    → IsQuiet s.settling
    → ((i : ℕ) → IsQuiet (s.sleeps i))
    → server_main fuel s ≡ out_of_fuel
unfolding server_main after_start
server_main-endless fuel s first e quiet settled h =
    ap (after_start fuel s) (start-serving s first e quiet settled)
    ∙ ap (λ o. o >>= λ w. ok (destroy s.pace (meanwhile s.leaving w)))
        (serving_loop-endless fuel 0 s.sleeps h)
