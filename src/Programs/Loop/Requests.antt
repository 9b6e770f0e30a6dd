-- ===== src/Programs/Loop/Requests.antt =====
-- What the loop of `main` prints, and how it ends.
use diginext.Base.{
  ℕ, zero, suc, ◌<◌, ◌≤◌, ◌≡◌, ◌≢◌, refl, ap, ◌∙◌, true, false, Bool-cases, inl, inr, List, [], ◌∷◌,
  ◌++◌, ◌+◌, ◌-◌, ap₂, none, out_of_fuel, append-nil, eqb, eqb-true, eqb_refl, length, replicate,
  ok, bind_step, arith,
}
use diginext.Tcp.Worker.{
  Worker, returns, terminates, RunStep, goes_on, meanwhile, thread_step, destroy,
}
use diginext.Tcp.Worker.Ends.{destroy-returns, destroy-terminates}
use diginext.Tcp.Worker.Stopped.{serving, meanwhile-running, start-idle}
use diginext.Tcp.Client.{Client, ClientEffect}
use diginext.Storage.Client.{connect, send}
use diginext.Storage.Client.Connection.{connect-start}
use diginext.Programs.{wait_answer}
use diginext.Programs.Loop.{
  Visit, Result, new_client, after_connect, visit, Ending, quits, terminated, quit_request, go_on,
  main_loop,
}

-- The thread is in run before the first sleep of waitStart ends, and send is defined when it is
-- called.
pub record IsSent (v : Visit) (request : List ℕ) : Type 0 where
  pub steps : ℕ
  pub starts : v.starting 0 ≡ goes_on ∷ replicate steps goes_on
  pub connected : Client
  pub ready : Client
  pub done : Client
  pub asked : List ClientEffect
  pub handled : List ClientEffect
  pub written : List ClientEffect
  pub connects :
      (connect v.pointer v.uuid v.pace v.starting (new_client v.memory)).0 ≡ ok (connected, asked)
  pub handles : v.handlers connected ≡ ok (ready, handled)
  pub sends : send request ready ≡ ok (done, written)

-- run goes on until the destructor, which is given three steps at least to join the thread.
abbrev pub IsServed : Visit → Type 0
IsServed v = ((n : ℕ) × (v.settling ≡ replicate n goes_on)) × (3 ≤ length v.pace.joining)

-- run goes on for a while, and then ends by itself, before the destructor.
abbrev pub IsLost : Visit → Type 0
IsLost v =
    (n : ℕ) × (run next : RunStep) × (more : List RunStep) × (run ≢ goes_on)
    × (v.settling ≡ replicate n goes_on ++ run ∷ next ∷ more)

connect-fate :
    (v : Visit) (request : List ℕ)
    → IsSent v request
    → (connect v.pointer v.uuid v.pace v.starting (new_client v.memory)).1 ≡ returns serving
unfolding new_client
connect-fate v request s =
    connect-start v.pointer v.uuid v.pace v.starting (new_client v.memory) refl
    ∙ start-idle s.steps v.pace v.starting s.starts

-- What a visit comes to.
abbrev pub result_of : (v : Visit) (request : List ℕ) → IsSent v request → Result
result_of v request s = (s.asked ++ (s.handled ++ s.written), (wait_answer v.answers).0)

visit-IsSent :
    (v : Visit) (request : List ℕ)
    → (s : IsSent v request)
    → visit v request ≡ ok (result_of v request s, destroy v.pace (meanwhile v.settling serving))
unfolding visit after_connect
visit-IsSent v request s =
    bind_step _ s.connects
      (rw (connect-fate v request s) (bind_step _ s.handles (bind_step _ s.sends refl)))

visit-IsServed :
    (v : Visit) (request : List ℕ)
    → (s : IsSent v request) → IsServed v
    → (w : Worker) × (visit v request ≡ ok (result_of v request s, returns w))
visit-IsServed v request s ((n, e), fair) = (
  record { started_status = false; server_thread = none; io_stopped = true },
  visit-IsSent v request s
      ∙ ap (λ l. ok (result_of v request s, destroy v.pace (meanwhile l serving))) e
      ∙ ap (λ w. ok (result_of v request s, destroy v.pace w))
          (meanwhile-running n serving refl refl)
      ∙ ap (λ f. ok (result_of v request s, f)) (destroy-returns v.pace serving refl refl fair),
)

meanwhile-append :
    (first later : List RunStep) (w : Worker)
    → meanwhile (first ++ later) w ≡ meanwhile later (meanwhile first w)
unfolding meanwhile
meanwhile-append [] later w = refl
meanwhile-append (run ∷ first) later w = meanwhile-append first later (thread_step run w)

visit-IsLost :
    (v : Visit) (request : List ℕ)
    → (s : IsSent v request) → IsLost v
    → visit v request ≡ ok (result_of v request s, terminates)
visit-IsLost v request s (n, run, next, more, ends, e) =
    visit-IsSent v request s
    ∙ ap (λ w. ok (result_of v request s, destroy v.pace w))
        (ap (λ l. meanwhile l serving) e
          ∙ meanwhile-append (replicate n goes_on) (run ∷ next ∷ more) serving
          ∙ ap (meanwhile (run ∷ next ∷ more)) (meanwhile-running n serving refl refl))
    ∙ ap (λ f. ok (result_of v request s, f))
        (destroy-terminates run next more v.pace v.starting serving ends refl).0

IsRequest-eqb : (line : List ℕ) → line ≢ quit_request → eqb line quit_request ≡ false
IsRequest-eqb line h = elim (Bool-cases (eqb line quit_request)) [
  | inl e ↦ absurd (h (eqb-true _ _ e))
  | inr e ↦ e
]

-- From the i-th visit on, the lines are requests whose visits are served.
abbrev pub AllServed : (ℕ → Visit) → ℕ → List (List ℕ) → Type 0
AllServed visits i [] = Unit
AllServed visits i (line ∷ lines) =
    (line ≢ quit_request)
    × IsSent (visits i) line
    × IsServed (visits i)
    × AllServed visits (suc i) lines

-- The results of the visits from the i-th on, one for each line.
unfoldable pub results_of :
    (visits : ℕ → Visit) (i : ℕ) (lines : List (List ℕ)) → AllServed visits i lines → List Result
results_of visits i [] h = []
results_of visits i (line ∷ lines) (q, s, k, h) =
    result_of (visits i) line s ∷ results_of visits (suc i) lines h

main_loop-AllServed :
    (fuel more : ℕ) (visits : ℕ → Visit) (i j : ℕ) (lines after : List (List ℕ))
    (last : List Result × Ending)
    → (h : AllServed visits i lines) → fuel ≡ length lines + more
    → j ≡ length lines + i
    → main_loop more visits j after ≡ ok last
    → main_loop fuel visits i (lines ++ after) ≡ ok (results_of visits i lines h ++ last.0, last.1)
unfolding main_loop results_of go_on
main_loop-AllServed fuel more visits i j [] after last h f g e =
    ap₂ (λ n k. main_loop n visits k after) (omega (arith, f)) (omega (arith, g)) ∙ e
main_loop-AllServed zero more visits i j (line ∷ lines) after last h f g e =
    absurd (omega (arith, f))
main_loop-AllServed (suc fuel) more visits i j (line ∷ lines) after last (q, s, k, h) f g e =
    let (w, served) = visit-IsServed (visits i) line s k in
    let rest =
      main_loop-AllServed fuel more visits (suc i) j lines after last h (omega (arith, f))
        (omega (arith, g)) e in
    rw (IsRequest-eqb line q) (bind_step _ served (bind_step _ rest refl))

-- Each line of the input before the first "quit" is served: the thread is in run before the first
-- sleep of waitStart ends, the handlers and send are defined, and run goes on until the destructor,
-- which is given three steps at least to join the thread. Then main does, for each of these lines
-- and in order, what Connect, the handlers and send do, prints what waitAnswer prints, and ends by
-- break.
pub main_loop-quit :
    (fuel : ℕ) (visits : ℕ → Visit) (lines after : List (List ℕ))
    → (h : AllServed visits 0 lines) → length lines < fuel
    → main_loop fuel visits 0 (lines ++ quit_request ∷ after)
      ≡ ok (results_of visits 0 lines h, quits)
unfolding main_loop
main_loop-quit fuel visits lines after h enough =
    main_loop-AllServed fuel (suc (fuel - suc (length lines))) visits 0 (length lines) lines
      (quit_request ∷ after) ([], quits) h (omega arith) (omega arith)
      (rw (eqb_refl quit_request) refl)
    ∙ ap (λ l. ok (l, quits)) (append-nil (results_of visits 0 lines h))

-- Each line of the input before a request is served: the thread is in run before the first sleep of
-- waitStart ends, the handlers and send are defined, and run goes on until the destructor, which is
-- given three steps at least to join the thread. For that request, which starts and sends in the
-- same way, run ends by itself before the destructor, for want of work or by an exception, and the
-- thread resets the status. Then main ends by std::terminate, after it has done, for each of these
-- lines and that request, what Connect, the handlers and send do, and has printed what waitAnswer
-- prints.
pub main_loop-terminates :
    (fuel : ℕ) (visits : ℕ → Visit) (lines after : List (List ℕ)) (line : List ℕ)
    → (h : AllServed visits 0 lines) → line ≢ quit_request
    → (s : IsSent (visits (length lines)) line) → IsLost (visits (length lines))
    → length lines < fuel
    → main_loop fuel visits 0 (lines ++ line ∷ after)
      ≡ ok
          (results_of visits 0 lines h ++ result_of (visits (length lines)) line s ∷ [], terminated)
unfolding main_loop go_on
main_loop-terminates fuel visits lines after line h q s lost enough =
    main_loop-AllServed fuel (suc (fuel - suc (length lines))) visits 0 (length lines) lines
      (line ∷ after) (result_of (visits (length lines)) line s ∷ [], terminated) h (omega arith)
      (omega arith) (rw (IsRequest-eqb line q) (bind_step _ (visit-IsLost _ line s lost) refl))

-- No line of the input is "quit", and each line, and each empty request at the end of the input, is
-- served: the thread is in run before the first sleep of waitStart ends, the handlers and send are
-- defined, and run goes on until the destructor, which is given three steps at least to join the
-- thread. Then main never ends: no fuel is enough.
pub main_loop-endless :
    (fuel i : ℕ) (visits : ℕ → Visit) (lines : List (List ℕ))
    → AllServed visits i lines
    → ((j : ℕ) → IsSent (visits j) [] × IsServed (visits j))
    → main_loop fuel visits i lines ≡ out_of_fuel
unfolding main_loop go_on
main_loop-endless zero i visits lines h k = refl
main_loop-endless (suc fuel) i visits [] h k =
    let (w, served) = visit-IsServed (visits i) [] (k i).0 (k i).1 in
    rw (IsRequest-eqb [] (λ e. absurd (ground (arith, e)))) (
      bind_step _ served (
        ap (go_on (result_of (visits i) [] (k i).0, returns w))
          (main_loop-endless fuel (suc i) visits [] tt k)))
main_loop-endless (suc fuel) i visits (line ∷ lines) (q, s, served, h) k =
    let (w, visited) = visit-IsServed (visits i) line s served in
    rw (IsRequest-eqb line q) (
      bind_step _ visited (
        ap (go_on (result_of (visits i) line s, returns w))
          (main_loop-endless fuel (suc i) visits lines h k)))
