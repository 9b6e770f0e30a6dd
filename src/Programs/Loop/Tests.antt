-- ===== src/Programs/Loop/Tests.antt =====
-- Witnesses of the theorems on the loop of `main`.
use diginext.Base.{
  ℕ, ◌≡◌, refl, some, false, List, [], ◌∷◌, ◌++◌, codes, ltb, eqb, bytes_discrete, ok, out_of_fuel,
  bind_step, replicate, if◌then◌else◌, arith,
}
use diginext.Base64.{encoding_table}
use diginext.Base64.Reference.{reference, symbol}
use diginext.Tcp.Message.{frame}
use diginext.Tcp.Message.Stream.{frame-reference}
use diginext.Tcp.Connection.{Connection, create}
use diginext.Tcp.Connection.Writer.{send_lem, with_frame, begun_write}
use diginext.Tcp.Worker.{RunStep, goes_on, out_of_work}
use diginext.Tcp.Client
use diginext.Tcp.Client.{Client, set_object, handle_effects, call}
use diginext.Storage.Client.{send}
use diginext.Storage.Client.Connection.{connect-returns}
use diginext.Programs.{wait_answer, wait_answer_from}
use diginext.Programs.Loop.{Visit, new_client, quit_request, main_loop, quits, terminated}
use diginext.Programs.Loop.Requests.{
  IsSent, IsServed, AllServed, result_of, results_of, main_loop-quit, main_loop-terminates,
  main_loop-endless,
}

-- The connection has been started.
abbrev connection : Connection
connection = record (create "a") { send_start = some false }

abbrev ready : Client
ready = record { objects = λ k. connection; tcp_conn = some 1 }

-- The answer is there from the third try on.
abbrev settled_by : List RunStep → Visit
settled_by steps = record {
  memory = λ k. create "b";
  pointer = 1;
  uuid = "a";
  pace = record { disconnecting = []; waiting = λ i. []; joining = replicate 3 goes_on };
  starting = λ i. goes_on ∷ goes_on ∷ [];
  settling = steps;
  handlers = λ c. ok (ready, []);
  answers = λ i. if ltb i 2 then [] else codes "ok";
}

abbrev good : Visit
good = settled_by (replicate 5 goes_on)

-- The server ends the connection while `waitAnswer` sleeps.
abbrev bad : Visit
bad = settled_by (goes_on ∷ out_of_work ∷ goes_on ∷ [])

hello_frame : frame (codes "hello") ≡ ok (codes "aGVsbG8=\n")
unfolding reference symbol encoding_table
hello_frame = frame-reference (codes "hello") (omega arith)

empty_frame : frame (codes "") ≡ ok (codes "\n")
unfolding reference symbol encoding_table
empty_frame = frame-reference (codes "") (omega arith)

settled_by-IsSent :
    (steps : List RunStep) (request f : List ℕ)
    → frame request ≡ ok f
    → IsSent (settled_by steps) request
unfolding create send Client.send call
settled_by-IsSent steps request f e =
    let (d, es, run) =
      connect-returns 1 "a" good.pace good.starting (new_client good.memory)
        (unfold new_client in refl) in
    record {
      steps = 1;
      starts = refl;
      connected = d;
      ready = ready;
      done = set_object 1 (with_frame f connection) ready;
      asked = es;
      handled = [];
      written =
          handle_effects 1 (begun_write false connection.send_buffer f)
            (set_object 1 (with_frame f connection) ready);
      connects = run;
      handles = refl;
      sends = bind_step _ (send_lem request f connection false e refl) refl;
    }

good-IsServed : IsServed good
good-IsServed = ((5, refl), omega arith)

hello_served : AllServed (λ i. good) 0 (codes "hello" ∷ [])
hello_served = (
  (λ e. absurd (ground (arith, e))),
  settled_by-IsSent (replicate 5 goes_on) (codes "hello") (codes "aGVsbG8=\n") hello_frame,
  good-IsServed,
  tt,
)

main_loop-quit_example :
    main_loop 2 (λ i. good) 0 ((codes "hello" ∷ []) ++ quit_request ∷ [])
    ≡ ok (results_of (λ i. good) 0 (codes "hello" ∷ []) hello_served, quits)
main_loop-quit_example =
    main_loop-quit 2 (λ i. good) (codes "hello" ∷ []) [] hello_served (omega arith)

answer_run : (wait_answer good.answers).0 ≡ some (codes "ok")
unfolding wait_answer wait_answer_from eqb bytes_discrete
answer_run = refl

bad_sent : IsSent bad (codes "hello")
bad_sent =
    settled_by-IsSent (goes_on ∷ out_of_work ∷ goes_on ∷ []) (codes "hello") (codes "aGVsbG8=\n")
      hello_frame

-- The second visit is lost.
abbrev visits : ℕ → Visit
visits i = if ltb i 1 then good else bad

main_loop-terminates_example :
    main_loop 2 visits 0 ((codes "hello" ∷ []) ++ codes "hello" ∷ codes "quit" ∷ [])
    ≡ ok (
      results_of visits 0 (codes "hello" ∷ []) hello_served
          ++ result_of bad (codes "hello") bad_sent ∷ [],
      terminated,
    )
main_loop-terminates_example =
    main_loop-terminates 2 visits (codes "hello" ∷ []) (codes "quit" ∷ []) (codes "hello")
      hello_served (λ e. absurd (ground (arith, e))) bad_sent
      (1, out_of_work, goes_on, [], (λ e. absurd (ground (arith, e))), refl) (omega arith)

main_loop-endless_example : main_loop 100 (λ i. good) 0 (codes "hello" ∷ []) ≡ out_of_fuel
main_loop-endless_example =
    main_loop-endless 100 0 (λ i. good) (codes "hello" ∷ []) hello_served
      (λ j. (
        settled_by-IsSent (replicate 5 goes_on) (codes "") (codes "\n") empty_frame,
        good-IsServed,
      ))
