-- ===== src/Programs/Loop.antt =====
-- The loop of `main` of the client program, client/src/main.cpp: a `StorageClient` for each line of
-- the input, from its constructor to its destructor.
pub mod Requests
mod Tests
use diginext.Base.{
  ℕ, zero, suc, Option, none, List, [], ◌∷◌, ◌++◌, String, codes, eqb, Outcome, ok, out_of_fuel,
  ◌>>=◌, if◌then◌else◌,
}
use diginext.Tcp.Connection.{Connection}
use diginext.Tcp.Worker.{
  Worker, Fate, returns, terminates, blocks, RunStep, Pace, meanwhile, destroy, idle,
}
use diginext.Tcp.Client
use diginext.Tcp.Client.{Client, ClientEffect}
use diginext.Storage.Client.{StorageClient, connect, send}
use diginext.Programs.{wait_answer}

-- What happens around one client of `main`: the memory, the pointer and the uuid of the connection
-- that `Connect` makes; what the thread does during the destructor, between the tries of
-- `waitStart`, and from the end of `Connect` to the destructor; what its handlers do to the
-- connection between `Connect` and `send`; and what `getAnswer` gives at each try of `waitAnswer`.
pub record Visit : Type 0 where
  pub memory : ℕ → Connection
  pub pointer : ℕ
  pub uuid : String
  pub pace : Pace
  pub starting : ℕ → List RunStep
  pub settling : List RunStep
  pub handlers : Client.Action
  pub answers : ℕ → List ℕ

-- `StorageClient::create()`, with the address and the port by default.
unfoldable pub new_client : (ℕ → Connection) → StorageClient
new_client memory = record {
  tcp_client = record { client = record { objects = memory; tcp_conn = none }; worker = idle };
  host = "::1";
  port = 9911;
  answer = [];
}

-- What `Connect`, the handlers and `send` do, in order, and the answer that is printed.
abbrev pub Result : Type 0
Result = List ClientEffect × Option (List ℕ)

-- `send`, `waitAnswer` and the destructor, once `Connect` has returned and done `es`. What the
-- destructor asks of the connection is left out.
unfoldable pub after_connect :
    Visit → List ℕ → List ClientEffect → Client → Worker → Outcome (Result × Fate)
after_connect v request es c w = do
  (c₁, fs) ← v.handlers c
  (c₂, gs) ← send request c₁
  ok ((es ++ (fs ++ gs), (wait_answer v.answers).0), destroy v.pace (meanwhile v.settling w))

-- The branch of `main` for a request.
unfoldable pub visit : Visit → List ℕ → Outcome (Result × Fate)
unfolding new_client after_connect
visit v request = do
  let called = connect v.pointer v.uuid v.pace v.starting (new_client v.memory)
  (c, es) ← called.0
  elim called.1 [
    | returns w ↦ after_connect v request es c w
    | terminates ↦ ok ((es, none), terminates)
    | blocks w ↦ ok ((es, none), blocks w)
  ]

-- How `main` ends: by `break`, by `std::terminate`, or never, in a join.
pub data Ending : Type 0 where
  quits terminated blocked : Ending

abbrev pub quit_request : List ℕ
quit_request = codes "quit"

-- `std::getline(std::cin, request)`: at the end of the input the string stays empty.
abbrev get_line : List (List ℕ) → List ℕ × List (List ℕ)
get_line [] = ([], [])
get_line (line ∷ lines) = (line, lines)

-- After a visit, `main` goes on with the `rest` if the destructor returns.
unfoldable pub go_on :
    Result × Fate → Outcome (List Result × Ending) → Outcome (List Result × Ending)
go_on (result, returns w) rest = do (more, ending) ← rest; ok (result ∷ more, ending)
go_on (result, terminates) rest = ok (result ∷ [], terminated)
go_on (result, blocks w) rest = ok (result ∷ [], blocked)

-- The loop, from the i-th visit on, over the lines of the input: the result of each request, and
-- how `main` ends.
unfoldable pub main_loop : ℕ → (ℕ → Visit) → ℕ → List (List ℕ) → Outcome (List Result × Ending)
unfolding visit go_on
main_loop zero visits i lines = out_of_fuel
main_loop (suc fuel) visits i lines =
    let next = get_line lines in
    let rest : Outcome (List Result × Ending) = main_loop fuel visits (suc i) next.1 in
    let served : Outcome (List Result × Ending) = (visit (visits i) next.0 >>= λ r. go_on r rest) in
    if eqb next.0 quit_request then ok ([], quits) else served
