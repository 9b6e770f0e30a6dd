-- ===== src/Programs/Tests.antt =====
-- Witnesses of the theorems on the programs.
use diginext.Base.{
  ℕ, ◌≡◌, refl, some, List, [], ◌∷◌, codes, ltb, ok, if◌then◌else◌, arith, eqb, bytes_discrete,
}
use diginext.Programs.{wait_answer, wait_answer_from}
use diginext.Log.{separator, log, log_console, level_name}
use diginext.Programs.Logging.{log_main}
use diginext.Programs.Answers.{IsAnswered, wait_answer_lem}
use diginext.Tcp.Worker.{terminates, RunStep, goes_on, throws}
use diginext.Programs.Serving.{Schedule, server_main, server_main-terminates}

-- The answer is there from the third try on.
abbrev late : ℕ → List ℕ
late i = if ltb i 2 then [] else codes "ok"

wait_answer_lem_example : IsAnswered 15 0 late (wait_answer late)
wait_answer_lem_example = wait_answer_lem late

wait_answer_run : wait_answer late ≡ (some (codes "ok"), 2)
unfolding wait_answer wait_answer_from eqb bytes_discrete
wait_answer_run = refl

abbrev quiet : List RunStep
quiet = goes_on ∷ goes_on ∷ []

-- A handler throws in the third sleep of `main`.
abbrev faulty : Schedule
faulty = record {
  pace = record { disconnecting = []; waiting = λ i. []; joining = [] };
  starting = λ i. quiet;
  settling = quiet;
  sleeps = λ i. if ltb i 2 then quiet else throws ∷ goes_on ∷ [];
  leaving = [];
}

server_main-terminates_example : server_main 4 faulty ≡ ok terminates
server_main-terminates_example =
    server_main-terminates 4 2 faulty (goes_on ∷ []) throws goes_on [] refl (refl, tt)
      (refl, (refl, tt)) ((refl, (refl, tt)), ((refl, (refl, tt)), tt)) refl (cc) (omega arith)

abbrev sound : Schedule
sound = record faulty { sleeps = λ i. quiet }

log_main_run :
    log_main
    ≡ separator
      ∷ codes "test : trace : Test Trace"
      ∷ separator
      ∷ codes "test : debug : Test Debug"
      ∷ separator
      ∷ codes "test : info : Test Info"
      ∷ separator
      ∷ codes "test : warning : Test Warning"
      ∷ separator
      ∷ codes "test : error : Test Error"
      ∷ separator
      ∷ codes "test : fatal : Test Fatal"
      ∷ []
unfolding log_main log log_console level_name
log_main_run = refl
