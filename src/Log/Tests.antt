-- ===== src/Log/Tests.antt =====
-- Witnesses of the loggers' theorems.
use diginext.Base.{◌≡◌, refl, true, List, [], ◌∷◌, ◌++◌, codes, if◌then◌else◌}
use diginext.Log.{
  create, disable, set_enabled, info, error, log_console, level_name, separator, log,
}
use diginext.Log.Switches.{Call, name_of, logs, disables, sets, run, last_switch, run-last_switch}

abbrev calls : List Call
calls = logs info (codes "a") ∷ disables ∷ logs info (codes "b") ∷ sets true ∷ []

run-last_switch_example :
    run (calls ++ logs error (codes "c") ∷ []) (create (codes "x") true)
    ≡ run calls (create (codes "x") true)
      ++ (if last_switch calls true
          then codes "--------------------------------------------"
            ∷ (codes "x" ++ (codes " : " ++ (name_of error ++ (codes " : " ++ codes "c"))))
            ∷ []
          else [])
run-last_switch_example = run-last_switch calls error (codes "c") (create (codes "x") true)

printed_lines :
    run (calls ++ logs error (codes "c") ∷ []) (create (codes "x") true)
    ≡ separator ∷ codes "x : info : a" ∷ separator ∷ codes "x : error : c" ∷ []
unfolding run log log_console level_name disable set_enabled
printed_lines = refl
