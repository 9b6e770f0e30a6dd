-- ===== src/Programs/Logging.antt =====
-- The program test.LogConsole/src/main.cpp: a logger, and a message of each level.
use diginext.Base.{List, ◌++◌, ℕ, true, codes}
use diginext.Log.{Logger, create, trace, debug, info, warning, error, fatal, log}

-- What `main` prints.
unfoldable pub log_main : List (List ℕ)
unfolding log
log_main =
    let logger : Logger = create (codes "test") true in
    log trace (codes "Test Trace") logger
    ++ (log debug (codes "Test Debug") logger
        ++ (log info (codes "Test Info") logger
            ++ (log warning (codes "Test Warning") logger
                ++ (log error (codes "Test Error") logger
                    ++ log fatal (codes "Test Fatal") logger))))
