-- ===== src/Log/Switches.antt =====
-- A sequence of calls of one logger.
use diginext.Base.{
  ℕ, ◌≡◌, refl, ap, ◌∙◌, Bool, true, false, List, [], ◌∷◌, ◌++◌, append_assoc, append-nil, codes,
  if◌then◌else◌,
}
use diginext.Log.{
  Logger, enable, disable, set_enabled, Level, trace, debug, info, warning, error, fatal, log,
  log_console, level_name,
}

pub data Call : Type 0 where
  enables : Call
  disables : Call
  sets : Bool → Call
  logs : Level → List ℕ → Call

-- The logger after a call, and what the call prints.
abbrev pub after : Call → Logger → Logger
after enables l = enable l
after disables l = disable l
after (sets b) l = set_enabled b l
after (logs level msg) l = l

abbrev pub printed : Call → Logger → List (List ℕ)
printed (logs level msg) l = log level msg l
printed _ l = []

unfoldable pub run : List Call → Logger → List (List ℕ)
run [] l = []
run (c ∷ cs) l = printed c l ++ run cs (after c l)

-- What the last switch among some calls sets.
unfoldable pub last_switch : List Call → Bool → Bool
last_switch [] b = b
last_switch (enables ∷ cs) b = last_switch cs true
last_switch (disables ∷ cs) b = last_switch cs false
last_switch (sets s ∷ cs) b = last_switch cs s
last_switch (logs level msg ∷ cs) b = last_switch cs b

after_all : List Call → Logger → Logger
after_all [] l = l
after_all (c ∷ cs) l = after_all cs (after c l)

run-append :
    (cs ds : List Call) (l : Logger) → run (cs ++ ds) l ≡ run cs l ++ run ds (after_all cs l)
unfolding run after_all
run-append [] ds l = refl
run-append (c ∷ cs) ds l =
    ap (λ k. printed c l ++ k) (run-append cs ds (after c l))
    ∙ rw (append_assoc (printed c l) (run cs (after c l)) (run ds (after_all cs (after c l)))) refl

after_all-last_switch :
    (cs : List Call) (l : Logger) → after_all cs l ≡ record l { enabled = last_switch cs l.enabled }
unfolding after_all last_switch enable disable set_enabled
after_all-last_switch [] l = refl
after_all-last_switch (enables ∷ cs) l = after_all-last_switch cs (enable l)
after_all-last_switch (disables ∷ cs) l = after_all-last_switch cs (disable l)
after_all-last_switch (sets true ∷ cs) l = after_all-last_switch cs (enable l)
after_all-last_switch (sets false ∷ cs) l = after_all-last_switch cs (disable l)
after_all-last_switch (logs level msg ∷ cs) l = after_all-last_switch cs l

-- The name of a level in the output.
unfoldable pub name_of : Level → List ℕ
name_of trace = codes "trace"
name_of debug = codes "debug"
name_of info = codes "info"
name_of warning = codes "warning"
name_of error = codes "error"
name_of fatal = codes "fatal"

log_lem :
    (level : Level) (msg : List ℕ) (l : Logger)
    → log level msg l ≡ (
        if l.enabled
        then codes "--------------------------------------------"
          ∷ (l.name ++ (codes " : " ++ (name_of level ++ (codes " : " ++ msg))))
          ∷ []
        else [])
unfolding log log_console level_name name_of
log_lem trace msg l = refl
log_lem debug msg l = refl
log_lem info msg l = refl
log_lem warning msg l = refl
log_lem error msg l = refl
log_lem fatal msg l = refl

-- After any calls, a message is printed if the last switch before it was on, or if the logger was
-- made enabled and there was no switch: a line of dashes, and a line with the logger's name, the
-- level and the message, with " : " between them. If not, nothing is printed for it.
pub run-last_switch :
    (calls : List Call) (level : Level) (msg : List ℕ) (l : Logger)
    → run (calls ++ logs level msg ∷ []) l
      ≡ run calls l
        ++ (if last_switch calls l.enabled
            then codes "--------------------------------------------"
              ∷ (l.name ++ (codes " : " ++ (name_of level ++ (codes " : " ++ msg))))
              ∷ []
            else [])
unfolding run
run-last_switch calls level msg l =
    run-append calls (logs level msg ∷ []) l
    ∙ ap (λ k. run calls l ++ k)
        (append-nil (log level msg (after_all calls l))
          ∙ ap (log level msg) (after_all-last_switch calls l)
          ∙ log_lem level msg (record l { enabled = last_switch calls l.enabled }))
