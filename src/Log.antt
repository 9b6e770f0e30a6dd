-- ===== src/Log.antt =====
-- The loggers of core/src/Log/Log.cpp and core/src/Log/LogConsole.cpp, with what they print as a
-- list of lines, and the switches of core/src/TCP/TCP.cpp. A lock makes the two lines of a message
-- one step.
pub mod Switches
pub mod Connections
mod Tests
use diginext.Base.{ℕ, Bool, true, false, List, [], ◌∷◌, ◌++◌, codes, if◌then◌else◌}

-- `Logger`.
pub record Logger : Type 0 where
  pub name : List ℕ
  pub enabled : Bool

-- `Logger(name, enabled)`, `ConsoleLogger::create`.
abbrev pub create : List ℕ → Bool → Logger
create name enabled = record { name = name; enabled = enabled }

unfoldable pub enable : Logger → Logger
enable l = record l { enabled = true }

unfoldable pub disable : Logger → Logger
disable l = record l { enabled = false }

unfoldable pub set_enabled : Bool → Logger → Logger
unfolding enable disable
set_enabled enabled l = if enabled then enable l else disable l

-- The methods `LogTrace`, `LogDebug`, `LogInfo`, `LogWarning`, `LogError` and `LogFatal`.
pub data Level : Type 0 where
  trace debug info warning error fatal : Level

-- `StrTypes`.
unfoldable pub level_name : Level → List ℕ
level_name trace = codes "trace"
level_name debug = codes "debug"
level_name info = codes "info"
level_name warning = codes "warning"
level_name error = codes "error"
level_name fatal = codes "fatal"

abbrev pub separator : List ℕ
separator = codes "--------------------------------------------"

-- `log_console`: the two lines.
unfoldable pub log_console : List ℕ → List ℕ → List ℕ → List (List ℕ)
log_console name level msg =
    separator ∷ (name ++ (codes " : " ++ (level ++ (codes " : " ++ msg)))) ∷ []

-- A method of `ConsoleLogger` with a message: what it prints.
unfoldable pub log : Level → List ℕ → Logger → List (List ℕ)
unfolding log_console level_name
log level msg l = if l.enabled then log_console l.name (level_name level) msg else []

-- `tcp_connection_log_enabled` and the other two flags.
pub record Flags : Type 0 where
  pub connection : Bool
  pub client : Bool
  pub server : Bool

abbrev pub initial_flags : Flags
initial_flags = record { connection = true; client = true; server = true }

unfoldable pub all_log_enable : Flags → Flags
all_log_enable f = record { connection = true; client = true; server = true }

unfoldable pub all_log_disable : Flags → Flags
all_log_disable f = record { connection = false; client = false; server = false }

-- The logger of a new `tcp_connection`, and what its constructor prints.
unfoldable pub connection_logger : List ℕ → Flags → Logger
unfolding set_enabled
connection_logger uuid f = set_enabled f.connection (create (codes "tcp_connection_" ++ uuid) true)

unfoldable pub connection_created : List ℕ → Flags → List (List ℕ)
unfolding connection_logger log
connection_created uuid f =
    log info (codes "tcp_connection | object created") (connection_logger uuid f)
