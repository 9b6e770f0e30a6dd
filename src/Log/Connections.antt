-- ===== src/Log/Connections.antt =====
-- The switches of TCP.cpp and the loggers of connections.
use diginext.Base.{ℕ, ◌≡◌, refl, Bool, true, false, List, [], ◌∷◌, codes, ◌++◌, if◌then◌else◌}
use diginext.Log.{
  Flags, initial_flags, all_log_enable, all_log_disable, connection_logger, connection_created,
  create, log, info, log_console, level_name, set_enabled, enable, disable,
}

-- The flags after calls of `tcp_all_log_enable`, for true, and of `tcp_all_log_disable`.
unfoldable pub switched : List Bool → Flags → Flags
switched [] f = f
switched (b ∷ bs) f = switched bs (if b then all_log_enable f else all_log_disable f)

abbrev pub last_of : List Bool → Bool → Bool
last_of [] b = b
last_of (c ∷ cs) b = last_of cs c

abbrev pub all_flags : Bool → Flags
all_flags b = record { connection = b; client = b; server = b }

switched-all_flags :
    (bs : List Bool) (b : Bool) → switched bs (all_flags b) ≡ all_flags (last_of bs b)
unfolding switched all_log_enable all_log_disable
switched-all_flags [] b = refl
switched-all_flags (true ∷ bs) b = switched-all_flags bs true
switched-all_flags (false ∷ bs) b = switched-all_flags bs false

made :
    (uuid : List ℕ) (b : Bool)
    → connection_logger uuid (all_flags b) ≡ create (codes "tcp_connection_" ++ uuid) b
unfolding connection_logger set_enabled enable disable
made uuid true = refl
made uuid false = refl

told :
    (uuid : List ℕ) (b : Bool)
    → connection_created uuid (all_flags b) ≡ (
        if b
        then log_console
            (codes "tcp_connection_" ++ uuid)
            (level_name info)
            (codes "tcp_connection | object created")
        else [])
unfolding connection_created connection_logger log set_enabled enable disable
told uuid true = refl
told uuid false = refl

-- After any switches of the three flags, which are set at first, the flags agree with the last
-- switch. The logger of a connection made then is enabled as they are, and the constructor prints
-- its message if they are set, and nothing if not.
pub connection_created_lem :
    (switches : List Bool) (uuid : List ℕ)
    → (switched switches initial_flags ≡ all_flags (last_of switches true))
      × (connection_logger uuid (switched switches initial_flags)
          ≡ create (codes "tcp_connection_" ++ uuid) (last_of switches true))
      × (connection_created uuid (switched switches initial_flags) ≡ (
          if last_of switches true
          then log_console
              (codes "tcp_connection_" ++ uuid)
              (level_name info)
              (codes "tcp_connection | object created")
          else []))
connection_created_lem switches uuid =
    rw (switched-all_flags switches true)
      (refl, made uuid (last_of switches true), told uuid (last_of switches true))
