-- ===== src/Logging/Messages.antt =====
-- src/lib/logging.c: `log_internal`, `would_log`, the log buffer and the settings. The text of a
-- message stands for what vsnprintf gives.
use turris_updater.Base.{
  ℕ, ◌+◌, Bool, true, false, not, List, [], ◌∷◌, ◌++◌, Option, none, some, Bytes, codes, leb, ltb,
  ◌&&◌, ◌||◌, if◌then◌else◌,
}
use turris_updater.Logging.Levels.{LogLevel, ll_dbg, ll_warn, rank, levels}

-- The arguments of syslog and of the two formats for stderr.
pub data Written : Type 0 where
  to_syslog : ℕ → Bytes → ℕ → Bytes → Bytes → Written
  to_stderr : Bytes → Bytes → Written
  to_stderr_long : Bytes → Bytes → ℕ → Bytes → Bytes → Written

-- The three static variables, the name that was given to openlog, and what has been written.
pub record Log : Type 0 where
  pub syslog_level : LogLevel
  pub stderr_level : LogLevel
  pub syslog_opened : Option Bytes
  pub written : List Written

-- Where a message comes from.
pub record Place : Type 0 where
  pub file : Bytes
  pub line : ℕ
  pub func : Bytes

-- LOG_MAKEPRI(LOG_DAEMON, prio)
abbrev pub daemon_priority : ℕ → ℕ
daemon_priority prio = 24 + prio

unfoldable pub would_log : LogLevel → Log → Bool
would_log level log =
    leb (rank level) (rank log.syslog_level) || leb (rank level) (rank log.stderr_level)

unfoldable pub log_syslog_level : LogLevel → Log → Log
log_syslog_level level log = record log { syslog_level = level }

unfoldable pub log_stderr_level : LogLevel → Log → Log
log_stderr_level level log = record log { stderr_level = level }

-- `none` when the assertion fails.
unfoldable pub log_syslog_name : Bytes → Log → Option Log
log_syslog_name name log = elim log.syslog_opened [
  | none ↦ some (record log { syslog_opened = some name })
  | some old ↦ none
]

-- `if (!syslog_opened) log_syslog_name("updater");`
abbrev pub opened : Log → Log
opened log = elim log.syslog_opened [
  | none ↦ record log { syslog_opened = some (codes "updater") }
  | some name ↦ log
]

abbrev pub syslog_entry : LogLevel → Place → Bytes → Written
syslog_entry level at msg =
    to_syslog (daemon_priority (levels level).syslog_prio) at.file at.line at.func msg

abbrev pub stderr_entry : LogLevel → Place → Bytes → LogLevel → Written
stderr_entry level at msg stderr_level =
    if ltb (rank stderr_level) (rank ll_dbg)
    then to_stderr (levels level).prefix msg
    else to_stderr_long (levels level).prefix at.file at.line at.func msg

abbrev pub write_syslog : LogLevel → Place → Bytes → Log → Log
write_syslog level at msg log = record (opened log) {
  written = (opened log).written ++ syslog_entry level at msg ∷ [];
}

abbrev pub write_stderr : LogLevel → Place → Bytes → Log → Log
write_stderr level at msg log = record log {
  written = log.written ++ stderr_entry level at msg log.stderr_level ∷ [];
}

-- With do_syslog and do_stderr.
unfoldable pub log_to : Bool → Bool → LogLevel → Place → Bytes → Log → Log
log_to do_syslog do_stderr level at msg log =
    if not do_syslog && not do_stderr
    then log
    else let log' = (if do_syslog then write_syslog level at msg log else log) in
      if do_stderr then write_stderr level at msg log' else log'

unfoldable pub log_internal : LogLevel → Place → Bytes → Log → Log
unfolding log_to
log_internal level at msg log =
    log_to (leb (rank level) (rank log.syslog_level)) (leb (rank level) (rank log.stderr_level))
      level at msg log

-- Whether the buffer has a stream; `memory` is whether open_memstream succeeds.
unfoldable pub log_buffer_init : LogLevel → Bool → Place → Log → Log × Bool
unfolding would_log log_internal
log_buffer_init level memory at log =
    if would_log level log
    then (if memory
        then (log, true)
        else (log_internal ll_warn at (codes "Message creation failed!") log, false))
    else (log, false)
