-- ===== src/Logging/Levels.antt =====
-- src/lib/logging.c and logging.h: the levels with their names, and the look-up of a name.
use turris_updater.Base.{
  ℕ, ◌+◌, Bool, List, [], ◌∷◌, ◌++◌, map, Bytes, bytes_eq, codes, ltb, ◌&&◌, if◌then◌else◌,
}

-- enum log_level
pub data LogLevel : Type 0 where
  ll_disable : LogLevel
  ll_die : LogLevel
  ll_error : LogLevel
  ll_warn : LogLevel
  ll_info : LogLevel
  ll_dbg : LogLevel
  ll_trace : LogLevel
  ll_unknown : LogLevel

-- The number of an enum value.
abbrev pub rank : LogLevel → ℕ
rank ll_disable = 0
rank ll_die = 1
rank ll_error = 2
rank ll_warn = 3
rank ll_info = 4
rank ll_dbg = 5
rank ll_trace = 6
rank ll_unknown = 7

-- struct level_info
pub record LevelInfo : Type 0 where
  pub prefix : Bytes
  pub name : Bytes
  pub syslog_prio : ℕ

-- The priorities of syslog.h.
abbrev pub log_crit : ℕ
log_crit = 2

abbrev pub log_err : ℕ
log_err = 3

abbrev pub log_warning : ℕ
log_warning = 4

abbrev pub log_info : ℕ
log_info = 6

abbrev pub log_debug : ℕ
log_debug = 7

-- A word in a colour of the terminal.
abbrev pub coloured : Bytes → Bytes → Bytes
coloured colour word = 27 ∷ codes "[" ++ (colour ++ (codes "m" ++ (word ++ 27 ∷ codes "[0m")))

-- The array of the source at an index.
abbrev pub levels : LogLevel → LevelInfo
levels ll_disable = record { prefix = codes "!!!!"; name = codes "DISABLE"; syslog_prio = log_crit }
levels ll_die = record {
  prefix = coloured (codes "31;1") (codes "DIE");
  name = codes "DIE";
  syslog_prio = log_crit;
}
levels ll_error = record {
  prefix = coloured (codes "31") (codes "ERROR");
  name = codes "ERROR";
  syslog_prio = log_err;
}
levels ll_warn = record {
  prefix = coloured (codes "35") (codes "WARN");
  name = codes "WARN";
  syslog_prio = log_warning;
}
levels ll_info = record {
  prefix = coloured (codes "34") (codes "INFO");
  name = codes "INFO";
  syslog_prio = log_info;
}
levels ll_dbg = record { prefix = codes "DEBUG"; name = codes "DBG"; syslog_prio = log_debug }
levels ll_trace = record { prefix = codes "TRACE"; name = codes "TRACE"; syslog_prio = log_debug }
levels ll_unknown = record {
  prefix = codes "????";
  name = codes "UNKNOWN";
  syslog_prio = log_warning;
}

-- The indices of the array.
abbrev pub all_levels : List LogLevel
all_levels =
    ll_disable ∷ ll_die ∷ ll_error ∷ ll_warn ∷ ll_info ∷ ll_dbg ∷ ll_trace ∷ ll_unknown ∷ []

-- tolower in the C locale.
abbrev pub lower : ℕ → ℕ
lower c = if ltb 64 c && ltb c 91 then c + 32 else c

-- strcasecmp(a, b) == 0
unfoldable pub same_nocase : Bytes → Bytes → Bool
unfolding bytes_eq
same_nocase a b = bytes_eq (map lower a) (map lower b)

-- The loop over the array.
unfoldable pub level_named : Bytes → List LogLevel → LogLevel
unfolding same_nocase
level_named level [] = ll_unknown
level_named level (l ∷ ls) =
    let rest = level_named level ls in if same_nocase level (levels l).name then l else rest

unfoldable pub log_level_get : Bytes → LogLevel
unfolding level_named
log_level_get level = level_named level all_levels
