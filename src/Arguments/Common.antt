-- ===== src/Arguments/Common.antt =====
-- src/lib/arguments.c: the options that both programs have.
use turris_updater.Base.{ℕ, ◌++◌, Option, none, some, Bytes, codes, ◌==◌, if◌then◌else◌}
use turris_updater.Logging.Levels.{
  LogLevel, ll_disable, ll_die, ll_error, ll_warn, ll_info, ll_dbg, ll_trace, ll_unknown,
  log_level_get,
}
use turris_updater.Logging.Messages.{Log, log_stderr_level, log_syslog_level, log_syslog_name}
use turris_updater.Syscnf.Paths.{Paths, set_root_dir}

-- What the options change: the log and the paths of the target system.
pub record Setup : Type 0 where
  pub log : Log
  pub paths : Paths

-- A parser takes the key, does not know it, reports wrong usage, which ends the program, or fails an
-- assertion.
pub data Parsed {ℓ} (A : Type ℓ) : Type ℓ where
  taken : A → Parsed A
  unknown : Parsed A
  usage : Bytes → Parsed A
  dies : Parsed A

infixl 20 ◌>>=◌
abbrev pub ◌>>=◌ {ℓ κ} : {A : Type ℓ} {B : Type κ} → Parsed A → (A → Parsed B) → Parsed B
taken x >>= f = f x
unknown >>= f = unknown
usage text >>= f = usage text
dies >>= f = dies

-- A level with what is to be done with it.
unfoldable pub with_level : (LogLevel → Setup) → Bytes → LogLevel → Parsed Setup
with_level set arg ll_unknown = usage (codes "Unknown log level: " ++ arg)
with_level set arg ll_disable = taken (set ll_disable)
with_level set arg ll_die = taken (set ll_die)
with_level set arg ll_error = taken (set ll_error)
with_level set arg ll_warn = taken (set ll_warn)
with_level set arg ll_info = taken (set ll_info)
with_level set arg ll_dbg = taken (set ll_dbg)
with_level set arg ll_trace = taken (set ll_trace)

abbrev named : Option Log → Setup → Parsed Setup
named none s = dies
named (some log) s = taken (record s { log = log })

-- `parse_opt`; the home directory and the current one are those of `set_root_dir`.
unfoldable pub parse_opt : Bytes → Bytes → ℕ → Bytes → Setup → Parsed Setup
unfolding set_root_dir log_level_get log_stderr_level log_syslog_level log_syslog_name with_level
parse_opt home cwd key arg s =
    if key == b'R'
    then taken (record s { paths = set_root_dir home cwd (some arg) s.paths })
    else if key == b'e'
    then with_level (λ l. record s { log = log_stderr_level l s.log }) arg (log_level_get arg)
    else if key == b's'
    then with_level (λ l. record s { log = log_syslog_level l s.log }) arg (log_level_get arg)
    else if key == b'S'
    then named (log_syslog_name arg s.log) s
    else unknown
