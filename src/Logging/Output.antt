-- ===== src/Logging/Output.antt =====
-- src/lib/logging.c: the streams that take the output of a subprocess.
use turris_updater.Base.{
  ℕ, Bool, List, [], ◌∷◌, ◌++◌, Option, none, some, Bytes, length, take, ◌==◌, if◌then◌else◌,
}
use turris_updater.Logging.Levels.{LogLevel, ll_disable, ll_die, ll_info, rank}
use turris_updater.Logging.Messages.{Log, Place, would_log, log_internal}

-- enum log_subproc_type
pub data LogSubprocType : Type 0 where
  lst_pkg_script : LogSubprocType
  lst_hook : LogSubprocType
  lst_unknown : LogSubprocType

abbrev pub type_number : LogSubprocType → ℕ
type_number lst_pkg_script = 0
type_number lst_hook = 1
type_number lst_unknown = 2

-- struct log_subproc with what went to this process's own stdout and stderr.
pub record LogSubproc : Type 0 where
  pub type : LogSubprocType
  pub buffer : Bytes
  pub stdout : Bytes
  pub stderr : Bytes

-- The argument of `would_log` is a comparison, which C reads as the number 0 or 1.
unfoldable pub passed_level : LogSubprocType → LogLevel
passed_level type = if type_number type == rank ll_info then ll_die else ll_disable

-- `accepted` is how much fwrite takes at most.
unfoldable pub forwarded : ℕ → Log → LogSubproc → Bytes → Bytes
unfolding would_log passed_level
forwarded accepted log lsp buf =
    if would_log (passed_level lsp.type) log then take accepted buf else []

-- The bytes of `buf` that the call says it has written, and the new streams.
unfoldable pub c_log_subproc_write : Bool → ℕ → Log → Bytes → LogSubproc → LogSubproc × ℕ
unfolding would_log passed_level forwarded
c_log_subproc_write err accepted log buf lsp =
    let shown = forwarded accepted log lsp buf in
    let len = (if would_log (passed_level lsp.type) log then length shown else length buf) in
    (
      record {
        type = lsp.type;
        buffer = lsp.buffer ++ take len buf;
        stdout = if err then lsp.stdout else lsp.stdout ++ shown;
        stderr = if err then lsp.stderr ++ shown else lsp.stderr;
      },
      len,
    )

unfoldable pub log_subproc_open : LogSubprocType → Place → Bytes → Log → LogSubproc × Log
unfolding log_internal
log_subproc_open type at message log = (
  record { type = type; buffer = []; stdout = []; stderr = [] },
  log_internal ll_info at message log,
)

-- Whether the output is wanted, and the output then.
unfoldable pub log_subproc_close : Bool → LogSubproc → Option Bytes
log_subproc_close wanted lsp = if wanted then some lsp.buffer else none

-- One write of stdio into a stream: which stream, how much fwrite takes, and the bytes.
pub record Write : Type 0 where
  pub err : Bool
  pub accepted : ℕ
  pub bytes : Bytes

-- stdio writes what was not taken again, as the next write.
unfoldable pub write_all : Log → List Write → LogSubproc → LogSubproc
unfolding c_log_subproc_write
write_all log [] lsp = lsp
write_all log (w ∷ ws) lsp =
    write_all log ws (c_log_subproc_write w.err w.accepted log w.bytes lsp).0
