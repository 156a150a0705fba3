-- ===== src/Logging/Examples.antt =====
-- Runs of src/lib/logging.c.
use turris_updater.Base.{◌≡◌, ◌≢◌, refl, true, false, List, [], ◌∷◌, none, some, codes}
use turris_updater.Logging.Levels.{
  ll_disable, ll_warn, ll_info, ll_dbg, ll_unknown, levels, same_nocase, log_level_get,
}
use turris_updater.Logging.Messages.{Log, Place, would_log, log_to, log_internal}
use turris_updater.Logging.Output.{lst_hook, Write, write_all, log_subproc_open, log_subproc_close}
use turris_updater.Logging.Named.{log_level_get-name}
use turris_updater.Logging.Collected.{
  HasWritten, log_internal-would_log, taken, taken_by, log_subproc_close-taken,
}

abbrev start : Log
start = record {
  syslog_level = ll_disable;
  stderr_level = ll_warn;
  syslog_opened = none;
  written = [];
}

abbrev here : Place
here = record { file = codes "util.c"; line = 47; func = codes "readfile" }

log_level_get-name_run :
    ((same_nocase (codes "Info") (levels ll_info).name ≡ true)
      → log_level_get (codes "Info") ≡ ll_info)
    × ((log_level_get (codes "Info") ≡ ll_info)
        → ll_info ≢ ll_unknown
        → same_nocase (codes "Info") (levels ll_info).name ≡ true)
log_level_get-name_run = log_level_get-name (codes "Info") ll_info

log_internal-would_log_run :
    ((would_log ll_warn start ≡ true)
      → HasWritten start (log_internal ll_warn here (codes "no") start))
    × ((would_log ll_warn start ≡ false) → log_internal ll_warn here (codes "no") start ≡ start)
log_internal-would_log_run = log_internal-would_log ll_warn here (codes "no") start

abbrev writes : List Write
writes =
    record { err = false; accepted = 2; bytes = codes "abc" }
    ∷ record { err = true; accepted = 9; bytes = codes "de" }
    ∷ []

log_subproc_close-taken_example :
    let lsp = write_all start writes (log_subproc_open lst_hook here (codes "hook") start).0 in
    (log_subproc_close true lsp ≡ some (taken writes))
    × (log_subproc_close false lsp ≡ none)
    × (lsp.stdout ≡ taken_by false writes)
    × (lsp.stderr ≡ taken_by true writes)
log_subproc_close-taken_example =
    log_subproc_close-taken lst_hook here (codes "hook") start start writes

debug_is_silent : log_internal ll_dbg here (codes "x") start ≡ start
unfolding log_internal log_to
debug_is_silent = refl
