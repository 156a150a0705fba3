-- ===== src/Logging/Collected.antt =====
-- src/lib/logging.c: what a level decides about a message, and where the output of a program goes.
use turris_updater.Base.{
  ℕ, zero, suc, ◌≡◌, ◌≢◌, refl, sym, ap, ◌∙◌, subst, Bool, true, false, ◌||◌, List, [], ◌∷◌, ◌++◌,
  append-nil, append_assoc, Option, none, some, Bytes, length, take, leb, if◌then◌else◌, arith,
}
use turris_updater.Logging.Levels.{LogLevel, rank}
use turris_updater.Logging.Messages.{
  Log, Place, Written, opened, syslog_entry, stderr_entry, would_log, write_syslog, write_stderr,
  log_to, log_internal,
}
use turris_updater.Logging.Output.{
  LogSubproc, LogSubprocType, lst_pkg_script, lst_hook, lst_unknown, Write, passed_level, forwarded,
  c_log_subproc_write, log_subproc_open, log_subproc_close, write_all,
}

-- It has written something.
abbrev pub HasWritten : Log → Log → Type 0
HasWritten log log' = (ws : List Written) × (ws ≢ []) × (log'.written ≡ log.written ++ ws)

opened-written : (log : Log) → (opened log).written ≡ log.written
opened-written log = by log.syslog_opened refl
  where
    by : (o : Option Bytes) → log.syslog_opened ≡ o → (opened log).written ≡ log.written
    by none e = ground arith
    by (some n) e = ground arith

one_more : (w : Written) (ws : List Written) → (w ∷ ws) ≢ []
one_more w ws h = ground arith

syslog-written :
    (level : LogLevel) (at : Place) (msg : Bytes) (log : Log)
    → HasWritten log (write_syslog level at msg log)
syslog-written level at msg log = (
  syslog_entry level at msg ∷ [],
  one_more (syslog_entry level at msg) [],
  ap (λ ws. ws ++ syslog_entry level at msg ∷ []) (opened-written log),
)

stderr-written :
    (level : LogLevel) (at : Place) (msg : Bytes) (log : Log)
    → HasWritten log (write_stderr level at msg log)
stderr-written level at msg log = (
  stderr_entry level at msg log.stderr_level ∷ [],
  one_more (stderr_entry level at msg log.stderr_level) [],
  refl,
)

both-written :
    (log log' log'' : Log) → HasWritten log log' → HasWritten log' log'' → HasWritten log log''
both-written log log' log'' ([], n, e) h' = absurd (n refl)
both-written log log' log'' (w ∷ ws, n, e) (vs, n', e') = (
  w ∷ ws ++ vs,
  one_more w (ws ++ vs),
  e' ∙ ap (λ z. z ++ vs) e ∙ append_assoc log.written (w ∷ ws) vs,
)

log_to-written :
    (s e : Bool) (level : LogLevel) (at : Place) (msg : Bytes) (log : Log)
    → (((s || e) ≡ true) → HasWritten log (log_to s e level at msg log))
      × (((s || e) ≡ false) → log_to s e level at msg log ≡ log)
unfolding log_to
log_to-written true true level at msg log = (
  (λ h.
      both-written log (write_syslog level at msg log)
        (write_stderr level at msg (write_syslog level at msg log))
        (syslog-written level at msg log)
        (stderr-written level at msg (write_syslog level at msg log))),
  (λ h. ground arith),
)
log_to-written true false level at msg log =
    ((λ h. syslog-written level at msg log), (λ h. ground arith))
log_to-written false true level at msg log =
    ((λ h. stderr-written level at msg log), (λ h. ground arith))
log_to-written false false level at msg log = ((λ h. ground arith), (λ h. refl))

-- A message is written somewhere, and nothing else is, exactly when would_log says so of its level;
-- otherwise nothing changes.
pub log_internal-would_log :
    (level : LogLevel) (at : Place) (msg : Bytes) (log : Log)
    → ((would_log level log ≡ true) → HasWritten log (log_internal level at msg log))
      × ((would_log level log ≡ false) → log_internal level at msg log ≡ log)
unfolding would_log log_internal
log_internal-would_log level at msg log =
    log_to-written (leb (rank level) (rank log.syslog_level))
      (leb (rank level) (rank log.stderr_level)) level at msg log

-- What fwrite takes of the writes, all of them or those to one stream.
abbrev pub taken : List Write → Bytes
taken [] = []
taken (w ∷ ws) = take w.accepted w.bytes ++ taken ws

abbrev pub taken_by : Bool → List Write → Bytes
taken_by err [] = []
taken_by true (w ∷ ws) =
    if w.err then take w.accepted w.bytes ++ taken_by true ws else taken_by true ws
taken_by false (w ∷ ws) =
    if w.err then taken_by false ws else take w.accepted w.bytes ++ taken_by false ws

always_shown : (type : LogSubprocType) (log : Log) → would_log (passed_level type) log ≡ true
unfolding would_log passed_level
always_shown lst_pkg_script log = ground arith
always_shown lst_hook log = ground arith
always_shown lst_unknown log = ground arith

take-length-take : {A : Type 0} (n : ℕ) (xs : List A) → take (length (take n xs)) xs ≡ take n xs
take-length-take zero xs = refl
take-length-take (suc n) [] = refl
take-length-take (suc n) (x ∷ xs) = ap (◌∷◌ x) (take-length-take n xs)

-- One write, with the test of the level decided.
abbrev written_once : Write → LogSubproc → LogSubproc
written_once w lsp = record {
  type = lsp.type;
  buffer = lsp.buffer ++ take w.accepted w.bytes;
  stdout = if w.err then lsp.stdout else lsp.stdout ++ take w.accepted w.bytes;
  stderr = if w.err then lsp.stderr ++ take w.accepted w.bytes else lsp.stderr;
}

write_once :
    (log : Log) (w : Write) (lsp : LogSubproc)
    → (c_log_subproc_write w.err w.accepted log w.bytes lsp).0 ≡ written_once w lsp
unfolding c_log_subproc_write forwarded
write_once log w lsp = rw (always_shown lsp.type log, take-length-take w.accepted w.bytes)

-- How the streams have grown by writes.
abbrev pub HasTaken : List Write → LogSubproc → LogSubproc → Type 0
HasTaken ws lsp lsp' =
    (lsp'.buffer ≡ lsp.buffer ++ taken ws)
    × (lsp'.stdout ≡ lsp.stdout ++ taken_by false ws)
    × (lsp'.stderr ≡ lsp.stderr ++ taken_by true ws)

first-HasTaken :
    (err : Bool) (w : Write) (ws : List Write) (lsp lsp' : LogSubproc)
    → w.err ≡ err
    → HasTaken ws (written_once w lsp) lsp'
    → HasTaken (w ∷ ws) lsp lsp'
first-HasTaken true w ws lsp lsp' e (b, o, r) = ground (
  arith,
  append_assoc lsp.buffer (take w.accepted w.bytes) (taken ws),
  append_assoc lsp.stderr (take w.accepted w.bytes) (taken_by true ws),
)
first-HasTaken false w ws lsp lsp' e (b, o, r) = ground (
  arith,
  append_assoc lsp.buffer (take w.accepted w.bytes) (taken ws),
  append_assoc lsp.stdout (take w.accepted w.bytes) (taken_by false ws),
)

write_all-HasTaken :
    (log : Log) (ws : List Write) (lsp : LogSubproc) → HasTaken ws lsp (write_all log ws lsp)
unfolding write_all
write_all-HasTaken log [] lsp =
    (sym (append-nil lsp.buffer), sym (append-nil lsp.stdout), sym (append-nil lsp.stderr))
write_all-HasTaken log (w ∷ ws) lsp =
    first-HasTaken w.err w ws lsp (write_all log (w ∷ ws) lsp) refl (
      subst
        (λ l.
          HasTaken ws l (write_all log ws (c_log_subproc_write w.err w.accepted log w.bytes lsp).0))
        (write_once log w lsp)
        (write_all-HasTaken log ws (c_log_subproc_write w.err w.accepted log w.bytes lsp).0))

-- Whatever the levels, the output of a program goes to this process's own streams as far as they
-- take it, and when the log is closed its caller gets exactly what they have taken, in the order of
-- the writes.
pub log_subproc_close-taken :
    (type : LogSubprocType) (at : Place) (message : Bytes) (log log' : Log) (ws : List Write)
    → let lsp = write_all log' ws (log_subproc_open type at message log).0 in
      (log_subproc_close true lsp ≡ some (taken ws))
      × (log_subproc_close false lsp ≡ none)
      × (lsp.stdout ≡ taken_by false ws)
      × (lsp.stderr ≡ taken_by true ws)
unfolding log_subproc_open log_subproc_close
log_subproc_close-taken type at message log log' ws =
    let lsp = (log_subproc_open type at message log).0 in
    let h = write_all-HasTaken log' ws lsp in (ap some h.0, refl, h.1, h.2)
