-- ===== src/Changelog/Lines.antt =====
-- src/lib/changelog.c: the output of a failed script can be read back from the log.
use turris_updater.Base.{
  ℕ, zero, suc, ◌<◌, ◌≡◌, refl, ap, sym, ◌∙◌, Bool, true, false, [], ◌∷◌, ◌++◌, append_assoc,
  Option, none, some, Bytes, All, codes, length, length-append, ◌==◌, ==_iff, if◌then◌else◌, arith,
}
use turris_updater.Changelog.File.{
  Changelog, first_line, cons_line, behind, next_lines, scriptfail_with, log_lines, script_line,
  changelog_scriptfail,
}

-- The first byte of each line goes.
abbrev pub unquoted : Bool → Bytes → Bytes
unquoted at_start [] = []
unquoted true (c ∷ cs) = unquoted false cs
unquoted false (c ∷ cs) = c ∷ unquoted (c == b'\n') cs

-- The text with a line feed at its end, added if there is none.
abbrev pub terminated : Bytes → Bytes
terminated [] = codes "\n"
terminated (c ∷ []) = if c == b'\n' then codes "\n" else c ∷ codes "\n"
terminated (c ∷ d ∷ ds) = c ∷ terminated (d ∷ ds)

abbrev HasNoFeed : Bytes → Type 0
HasNoFeed line = All (λ c. (c == b'\n') ≡ false) line

-- What `first_line` finds.
abbrev IsSplit : Bytes → Bytes × Option Bytes → Type 0
IsSplit log (line, none) = (log ≡ line) × HasNoFeed line
IsSplit log (line, some rest) = (log ≡ line ++ b'\n' ∷ rest) × HasNoFeed line

cons-IsSplit :
    (c : ℕ) (feed : Bool) (cs : Bytes) (rest : Bytes × Option Bytes)
    → (c == b'\n') ≡ feed
    → IsSplit cs rest
    → IsSplit (c ∷ cs) (cons_line c feed cs rest)
cons-IsSplit c true cs rest e s = (ap (λ x. x ∷ cs) ((==_iff c b'\n').0 e), tt)
cons-IsSplit c false cs (line, none) e (s, n) = (ap (◌∷◌ c) s, (e, n))
cons-IsSplit c false cs (line, some r) e (s, n) = (ap (◌∷◌ c) s, (e, n))

first_line-IsSplit : (log : Bytes) → IsSplit log (first_line log)
unfolding first_line
first_line-IsSplit [] = (refl, tt)
first_line-IsSplit (c ∷ cs) =
    cons-IsSplit c (c == b'\n') cs (first_line cs) refl (first_line-IsSplit cs)

unquoted-line :
    (line more : Bytes)
    → HasNoFeed line
    → unquoted false (line ++ b'\n' ∷ more) ≡ line ++ b'\n' ∷ unquoted true more
unquoted-line [] more h = refl
unquoted-line (c ∷ cs) more h = rw (h.0, unquoted-line cs more h.1)

terminated-line : (line : Bytes) → HasNoFeed line → terminated line ≡ line ++ codes "\n"
terminated-line [] h = refl
terminated-line (c ∷ []) h = rw h.0
terminated-line (c ∷ d ∷ ds) h = ap (◌∷◌ c) (terminated-line (d ∷ ds) h.1)

terminated-feed :
    (line : Bytes) → HasNoFeed line → terminated (line ++ codes "\n") ≡ line ++ codes "\n"
terminated-feed [] h = refl
terminated-feed (c ∷ []) h = refl
terminated-feed (c ∷ d ∷ ds) h = ap (◌∷◌ c) (terminated-feed (d ∷ ds) h.1)

terminated-more :
    (line rest : Bytes) (r : ℕ)
    → terminated (line ++ b'\n' ∷ r ∷ rest) ≡ line ++ b'\n' ∷ terminated (r ∷ rest)
terminated-more [] rest r = refl
terminated-more (c ∷ []) rest r = refl
terminated-more (c ∷ d ∷ ds) rest r = ap (◌∷◌ c) (terminated-more (d ∷ ds) rest r)

-- The lines that are written, and what is read back from them.
abbrev pub ReadsBack : Bytes → Option Bytes → Type 0
ReadsBack log none = ⊥
ReadsBack log (some lines) = unquoted true lines ≡ terminated log

next-ReadsBack :
    (log : Bytes) (p : Bytes × Option Bytes) (more : Option Bytes)
    → IsSplit log p
    → ((length (behind p.1) < length log) → ReadsBack (behind p.1) more)
    → ReadsBack log (next_lines p more)
next-ReadsBack log (line, none) more (s, n) h =
    unquoted-line line [] n ∙ sym (terminated-line line n) ∙ ap terminated (sym s)
next-ReadsBack log (line, some []) more (s, n) h =
    unquoted-line line [] n ∙ sym (terminated-feed line n) ∙ ap terminated (sym s)
next-ReadsBack log (line, some (r ∷ rest)) none (s, n) h =
    absurd (h (ground (arith, length-append line (b'\n' ∷ r ∷ rest))))
next-ReadsBack log (line, some (r ∷ rest)) (some m) (s, n) h =
    ap (unquoted false) (append_assoc line (codes "\n") m)
    ∙ unquoted-line line m n
    ∙ ap (λ t. line ++ b'\n' ∷ t) (h (ground (arith, length-append line (b'\n' ∷ r ∷ rest))))
    ∙ sym (terminated-more line rest r)
    ∙ ap terminated (sym s)

lines-ReadsBack : (fuel : ℕ) (log : Bytes) → length log < fuel → ReadsBack log (log_lines fuel log)
unfolding log_lines
lines-ReadsBack zero log h = absurd (omega arith)
lines-ReadsBack (suc fuel) log h =
    next-ReadsBack log (first_line log) (log_lines fuel (behind (first_line log).1))
      (first_line-IsSplit log) (λ l. lines-ReadsBack fuel (behind (first_line log).1) (omega arith))

-- The file before the report of a failed script, and after it.
abbrev pub IsReported : Bytes → Bytes → Bytes → Bytes → Bytes → Option Changelog → Type 0
IsReported file pkgname type exitcode log none = ⊥
IsReported file pkgname type exitcode log (some cl) =
    (lines : Bytes) × (cl.f ≡ some (file ++ script_line pkgname type exitcode ++ lines))
    × (unquoted true lines ≡ terminated log)

scriptfail_with-IsReported :
    (file pkgname type exitcode log : Bytes) (lines : Option Bytes)
    → ReadsBack log lines
    → IsReported file pkgname type exitcode log (scriptfail_with file pkgname type exitcode lines)
scriptfail_with-IsReported file pkgname type exitcode log none h = h
scriptfail_with-IsReported file pkgname type exitcode log (some lines) h = (lines, refl, h)

-- Reporting a failed script ends, and its output can be read back: behind its line the file gets lines
-- from which, without the first byte of each, the output comes back, with a line feed at its end.
pub changelog_scriptfail-IsReported :
    (file pkgname type exitcode log : Bytes)
    → IsReported file pkgname type exitcode log
        (changelog_scriptfail pkgname type exitcode log (record { f = some file }))
unfolding changelog_scriptfail
changelog_scriptfail-IsReported file pkgname type exitcode log =
    scriptfail_with-IsReported file pkgname type exitcode log (log_lines (suc (length log)) log)
      (lines-ReadsBack (suc (length log)) log (omega arith))
