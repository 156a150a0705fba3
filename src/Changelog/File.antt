-- ===== src/Changelog/File.antt =====
-- src/lib/changelog.c: `struct changelog` and its operations. The file is what was written to it; the
-- time and the texts of integers are arguments.
use turris_updater.Base.{
  ℕ, zero, suc, Bool, true, false, [], ◌∷◌, ◌++◌, Option, none, some, Bytes, codes, length, ◌==◌,
  if◌then◌else◌,
}

-- `f` with what is in the file, or NULL.
pub record Changelog : Type 0 where
  pub f : Option Bytes

-- `opens` says whether fopen(3) succeeds; the file is emptied.
abbrev pub changelog_open : Bool → Changelog
changelog_open opens = record { f = if opens then some [] else none }

abbrev pub changelog_close : Changelog → Changelog
changelog_close cl = record { f = none }

-- fprintf, after `ignore_null`.
abbrev pub print : Bytes → Changelog → Changelog
print text cl = elim cl.f [ none ↦ cl | some file ↦ record { f = some (file ++ text) } ]

unfoldable pub changelog_transaction_start : Bytes → Changelog → Changelog
changelog_transaction_start t cl = print (codes "START\t" ++ t ++ codes "\n") cl

unfoldable pub changelog_transaction_end : Bytes → Changelog → Changelog
changelog_transaction_end t cl = print (codes "END\t" ++ t ++ codes "\n") cl

-- `V(version)`
abbrev pub version_text : Option Bytes → Bytes
version_text none = []
version_text (some v) = v

abbrev pub package_line : Bytes → Option Bytes → Option Bytes → Bytes
package_line name old new =
    codes "PKG\t"
    ++ name
    ++ codes "\t"
    ++ version_text old
    ++ codes "\t"
    ++ version_text new
    ++ codes "\n"

unfoldable pub changelog_package : Bytes → Option Bytes → Option Bytes → Changelog → Changelog
changelog_package name old new cl = print (package_line name old new) cl

-- strchr(log, '\n'): the line, and what stands behind the line feed if there is one.
abbrev pub cons_line : ℕ → Bool → Bytes → Bytes × Option Bytes → Bytes × Option Bytes
cons_line c true cs rest = ([], some cs)
cons_line c false cs rest = (c ∷ rest.0, rest.1)

unfoldable pub first_line : Bytes → Bytes × Option Bytes
first_line [] = ([], none)
first_line (c ∷ cs) = cons_line c (c == b'\n') cs (first_line cs)

abbrev pub quoted : Bytes → Bytes
quoted line = codes "|" ++ (line ++ codes "\n")

abbrev pub before_lines : Bytes → Option Bytes → Option Bytes
before_lines text none = none
before_lines text (some more) = some (text ++ more)

-- Where `log` moves to, and what a round writes: the line, and the rounds behind it unless `log` is at
-- the end of the text.
abbrev pub behind : Option Bytes → Bytes
behind none = []
behind (some rest) = rest

abbrev pub next_lines : Bytes × Option Bytes → Option Bytes → Option Bytes
next_lines (line, none) more = some (quoted line)
next_lines (line, some []) more = some (quoted line)
next_lines (line, some (c ∷ cs)) more = before_lines (quoted line) more

-- The do-while loop over the lines, on fuel.
unfoldable pub log_lines : ℕ → Bytes → Option Bytes
unfolding first_line
log_lines zero log = none
log_lines (suc fuel) log = next_lines (first_line log) (log_lines fuel (behind (first_line log).1))

abbrev pub script_line : Bytes → Bytes → Bytes → Bytes
script_line pkgname type exitcode =
    codes "SCRIPT\t" ++ pkgname ++ codes "\t" ++ type ++ codes "\t" ++ exitcode ++ codes "\n"

abbrev pub scriptfail_with : Bytes → Bytes → Bytes → Bytes → Option Bytes → Option Changelog
scriptfail_with file pkgname type exitcode none = none
scriptfail_with file pkgname type exitcode (some lines) =
    some (record { f = some (file ++ script_line pkgname type exitcode ++ lines) })

-- `none` is a loop without an end.
unfoldable pub changelog_scriptfail : Bytes → Bytes → Bytes → Bytes → Changelog → Option Changelog
unfolding log_lines
changelog_scriptfail pkgname type exitcode log cl = elim cl.f [
  | none ↦ some cl
  | some file ↦ scriptfail_with file pkgname type exitcode (log_lines (suc (length log)) log)
]
