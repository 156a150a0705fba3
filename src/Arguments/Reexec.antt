-- ===== src/Arguments/Reexec.antt =====
-- src/lib/arguments.c: the saved arguments and the call of the program by itself.
use turris_updater.Base.{
  ℕ, zero, suc, ◌+◌, List, [], ◌∷◌, ◌++◌, Option, none, some, Bytes, codes, length, Bool, ltb,
  if◌then◌else◌,
}

-- `back_argv` and `orig_wd`
pub record Backup : Type 0 where
  pub back_argv : Option (List Bytes)
  pub orig_wd : Option Bytes

-- getcwd with a buffer of so many bytes, of which it needs one for the zero.
unfoldable pub getcwd : Bytes → ℕ → Option Bytes
getcwd cwd size = if ltb (length cwd) size then some cwd else none

-- The loop: each round has 128 bytes more.
unfoldable pub getcwd_loop : ℕ → ℕ → Bytes → Option Bytes
unfolding getcwd
getcwd_loop zero s cwd = none
getcwd_loop (suc fuel) s cwd =
    let rest = getcwd_loop fuel (s + 128) cwd in
    elim (getcwd cwd (s + 128)) [ some result ↦ some result | none ↦ rest ]

-- So many rounds are enough.
abbrev pub getcwd_rounds : Bytes → ℕ
getcwd_rounds cwd = suc (length cwd)

unfoldable pub args_backup : List Bytes → Bytes → Backup
unfolding getcwd_loop
args_backup argv cwd = record {
  back_argv = some argv;
  orig_wd = getcwd_loop (getcwd_rounds cwd) 0 cwd;
}

unfoldable pub arg_backup_clear : Backup → Backup
arg_backup_clear b = record { back_argv = none; orig_wd = none }

-- The directory that is changed to and the program with its arguments, or a failed assertion; the
-- call of execvp gives nothing back when it succeeds.
pub data Reexecuted : Type 0 where
  executes : Option Bytes → Bytes → List Bytes → Reexecuted
  dies : Reexecuted

abbrev program : Option Bytes → List Bytes → Bool → Reexecuted
program wd [] found = dies
program wd (arg ∷ args) found = if found then executes wd arg (arg ∷ args) else dies

unfoldable pub reexec : Bool → List Bytes → Backup → Reexecuted
reexec found args b = elim b.back_argv [
  | none ↦ dies
  | some argv ↦ program b.orig_wd (argv ++ (args ++ codes "--reexec" ∷ [])) found
]
