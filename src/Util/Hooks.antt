-- ===== src/Util/Hooks.antt =====
-- src/lib/util.c: running the programs of a directory.
use turris_updater.Base.{
  Bool, not, List, [], ◌∷◌, ◌++◌, Option, none, some, Bytes, bytes_eq, codes, ◌&&◌, if◌then◌else◌,
}

-- struct dirent; `regular` is d_type == DT_REG.
pub record Dirent : Type 0 where
  pub d_name : Bytes
  pub regular : Bool

unfoldable pub exec_dir_filter : Dirent → Bool
unfolding bytes_eq
exec_dir_filter de =
    not (bytes_eq de.d_name (codes ".")) && (not (bytes_eq de.d_name (codes "..")) && de.regular)

-- A call of `lsubprocl` with LST_HOOK, no output, no time limit and no arguments.
pub record HookRun : Type 0 where
  pub message : Bytes
  pub program : Bytes

abbrev pub filter : {A : Type 0} → (A → Bool) → List A → List A
filter test [] = []
filter test (x ∷ xs) = if test x then x ∷ filter test xs else filter test xs

-- The loop over the names that scandir gives.
unfoldable pub run_hooks : (Bytes → Bool) → Bytes → Bytes → List Dirent → List HookRun
run_hooks executable dir message [] = []
run_hooks executable dir message (de ∷ des) =
    let fpath = dir ++ (codes "/" ++ de.d_name) in
    let msg = message ++ (codes ": " ++ de.d_name) in
    let rest = run_hooks executable dir message des in
    if executable fpath then record { message = msg; program = fpath } ∷ rest else rest

-- `listing` is the directory in the order of alphasort, or none if it cannot be opened.
unfoldable pub exec_hook : (Bytes → Bool) → Option (List Dirent) → Bytes → Bytes → List HookRun
unfolding exec_dir_filter run_hooks
exec_hook executable listing dir message = elim listing [
  | none ↦ []
  | some entries ↦ run_hooks executable dir message (filter exec_dir_filter entries)
]
