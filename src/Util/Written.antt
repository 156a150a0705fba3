-- ===== src/Util/Written.antt =====
-- src/lib/util.c: a file that was written is read back, and which programs a hook runs.
use turris_updater.Base.{
  ◌≡◌, ◌≢◌, refl, ap, Bool, true, false, ◌&&◌, List, [], ◌∷◌, ◌++◌, map, some, Bytes, bytes_eq,
  bytes_eq_iff, bytes_eq_refl, codes, length, take, Bool-cases, inl, inr,
}
use turris_updater.Util.Files.{Files, put_file, dump2file, readfile}
use turris_updater.Util.Hooks.{Dirent, HookRun, exec_dir_filter, filter, run_hooks, exec_hook}

take-length : {A : Type 0} (xs : List A) → take (length xs) xs ≡ xs
take-length [] = refl
take-length (x ∷ xs) = ap (◌∷◌ x) (take-length xs)

put_file-same :
    (file text : Bytes) (files : Files) → put_file file (some text) files file ≡ some text
put_file-same file text files = rw (bytes_eq_refl file)

put_file-other :
    (file other text : Bytes) (files : Files)
    → file ≢ other
    → put_file file (some text) files other ≡ files other
put_file-other file other text files h = elim (Bool-cases (bytes_eq file other)) [
  | inl p ↦ absurd (h ((bytes_eq_iff file other).0 p))
  | inr p ↦ rw p
]

-- A text that was dumped into a file is read back from it whole, and every other file reads as it
-- did.
pub readfile-dump2file :
    (file other text : Bytes) (opens : Bool) (files : Files)
    → file ≢ other
    → (readfile true file (dump2file true file text files).0 ≡ some text)
      × (readfile opens other (dump2file true file text files).0 ≡ readfile opens other files)
unfolding readfile dump2file
readfile-dump2file file other text opens files h = (
  rw (readfile, put_file-same file text files, take-length text),
  rw (readfile, put_file-other file other text files h),
)

-- Whether an entry is to be run, and its run.
abbrev pub is_hook : (Bytes → Bool) → Bytes → Dirent → Bool
is_hook executable dir de = exec_dir_filter de && executable (dir ++ (codes "/" ++ de.d_name))

abbrev pub hook_of : Bytes → Bytes → Dirent → HookRun
hook_of dir message de = record {
  message = message ++ (codes ": " ++ de.d_name);
  program = dir ++ (codes "/" ++ de.d_name);
}

-- The hooks of a directory are its executable regular files, each once and in the directory's order,
-- with a message that ends in the file's name.
pub exec_hook-filter :
    (executable : Bytes → Bool) (entries : List Dirent) (dir message : Bytes)
    → exec_hook executable (some entries) dir message
      ≡ map (hook_of dir message) (filter (is_hook executable dir) entries)
unfolding exec_hook run_hooks
exec_hook-filter executable [] dir message = refl
exec_hook-filter executable (de ∷ des) dir message =
    by (exec_dir_filter de) (executable (dir ++ (codes "/" ++ de.d_name))) refl refl
      (exec_hook-filter executable des dir message)
  where
    by :
        (f x : Bool)
        → exec_dir_filter de ≡ f
        → executable (dir ++ (codes "/" ++ de.d_name)) ≡ x
        → exec_hook executable (some des) dir message
          ≡ map (hook_of dir message) (filter (is_hook executable dir) des)
        → exec_hook executable (some (de ∷ des)) dir message
          ≡ map (hook_of dir message) (filter (is_hook executable dir) (de ∷ des))
    by true true p q ih = rw (p, q, ih)
    by true false p q ih = rw (p, q, ih)
    by false x p q ih = rw (p, ih)
