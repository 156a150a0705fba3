-- ===== src/Util/Examples.antt =====
-- Runs of src/lib/util.c.
use turris_updater.Base.{
  ◌≡◌, ◌≢◌, Bool, true, false, List, [], ◌∷◌, map, none, some, Bytes, bytes_eq, codes, arith,
}
use turris_updater.Util.Files.{Files, dump2file, readfile}
use turris_updater.Util.Hooks.{Dirent, filter, exec_hook}
use turris_updater.Util.Written.{readfile-dump2file, is_hook, hook_of, exec_hook-filter}

abbrev no_files : Files
no_files path = none

other_path : codes "/a" ≢ codes "/b"
other_path h = ground arith

readfile-dump2file_run :
    (readfile true (codes "/a") (dump2file true (codes "/a") (codes "text") no_files).0
      ≡ some (codes "text"))
    × (readfile true (codes "/b") (dump2file true (codes "/a") (codes "text") no_files).0
        ≡ readfile true (codes "/b") no_files)
readfile-dump2file_run =
    readfile-dump2file (codes "/a") (codes "/b") (codes "text") true no_files other_path

abbrev entries : List Dirent
entries =
    record { d_name = codes "."; regular = false }
    ∷ record { d_name = codes "01_notify"; regular = true }
    ∷ record { d_name = codes "readme"; regular = true }
    ∷ []

abbrev executable : Bytes → Bool
executable path = bytes_eq path (codes "/h/01_notify")

exec_hook-filter_run :
    exec_hook executable (some entries) (codes "/h") (codes "Hook")
    ≡ map (hook_of (codes "/h") (codes "Hook")) (filter (is_hook executable (codes "/h")) entries)
exec_hook-filter_run = exec_hook-filter executable entries (codes "/h") (codes "Hook")
