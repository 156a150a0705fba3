-- ===== src/Syscnf/Examples.antt =====
-- Runs of src/lib/syscnf.c.
use turris_updater.Base.{
  ◌≡◌, refl, true, false, List, [], ◌∷◌, Option, none, some, Bytes, codes, bytes_eq, ◌==◌,
  if◌then◌else◌, arith,
}
use turris_updater.Syscnf.Paths.{
  p_file_status, Paths, set_root_dir, get_path, root_dir, root_dir_is_root, syscnf_index,
}
use turris_updater.Syscnf.Release.{Field, Detected, read_lines, system_detect, value_of}
use turris_updater.Syscnf.Roots.{set_root_dir-slashes, root_dir_is_root-none}
use turris_updater.Syscnf.Printed.{read_lines-print}
use turris_updater.Syscnf.Tables.{IsOwned, system_detect-IsOwned}

abbrev no_paths : Paths
no_paths = record {
  root_path = none;
  status_path = none;
  info_path = none;
  changelog_path = none;
  unpacked_path = none;
  download_path = none;
  collided_path = none;
}

set_root_dir-slashes_run :
    get_path p_file_status (set_root_dir [] [] (some (codes "/mnt//")) no_paths)
    ≡ codes "/mnt/usr/lib/opkg/status"
set_root_dir-slashes_run =
    set_root_dir-slashes [] [] (codes "mn") b't' 2 no_paths p_file_status (omega arith)

root_dir_is_root-none_example :
    (root_dir_is_root (set_root_dir [] [] (some (codes "/")) no_paths) ≡ false)
    × (root_dir_is_root (set_root_dir [] [] none no_paths) ≡ true)
root_dir_is_root-none_example = root_dir_is_root-none [] [] (codes "/") no_paths

-- The root directory of the string "/".
two_slashes : root_dir (set_root_dir [] [] (some (codes "/")) no_paths) ≡ codes "//"
unfolding root_dir set_root_dir bytes_eq
two_slashes = refl

home_root :
    syscnf_index (codes "root_dir") (set_root_dir (codes "/root") [] (some (codes "~/x")) no_paths)
    ≡ some (codes "/root/x/")
unfolding syscnf_index set_root_dir bytes_eq
home_root = refl

abbrev name : Field
name = record { field = codes "NAME"; content = codes "Turris OS" }

abbrev version : Field
version = record { field = codes "ID"; content = codes "7" }

read_lines-print_example :
    read_lines (codes "NAME=\"Turris OS\"\n" ∷ codes "ID=7\n" ∷ []) ≡ name ∷ version ∷ []
read_lines-print_example = read_lines-print ((true, name) ∷ (false, version) ∷ []) (
  ((omega arith, (omega arith, (omega arith, (omega arith, tt)))), omega arith, λ e. ground arith),
  (((omega arith, (omega arith, tt)), omega arith, λ e. refl), tt),
)

-- A single quote as the whole value keeps the line feed, and a last line without one loses a byte.
lone_quote : value_of (codes "\"\n") ≡ codes "\n"
unfolding value_of
lone_quote = refl

last_line : value_of (codes "7.1") ≡ codes "7."
unfolding value_of
last_line = refl

abbrev shared : Detected
shared = record {
  osr = some 5;
  osr_host = some 5;
  tables = λ p. if 5 == p then some (name ∷ []) else none;
}

shared-IsOwned : IsOwned shared
shared-IsOwned p = ground arith

abbrev one_file : Bytes → Option (List Bytes)
one_file path = some (codes "ID=7\n" ∷ [])

system_detect-IsOwned_example :
    (d' : Detected) × (system_detect one_file no_paths 1 2 shared ≡ some d') × IsOwned d'
system_detect-IsOwned_example =
    system_detect-IsOwned one_file no_paths 1 2 shared (omega arith) shared-IsOwned
