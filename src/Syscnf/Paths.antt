-- ===== src/Syscnf/Paths.antt =====
-- src/lib/syscnf.c: `set_root_dir` and the paths that follow from it. The home directory and the
-- current one are arguments.
use turris_updater.Base.{
  ℕ, zero, suc, ◌-◌, Bool, false, ◌++◌, Option, none, some, Bytes, codes, bytes_eq, length, take,
  drop, get_elem?, ◌==◌, if◌then◌else◌,
}

-- `enum e_paths`
pub data PathName : Type 0 where
  p_root_dir p_file_status p_dir_info p_file_changelog p_dir_pkg_unpacked p_dir_pkg_download
        p_dir_opkg_collided :
      PathName

abbrev pub default_paths : PathName → Bytes
default_paths p_root_dir = codes "/"
default_paths p_file_status = codes "/usr/lib/opkg/status"
default_paths p_dir_info = codes "/usr/lib/opkg/info/"
default_paths p_file_changelog = codes "/usr/share/updater/changelog"
default_paths p_dir_pkg_unpacked = codes "/usr/share/updater/unpacked/"
default_paths p_dir_pkg_download = codes "/usr/share/updater/download/"
default_paths p_dir_opkg_collided = codes "/usr/share/updater/collided/"

-- The array `paths`.
pub record Paths : Type 0 where
  pub root_path : Option Bytes
  pub status_path : Option Bytes
  pub info_path : Option Bytes
  pub changelog_path : Option Bytes
  pub unpacked_path : Option Bytes
  pub download_path : Option Bytes
  pub collided_path : Option Bytes

abbrev pub path_at : PathName → Paths → Option Bytes
path_at p_root_dir ps = ps.root_path
path_at p_file_status ps = ps.status_path
path_at p_dir_info ps = ps.info_path
path_at p_file_changelog ps = ps.changelog_path
path_at p_dir_pkg_unpacked ps = ps.unpacked_path
path_at p_dir_pkg_download ps = ps.download_path
path_at p_dir_opkg_collided ps = ps.collided_path

abbrev put_path : PathName → Option Bytes → Paths → Paths
put_path p_root_dir v ps = record ps { root_path = v }
put_path p_file_status v ps = record ps { status_path = v }
put_path p_dir_info v ps = record ps { info_path = v }
put_path p_file_changelog v ps = record ps { changelog_path = v }
put_path p_dir_pkg_unpacked v ps = record ps { unpacked_path = v }
put_path p_dir_pkg_download v ps = record ps { download_path = v }
put_path p_dir_opkg_collided v ps = record ps { collided_path = v }

unfoldable pub set_path : PathName → Option Bytes → Paths → Paths
set_path tp none ps = put_path tp none ps
set_path tp (some value) ps = put_path tp (some (value ++ default_paths tp)) ps

abbrev pub is_slash : Option ℕ → Bool
is_slash none = false
is_slash (some c) = c == b'/'

-- `while (last > 0 && pth[last] == '/') pth[last--] = '\0';`
unfoldable pub strip_slashes : ℕ → Bytes → Bytes
strip_slashes zero pth = pth
strip_slashes (suc last) pth =
    if is_slash (get_elem? pth (suc last)) then strip_slashes last (take (suc last) pth) else pth

-- The absolute path that a root stands for.
unfoldable pub absolute : Bytes → Bytes → Bytes → Bytes
absolute home cwd root =
    if is_slash (get_elem? root 0)
    then root
    else if bytes_eq (take 2 root) (codes "~/")
    then home ++ drop 1 root
    else cwd ++ codes "/" ++ root

abbrev set_all : Option Bytes → Paths → Paths
set_all pth ps = set_path p_dir_opkg_collided pth (
    set_path p_dir_pkg_download pth (
      set_path p_dir_pkg_unpacked pth (
        set_path p_file_changelog pth
          (set_path p_dir_info pth (set_path p_file_status pth (set_path p_root_dir pth ps))))))

unfoldable pub set_root_dir : Bytes → Bytes → Option Bytes → Paths → Paths
unfolding set_path strip_slashes absolute
set_root_dir home cwd none ps = set_all none ps
set_root_dir home cwd (some root) ps =
    let pth = absolute home cwd root in set_all (some (strip_slashes (length pth - 1) pth)) ps

unfoldable pub get_path : PathName → Paths → Bytes
get_path tp ps = elim (path_at tp ps) [ none ↦ default_paths tp | some value ↦ value ]

unfoldable pub root_dir : Paths → Bytes
unfolding get_path
root_dir ps = get_path p_root_dir ps

unfoldable pub root_dir_is_root : Paths → Bool
unfolding root_dir
root_dir_is_root ps = bytes_eq (codes "/") (root_dir ps)

-- `lua_syscnf_index`: the path of a name; `none` goes on to the functions of the module.
unfoldable pub syscnf_index : Bytes → Paths → Option Bytes
unfolding get_path
syscnf_index idx ps =
    if bytes_eq (codes "root_dir") idx
    then some (get_path p_root_dir ps)
    else if bytes_eq (codes "status_file") idx
    then some (get_path p_file_status ps)
    else if bytes_eq (codes "info_dir") idx
    then some (get_path p_dir_info ps)
    else if bytes_eq (codes "pkg_unpacked_dir") idx
    then some (get_path p_dir_pkg_unpacked ps)
    else if bytes_eq (codes "pkg_download_dir") idx
    then some (get_path p_dir_pkg_download ps)
    else if bytes_eq (codes "opkg_collided_dir") idx
    then some (get_path p_dir_opkg_collided ps)
    else none
