-- ===== src/Interpreter/Stat.antt =====
-- src/lib/interpreter.c: types and permissions of files as text, and the listing of a directory.
use turris_updater.Base.{
  ℕ, ◌/◌, ◌%◌, ◌^◌, Bool, true, List, [], ◌∷◌, ◌++◌, Option, none, some, Bytes, bytes_eq, codes,
  set, ◌==◌, ◌&&◌, if◌then◌else◌,
}

-- st_mode & S_IFMT, without its twelve zeros.
abbrev pub file_type : ℕ → ℕ
file_type st_mode = st_mode / 2 ^ 12 % 16

-- S_IFSOCK and the others, and DT_SOCK and the others, which are the same numbers.
unfoldable pub stat2str : ℕ → Bytes
stat2str st_mode =
    let type = file_type st_mode in
    if type == 12
    then codes "s"
    else if type == 10
    then codes "l"
    else if type == 8
    then codes "r"
    else if type == 6
    then codes "b"
    else if type == 4
    then codes "d"
    else if type == 2
    then codes "c"
    else if type == 1
    then codes "f"
    else codes "?"

-- struct dirent, where a type of 0 is DT_UNKNOWN, and what fstatat gives for the entry.
pub record Entry : Type 0 where
  pub d_name : Bytes
  pub d_type : ℕ
  pub stat_mode : Option ℕ

abbrev pub by_stat : Option ℕ → Bytes
by_stat none = codes "?"
by_stat (some mode) = stat2str mode

unfoldable pub get_dirent_type : Entry → Bytes
unfolding stat2str
get_dirent_type ent =
    if ent.d_type == 6
    then codes "b"
    else if ent.d_type == 2
    then codes "c"
    else if ent.d_type == 4
    then codes "d"
    else if ent.d_type == 1
    then codes "f"
    else if ent.d_type == 10
    then codes "l"
    else if ent.d_type == 8
    then codes "r"
    else if ent.d_type == 12
    then codes "s"
    else by_stat ent.stat_mode

-- What a listing gives to Lua: a table of names and types, or one of the three errors.
pub data Listed : Type 0 where
  listed : List (Bytes × Bytes) → Listed
  not_opened : Listed
  not_read : Listed
  not_closed : Listed

unfoldable pub is_dots : Bytes → Bool
unfolding bytes_eq
is_dots name = if bytes_eq name (codes "..") then true else bytes_eq name (codes ".")

-- The loop over the directory; names are different, so each sets a field of its own.
unfoldable pub table_of : List Entry → List (Bytes × Bytes)
unfolding is_dots get_dirent_type
table_of [] = []
table_of (ent ∷ ents) =
    let rest = table_of ents in
    if is_dots ent.d_name then rest else (ent.d_name, get_dirent_type ent) ∷ rest

-- The entries that readdir gives, whether it stopped with an error, and whether closedir works.
pub record Directory : Type 0 where
  pub entries : List Entry
  pub read_error : Bool
  pub closes : Bool

unfoldable pub lua_ls : Option Directory → Listed
unfolding table_of
lua_ls none = not_opened
lua_ls (some d) =
    if d.read_error then not_read else if d.closes then listed (table_of d.entries) else not_closed

-- struct perm_def; a mask is the numbers of its bits.
pub record PermDef : Type 0 where
  pub mask : List ℕ
  pub pos : ℕ
  pub letter : ℕ

abbrev perm_def : List ℕ → ℕ → ℕ → PermDef
perm_def mask pos letter = record { mask = mask; pos = pos; letter = letter }

abbrev pub perm_defs : List PermDef
perm_defs =
    perm_def (8 ∷ []) 0 b'r'
    ∷ perm_def (7 ∷ []) 1 b'w'
    ∷ perm_def (6 ∷ []) 2 b'x'
    ∷ perm_def (5 ∷ []) 3 b'r'
    ∷ perm_def (4 ∷ []) 4 b'w'
    ∷ perm_def (3 ∷ []) 5 b'x'
    ∷ perm_def (2 ∷ []) 6 b'r'
    ∷ perm_def (1 ∷ []) 7 b'w'
    ∷ perm_def (0 ∷ []) 8 b'x'
    ∷ perm_def (9 ∷ []) 8 b't'
    ∷ perm_def (9 ∷ 0 ∷ []) 8 b'T'
    ∷ perm_def (10 ∷ []) 5 b'S'
    ∷ perm_def (10 ∷ 3 ∷ []) 5 b's'
    ∷ perm_def (11 ∷ []) 2 b'S'
    ∷ perm_def (11 ∷ 6 ∷ []) 2 b's'
    ∷ []

abbrev pub bit : ℕ → ℕ → Bool
bit mode k = mode / 2 ^ k % 2 == 1

-- (mode & mask) == mask
abbrev pub has_bits : ℕ → List ℕ → Bool
has_bits mode [] = true
has_bits mode (k ∷ ks) = bit mode k && has_bits mode ks

-- The loop over the array.
unfoldable pub apply_defs : ℕ → List PermDef → Bytes → Bytes
apply_defs mode [] perm = perm
apply_defs mode (d ∷ ds) perm =
    apply_defs mode ds (if has_bits mode d.mask then set perm d.pos d.letter else perm)

unfoldable pub perm2str : ℕ → Bytes
unfolding apply_defs
perm2str mode = apply_defs mode perm_defs (codes "---------")

-- What stat or lstat gives: a mode, ENOENT, or another error.
pub data StatAnswer : Type 0 where
  stat_mode : ℕ → StatAnswer
  no_entry : StatAnswer
  stat_fails : StatAnswer

-- The values for Lua, or an error. `perm` has no zero at its end, so lua_pushstring takes what stands
-- behind it in memory up to one: `behind`.
unfoldable pub stat_lstat : Bytes → StatAnswer → Option (List Bytes)
unfolding stat2str perm2str
stat_lstat behind (stat_mode mode) = some (stat2str mode ∷ (perm2str mode ++ behind) ∷ [])
stat_lstat behind no_entry = some []
stat_lstat behind stat_fails = none
