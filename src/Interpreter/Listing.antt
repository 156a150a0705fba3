-- ===== src/Interpreter/Listing.antt =====
-- src/lib/interpreter.c: the two ways to a file's type agree, and what a listing has.
use turris_updater.Base.{
  ℕ, ◌≡◌, refl, ap, Bool, true, false, not, List, [], ◌∷◌, map, some, Bytes, All, ◌⊎◌, inl, inr,
  Bool-cases, if◌then◌else◌, arith,
}
use turris_updater.Interpreter.Stat.{
  file_type, stat2str, Entry, by_stat, get_dirent_type, listed, is_dots, table_of, Directory,
  lua_ls,
}

-- The directory has no type for the file or the one that stat has, and stat finds it.
abbrev pub IsConsistent : Entry → Type 0
IsConsistent ent =
    (mode : ℕ) × (ent.stat_mode ≡ some mode) × ((ent.d_type ≡ 0) ⊎ (ent.d_type ≡ file_type mode))

type-agrees : (ent : Entry) → IsConsistent ent → get_dirent_type ent ≡ by_stat ent.stat_mode
unfolding get_dirent_type stat2str
type-agrees ent (mode, s, inl h) = ground arith
type-agrees ent (mode, s, inr h) = ground arith

abbrev pub filter : {A : Type 0} → (A → Bool) → List A → List A
filter test [] = []
filter test (x ∷ xs) = if test x then x ∷ filter test xs else filter test xs

-- The name and the type that stat tells.
abbrev pub by_lstat : Entry → Bytes × Bytes
by_lstat ent = (ent.d_name, by_stat ent.stat_mode)

table-by_lstat :
    (ents : List Entry)
    → All IsConsistent ents
    → table_of ents ≡ map by_lstat (filter (λ ent. not (is_dots ent.d_name)) ents)
unfolding table_of
table-by_lstat [] h = refl
table-by_lstat (ent ∷ ents) h = elim (Bool-cases (is_dots ent.d_name)) [
  | inl p ↦ rw (p, table-by_lstat ents h.1) refl
  | inr p ↦ rw (p, type-agrees ent h.0, table-by_lstat ents h.1) refl
]

-- If reading and closing succeed, and each entry's type is either missing in the directory or the one
-- that stat tells: a listing has all of the entries but `.` and `..`, each with the type that lstat
-- would give for it, whether the file system puts types into directories or not.
pub lua_ls-by_lstat :
    (d : Directory)
    → d.read_error ≡ false
    → d.closes ≡ true
    → All IsConsistent d.entries
    → lua_ls (some d) ≡ listed (map by_lstat (filter (λ ent. not (is_dots ent.d_name)) d.entries))
unfolding lua_ls
lua_ls-by_lstat d r c h = rw (r, c) (ap listed (table-by_lstat d.entries h))
