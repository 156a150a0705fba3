-- ===== src/Syscnf/Tables.antt =====
-- src/lib/syscnf.c: `system_detect` and the memory of the two tables.
use turris_updater.Base.{
  ℕ, ◌≡◌, ◌≢◌, refl, Bool, true, false, ◌||◌, List, [], ◌∷◌, Option, none, some, Bytes, ◌==◌,
  ==_refl, Bool-cases, Option-cases, inl, inr, arith, codes, ◌++◌,
}
use turris_updater.Syscnf.Paths.{Paths, root_dir, root_dir_is_root}
use turris_updater.Syscnf.Release.{
  Field, Detected, os_release_free, free_tables, detect, system_detect, read_os_release, install,
  put_table,
}

abbrev pub points_at : Option ℕ → ℕ → Bool
points_at none p = false
points_at (some a) p = a == p

abbrev pub is_table : Option (List Field) → Bool
is_table none = false
is_table (some t) = true

-- The tables that are allocated are those that a pointer leads to.
abbrev pub IsOwned : Detected → Type 0
IsOwned d = (p : ℕ) → is_table (d.tables p) ≡ (points_at d.osr p || points_at d.osr_host p)

is_table-none : (o : Option (List Field)) → is_table o ≡ false → o ≡ none
is_table-none none h = refl
is_table-none (some t) h = ground arith

freed_one :
    (a : ℕ) (d : Detected)
    → is_table (d.tables a) ≡ true
    → os_release_free (some a) d ≡ some (put_table a none d)
unfolding os_release_free
freed_one a d h = elim (Option-cases (d.tables a)) [
  | inl e ↦ ground arith
  | inr (t, e) ↦ ground arith
]

free_tables-all :
    (own host : Option ℕ) (d : Detected)
    → d.osr ≡ own
    → d.osr_host ≡ host
    → IsOwned d
    → (d1 : Detected) × (free_tables d ≡ some d1) × ((p : ℕ) → d1.tables p ≡ none)
unfolding free_tables os_release_free
free_tables-all none none d e f h =
    (d, ground arith, λ p. is_table-none (d.tables p) (ground (arith, h p)))
free_tables-all (some a) none d e f h = (
  put_table a none d,
  ground (arith, freed_one a d, h a, ==_refl a),
  λ p. is_table-none ((put_table a none d).tables p) (ground (arith, h p)),
)
free_tables-all none (some b) d e f h = (
  put_table b none d,
  ground (arith, freed_one b d, h b, ==_refl b),
  λ p. is_table-none ((put_table b none d).tables p) (ground (arith, h p)),
)
free_tables-all (some a) (some b) d e f h = elim (Bool-cases (a == b)) [
  | inl same ↦ (
    put_table b none d,
    ground (arith, freed_one b d, h b, ==_refl b),
    λ p. is_table-none ((put_table b none d).tables p) (ground (arith, h p)),
  )
  | inr other ↦ (
    put_table a none (put_table b none d),
    ground (arith, freed_one b d, freed_one a (put_table b none d), h b, h a, ==_refl b, ==_refl a),
    λ p. is_table-none ((put_table a none (put_table b none d)).tables p) (ground (arith, h p)),
  )
]

install-IsOwned :
    (shared : Bool) (a b : ℕ) (host own : List Field) (d : Detected)
    → a ≢ b
    → ((p : ℕ) → d.tables p ≡ none)
    → IsOwned (install shared a b host own d)
install-IsOwned true a b [] own d n h p = ground (arith, h p)
install-IsOwned true a b (f ∷ fs) own d n h p = ground (arith, h p)
install-IsOwned false a b [] [] d n h p = ground (arith, h p)
install-IsOwned false a b [] (g ∷ gs) d n h p = ground (arith, h p)
install-IsOwned false a b (f ∷ fs) [] d n h p = ground (arith, h p)
install-IsOwned false a b (f ∷ fs) (g ∷ gs) d n h p = ground (arith, h p)

detect-IsOwned :
    (files : Bytes → Option (List Bytes)) (ps : Paths) (a b : ℕ) (d : Detected)
    → a ≢ b
    → ((p : ℕ) → d.tables p ≡ none)
    → IsOwned (detect files ps a b d)
unfolding detect
detect-IsOwned files ps a b d n h =
    install-IsOwned (root_dir_is_root ps) a b (read_os_release (files (codes "/etc/os-release")))
      (read_os_release (files (root_dir ps ++ codes "etc/os-release"))) d n h

-- Detecting the system never frees a table twice and leaves none behind: if the allocated tables are
-- those that the two pointers lead to, it succeeds, and that holds again after it, given two
-- different addresses for the new tables.
pub system_detect-IsOwned :
    (files : Bytes → Option (List Bytes)) (ps : Paths) (a b : ℕ) (d : Detected)
    → a ≢ b
    → IsOwned d
    → (d' : Detected) × (system_detect files ps a b d ≡ some d') × IsOwned d'
unfolding system_detect
system_detect-IsOwned files ps a b d n h =
    let (d1, frees, gone) = free_tables-all d.osr d.osr_host d refl refl h in
    (
      detect files ps a b (record d1 { osr = none; osr_host = none }),
      ground (arith, frees),
      detect-IsOwned files ps a b (record d1 { osr = none; osr_host = none }) n gone,
    )
