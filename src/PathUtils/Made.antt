-- ===== src/PathUtils/Made.antt =====
-- src/lib/path_utils.c: `mkdir_p`. Every call of stat comes before the first mkdir, so what stat answers is
-- an argument, and the result holds the directories that were made, the latest first. dirname(3) is the
-- parameter `dirname`.
use turris_updater.Base.{
  ℕ, zero, suc, ◌≤◌, ◌<◌, ◌≡◌, refl, ap, ◌∙◌, ◌⊎◌, inl, inr, Bool, true, false, List, [], ◌∷◌,
  Option, none, some, Bytes, codes, length, Bool-cases, arith,
}

-- The answer of stat: a directory, something else, ENOENT or another error.
pub data Stat : Type 0 where
  is_dir other missing failing : Stat

-- The directories that were made, and the path of an error.
abbrev pub Made : Type 0
Made = List Bytes × Option Bytes

-- `mkdir`, which works or does not.
abbrev pub made_at : Bool → Bytes → List Bytes → Made
made_at true path ds = (path ∷ ds, none)
made_at false path ds = (ds, some path)

module _ (dirname : Bytes → Bytes) (stat : Bytes → Stat) (can_mkdir : Bytes → Bool) where
  -- From the answer for the parent on.
  abbrev pub after_parent : Bytes → Option Made → Option Made
  after_parent path none = none
  after_parent path (some (ds, some e)) = some (ds, some e)
  after_parent path (some (ds, none)) = some (made_at (can_mkdir path) path ds)

  unfoldable pub mkdir_p : ℕ → Bytes → Option Made
  mkdir_p zero path = none
  mkdir_p (suc fuel) path = elim (stat path) [
    | is_dir ↦ some ([], none)
    | other ↦ some ([], some path)
    | missing ↦ after_parent path (mkdir_p fuel (dirname path))
    | failing ↦ some ([], some path)
  ]

  -- The path was a directory, or it was missing and the latest call made it below a path that stood.
  abbrev pub Stands : Bytes → List Bytes → Type 0
  Stands path [] = stat path ≡ is_dir
  Stands path (d ∷ ds) =
      (d ≡ path) × (stat path ≡ missing) × (can_mkdir path ≡ true) × Stands (dirname path) ds

  -- The path is no directory and nothing was made, or it was missing and could not be made below a path
  -- that stood.
  abbrev pub Fails : Bytes → List Bytes → Type 0
  Fails path ds =
      ((ds ≡ []) × ((stat path ≡ other) ⊎ (stat path ≡ failing)))
      ⊎ ((stat path ≡ missing) × (can_mkdir path ≡ false) × Stands (dirname path) ds)

  abbrev pub up : ℕ → Bytes → Bytes
  up zero path = path
  up (suc k) path = up k (dirname path)

  abbrev pub IsMade : Bytes → Made → Type 0
  IsMade path (ds, none) = Stands path ds
  IsMade path (ds, some at) = (k : ℕ) × (at ≡ up k path) × Fails at ds

  after_parent-IsMade :
      (path : Bytes) (made : Made)
      → stat path ≡ missing
      → IsMade (dirname path) made
      → (m : Made) × (after_parent path (some made) ≡ some m) × IsMade path m
  after_parent-IsMade path (ds, some at) gone (k, above, fails) =
      ((ds, some at), refl, (suc k, above, fails))
  after_parent-IsMade path (ds, none) gone stands = elim (Bool-cases (can_mkdir path)) [
    | inl y ↦ ((path ∷ ds, none), ap (λ b. some (made_at b path ds)) y, (refl, gone, y, stands))
    | inr n ↦
        ((ds, some path), ap (λ b. some (made_at b path ds)) n, (zero, refl, inr (gone, n, stands)))
  ]

  stat-cases : (s : Stat) → (s ≡ is_dir) ⊎ (s ≡ other) ⊎ (s ≡ missing) ⊎ (s ≡ failing)
  stat-cases is_dir = inl refl
  stat-cases other = inr (inl refl)
  stat-cases missing = inr (inr (inl refl))
  stat-cases failing = inr (inr (inr refl))

  -- One round, with the recursive call's result at hand where the path is missing.
  mkdir_p-step :
      (fuel : ℕ) (path : Bytes)
      → (stat path ≡ missing
          → (m : Made) × (mkdir_p fuel (dirname path) ≡ some m) × IsMade (dirname path) m)
      → (m : Made) × (mkdir_p (suc fuel) path ≡ some m) × IsMade path m
  unfolding mkdir_p
  mkdir_p-step fuel path parent = elim (stat-cases (stat path)) [
    | inl d ↦ (([], none), ground (arith, d), d)
    | inr (inl o) ↦ (([], some path), ground (arith, o), (zero, refl, inl (refl, inl o)))
    | inr (inr (inl gone)) ↦
        let (made, answer, good) = parent gone in
        let (m, e, is) = after_parent-IsMade path made gone good in
        (m, ground (arith, gone, answer, e), is)
    | inr (inr (inr f)) ↦ (([], some path), ground (arith, f), (zero, refl, inl (refl, inr f)))
  ]

  -- What dirname promises: "." or "/", or a part of the path.
  abbrev pub IsDirname : Type 0
  IsDirname =
      (path : Bytes)
      → (dirname path ≡ codes ".")
        ⊎ (dirname path ≡ codes "/")
        ⊎ (length (dirname path) < length path)

  module _ (parts : IsDirname) (dot : stat (codes ".") ≡ is_dir)
      (root : stat (codes "/") ≡ is_dir) where
    directory-IsMade :
        (fuel : ℕ) (path : Bytes)
        → stat path ≡ is_dir
        → (m : Made) × (mkdir_p (suc fuel) path ≡ some m) × IsMade path m
    unfolding mkdir_p
    directory-IsMade fuel path d = (([], none), ground (arith, d), d)

    -- The parent, if the function does as it should on every shorter path.
    parent-IsMade :
        (fuel : ℕ) (path : Bytes)
        → (length (dirname path) < length path
            → (m : Made) × (mkdir_p (suc fuel) (dirname path) ≡ some m) × IsMade (dirname path) m)
        → (m : Made) × (mkdir_p (suc fuel) (dirname path) ≡ some m) × IsMade (dirname path) m
    parent-IsMade fuel path shorter = elim (parts path) [
      | inl d ↦ directory-IsMade fuel (dirname path) (ap stat d ∙ dot)
      | inr (inl r) ↦ directory-IsMade fuel (dirname path) (ap stat r ∙ root)
      | inr (inr less) ↦ shorter less
    ]

    mkdir_p-within :
        (n : ℕ) (path : Bytes)
        → length path ≤ n
        → (m : Made) × (mkdir_p (suc (suc n)) path ≡ some m) × IsMade path m
    mkdir_p-within zero path short =
        mkdir_p-step 1 path (λ gone. parent-IsMade 0 path (λ less. absurd (omega arith)))
    mkdir_p-within (suc n) path short =
        mkdir_p-step (suc (suc n)) path (λ gone.
          parent-IsMade (suc n) path (λ less. mkdir_p-within n (dirname path) (omega arith)))

    -- If "." and "/" are directories and dirname gives one of them or a shorter path, `mkdir_p` ends
    -- within the length of the path and two calls. If it works, the path was a directory, or each
    -- directory that was made was missing before and its parent stood by then, down to the path.
    -- Otherwise the error names the path or one above it that is no directory, with nothing made, or
    -- one whose mkdir fails although its parent stands.
    pub mkdir_p-IsMade :
        (path : Bytes)
        → (m : Made) × (mkdir_p (suc (suc (length path))) path ≡ some m) × IsMade path m
    mkdir_p-IsMade path = mkdir_p-within (length path) path (omega arith)
