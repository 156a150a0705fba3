-- ===== src/Syscnf/Roots.antt =====
-- src/lib/syscnf.c: the target's root and the paths below it.
use turris_updater.Base.{
  ℕ, zero, suc, ◌-◌, ◌<◌, ◌≡◌, ◌≢◌, refl, ap, ◌∙◌, true, false, [], ◌∷◌, ◌++◌, none, some, Bytes,
  codes, bytes_eq, length, take, get_elem?, take-append_self, length-append, length-take, arith,
}
use turris_updater.Syscnf.Paths.{
  PathName, p_root_dir, p_file_status, p_dir_info, p_file_changelog, p_dir_pkg_unpacked,
  p_dir_pkg_download, p_dir_opkg_collided, default_paths, Paths, strip_slashes, absolute,
  set_root_dir, get_path, root_dir, root_dir_is_root,
}

-- A path with slashes at its end.
abbrev pub with_slashes : Bytes → ℕ → Bytes
with_slashes p zero = p
with_slashes p (suc n) = with_slashes p n ++ codes "/"

get_elem?-append_last : (xs : Bytes) (x : ℕ) → get_elem? (xs ++ x ∷ []) (length xs) ≡ some x
get_elem?-append_last [] x = refl
get_elem?-append_last (y ∷ ys) x = get_elem?-append_last ys x

-- One slash goes, if something stands before it.
strip-slash :
    (x : ℕ) (xs : Bytes)
    → strip_slashes (suc (length xs)) ((x ∷ xs) ++ codes "/") ≡ strip_slashes (length xs) (x ∷ xs)
unfolding strip_slashes
strip-slash x xs =
    ground (arith, get_elem?-append_last (x ∷ xs) b'/', take-append_self (x ∷ xs) (codes "/"))

strip-stop : (q : Bytes) (c : ℕ) → c ≢ b'/' → strip_slashes (length q) (q ++ c ∷ []) ≡ q ++ c ∷ []
unfolding strip_slashes
strip-stop [] c h = refl
strip-stop (y ∷ ys) c h = ground (arith, get_elem?-append_last (y ∷ ys) c)

with_slashes-cons : (x : ℕ) (xs : Bytes) (n : ℕ) → with_slashes (x ∷ xs) n ≡ x ∷ with_slashes xs n
with_slashes-cons x xs zero = refl
with_slashes-cons x xs (suc n) = ap (λ l. l ++ codes "/") (with_slashes-cons x xs n)

strip-with_slashes :
    (x : ℕ) (xs : Bytes) (n : ℕ)
    → strip_slashes (length (with_slashes xs n)) (x ∷ with_slashes xs n)
      ≡ strip_slashes (length xs) (x ∷ xs)
strip-with_slashes x xs zero = refl
strip-with_slashes x xs (suc n) = ground (
  arith,
  strip-slash x (with_slashes xs n),
  length-append (with_slashes xs n) (codes "/"),
  strip-with_slashes x xs n,
)

get_path-set_root_dir :
    (home cwd root : Bytes) (ps : Paths) (tp : PathName)
    → get_path tp (set_root_dir home cwd (some root) ps)
      ≡ strip_slashes (length (absolute home cwd root) - 1) (absolute home cwd root)
        ++ default_paths tp
unfolding get_path set_root_dir
get_path-set_root_dir home cwd root ps p_root_dir = refl
get_path-set_root_dir home cwd root ps p_file_status = refl
get_path-set_root_dir home cwd root ps p_dir_info = refl
get_path-set_root_dir home cwd root ps p_file_changelog = refl
get_path-set_root_dir home cwd root ps p_dir_pkg_unpacked = refl
get_path-set_root_dir home cwd root ps p_dir_pkg_download = refl
get_path-set_root_dir home cwd root ps p_dir_opkg_collided = refl

strip-end :
    (q : Bytes) (c : ℕ)
    → c ≢ b'/'
    → strip_slashes (length (q ++ c ∷ [])) (b'/' ∷ q ++ c ∷ []) ≡ b'/' ∷ q ++ c ∷ []
strip-end q c h = ground (arith, length-append q (c ∷ []), strip-stop (b'/' ∷ q) c h)

get_path-slash :
    (home cwd r : Bytes) (ps : Paths) (tp : PathName)
    → get_path tp (set_root_dir home cwd (some (b'/' ∷ r)) ps)
      ≡ strip_slashes (length r) (b'/' ∷ r) ++ default_paths tp
unfolding absolute
get_path-slash home cwd r ps tp = ground (arith, get_path-set_root_dir home cwd (b'/' ∷ r) ps tp)

-- Slashes at the end of a root do not matter: when an absolute root, whose last byte is not a slash, is
-- set with any number of slashes behind it, every path is the root without them followed by the
-- default of the path.
pub set_root_dir-slashes :
    (home cwd q : Bytes) (c n : ℕ) (ps : Paths) (tp : PathName)
    → c ≢ b'/'
    → get_path tp (set_root_dir home cwd (some (with_slashes (b'/' ∷ q ++ c ∷ []) n)) ps)
      ≡ (b'/' ∷ q ++ c ∷ []) ++ default_paths tp
unfolding absolute
set_root_dir-slashes home cwd q c n ps tp h =
    ap (λ root. get_path tp (set_root_dir home cwd (some root) ps))
      (with_slashes-cons b'/' (q ++ c ∷ []) n)
    ∙ get_path-slash home cwd (with_slashes (q ++ c ∷ []) n) ps tp
    ∙ ap (λ p. p ++ default_paths tp) (strip-with_slashes b'/' (q ++ c ∷ []) n ∙ strip-end q c h)

-- Something is left of a path.
strip-nonempty : (last : ℕ) (p : Bytes) → last < length p → 0 < length (strip_slashes last p)
unfolding strip_slashes
strip-nonempty zero p h = omega arith
strip-nonempty (suc last) p h =
    ground (arith, length-take (suc last) p, strip-nonempty last (take (suc last) p))

not-root : (p : Bytes) → 0 < length p → bytes_eq (codes "/") (p ++ codes "/") ≡ false
unfolding bytes_eq
not-root [] h = absurd (omega arith)
not-root (x ∷ []) h = ground arith
not-root (x ∷ y ∷ ys) h = ground arith

absolute-nonempty : (home cwd root : Bytes) → 0 < length (absolute home cwd root)
unfolding absolute bytes_eq
absolute-nonempty home cwd [] =
    ground (arith, length-append cwd (codes "/"), length-append (cwd ++ codes "/") [])
absolute-nonempty home cwd (x ∷ []) =
    ground (arith, length-append cwd (codes "/"), length-append (cwd ++ codes "/") (x ∷ []))
absolute-nonempty home cwd (x ∷ y ∷ ys) = ground (
  arith,
  length-append cwd (codes "/"),
  length-append (cwd ++ codes "/") (x ∷ y ∷ ys),
  length-append home (y ∷ ys),
)

no_root :
    (home cwd : Bytes) (ps : Paths)
    → bytes_eq (codes "/") (get_path p_root_dir (set_root_dir home cwd none ps)) ≡ true
unfolding get_path set_root_dir bytes_eq
no_root home cwd ps = refl

-- The target counts as the running system exactly when no root is set: any root that is set, the
-- string "/" included, makes another root directory than "/", and without a root it is "/".
pub root_dir_is_root-none :
    (home cwd root : Bytes) (ps : Paths)
    → (root_dir_is_root (set_root_dir home cwd (some root) ps) ≡ false)
      × (root_dir_is_root (set_root_dir home cwd none ps) ≡ true)
unfolding root_dir_is_root root_dir
root_dir_is_root-none home cwd root ps = (
  ground (
    arith,
    get_path-set_root_dir home cwd root ps p_root_dir,
    absolute-nonempty home cwd root,
    strip-nonempty (length (absolute home cwd root) - 1) (absolute home cwd root),
    not-root (strip_slashes (length (absolute home cwd root) - 1) (absolute home cwd root)),
  ),
  no_root home cwd ps,
)
