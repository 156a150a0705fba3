-- ===== src/PathUtils/Examples.antt =====
-- Runs of src/lib/path_utils.c.
use turris_updater.Base.{
  ◌≡◌, refl, true, false, [], ◌∷◌, none, some, Bytes, codes, bytes_eq, not, inl, inr, Bool-cases,
  List, All, ◌==◌, if◌then◌else◌, arith,
}
use mathlib.Core.List.Perm
use mathlib.Core.List.{Perm}
use turris_updater.Base.Int.{ℤ}
use turris_updater.PathUtils.Order.{in_order, Before, IsOrder, IsSorted, Sorts}
use turris_updater.PathUtils.Tree.{
  regular, directory, Entries, empty, entry, System, PathType, remove_recursive, dir_tree_list,
}
use turris_updater.PathUtils.Listed.{opens_node, below, IsListing, dir_tree_list-below}
use turris_updater.PathUtils.Made.{
  Stat, is_dir, missing, Made, IsDirname, IsMade, mkdir_p, mkdir_p-IsMade,
}
use turris_updater.PathUtils.Removed.{removable_node, IsRemoved, remove_recursive-IsRemoved}

-- Everything works, except that one file cannot be unlinked.
abbrev stuck : System
stuck = record {
  can_stat = λ p. true;
  can_unlink = λ p. not (bytes_eq p (codes "/d/s/b"));
  can_open = λ p. true;
  can_rmdir = λ p. true;
}

-- A file, and a directory with another one.
abbrev tree : Entries
tree =
    entry (codes "a") true regular
      (entry (codes "s") true (directory (entry (codes "b") true regular empty)) empty)

abbrev all_but_dirs : PathType
all_but_dirs = record { reg = true; dir = false; lnk = true; other = true }

-- Sorting by insertion does what qsort promises.
module _ {A : Type 0} (cmp : A → A → ℤ) where
  insert : A → List A → List A
  insert x [] = x ∷ []
  insert x (y ∷ ys) = let rest = insert x ys in if in_order (cmp x y) then x ∷ y ∷ ys else y ∷ rest

  sort : List A → List A
  unfolding insert
  sort [] = []
  sort (x ∷ xs) = insert x (sort xs)

  insert_perm : (x : A) (l : List A) → Perm (insert x l) (x ∷ l)
  unfolding insert
  insert_perm x [] = Perm.refl (x ∷ [])
  insert_perm x (y ∷ ys) = elim (Bool-cases (in_order (cmp x y))) [
    | inl b ↦ rw b (Perm.refl (x ∷ y ∷ ys))
    | inr n ↦ rw n (Perm.trans (Perm.cons y (insert_perm x ys)) (Perm.swap x y ys))
  ]

  sort_perm : (l : List A) → Perm (sort l) l
  unfolding sort
  sort_perm [] = Perm.refl []
  sort_perm (x ∷ xs) = Perm.trans (insert_perm x (sort xs)) (Perm.cons x (sort_perm xs))

  module _ (order : IsOrder cmp) where
    All-Before :
        (x y : A) (l : List A) → Before cmp x y → All (Before cmp y) l → All (Before cmp x) l
    All-Before x y [] b all = tt
    All-Before x y (z ∷ zs) b all = (order.transitive x y z b all.0, All-Before x y zs b all.1)

    insert-All :
        (x y : A) (l : List A)
        → Before cmp y x
        → All (Before cmp y) l
        → All (Before cmp y) (insert x l)
    unfolding insert
    insert-All x y [] b all = (b, tt)
    insert-All x y (z ∷ zs) b all = elim (Bool-cases (in_order (cmp x z))) [
      | inl c ↦ rw c (b, all)
      | inr n ↦ rw n (all.0, insert-All x y zs b all.1)
    ]

    insert-IsSorted : (x : A) (l : List A) → IsSorted cmp l → IsSorted cmp (insert x l)
    unfolding insert
    insert-IsSorted x [] s = (tt, tt)
    insert-IsSorted x (y ∷ ys) s = elim (Bool-cases (in_order (cmp x y))) [
      | inl b ↦ rw b ((b, All-Before x y ys b s.0), s)
      | inr n ↦ rw n (insert-All x y ys (order.total x y n) s.0, insert-IsSorted x ys s.1)
    ]

    sort-IsSorted : (l : List A) → IsSorted cmp (sort l)
    unfolding sort
    sort-IsSorted [] = tt
    sort-IsSorted (x ∷ xs) = insert-IsSorted x (sort xs) (sort-IsSorted xs)

sort-Sorts : (cmp : Bytes → Bytes → ℤ) → Sorts cmp (sort cmp)
sort-Sorts cmp order l = (sort_perm cmp l, sort-IsSorted cmp order l)

dir_tree_list-below_example :
    IsListing true
      (codes "/d/a" ∷ codes "/d/s/b" ∷ [])
      (dir_tree_list stuck all_but_dirs sort (codes "/d") tree)
unfolding opens_node below
dir_tree_list-below_example =
    dir_tree_list-below stuck all_but_dirs sort (codes "/d") tree sort-Sorts

remove_recursive-IsRemoved_example :
    IsRemoved false (remove_recursive stuck (codes "/d") (some (directory tree)))
unfolding removable_node bytes_eq
remove_recursive-IsRemoved_example = remove_recursive-IsRemoved stuck (codes "/d") (directory tree)

what_is_left : remove_recursive stuck (codes "/d") (some (directory tree)) ≡ (
  some
      (directory (entry (codes "s") true (directory (entry (codes "b") true regular empty)) empty)),
  some (codes "/d/s/b"),
)
unfolding remove_recursive bytes_eq
what_is_left = refl

-- All paths lie in the root or in the working directory.
abbrev top_of : Bytes → Bytes
top_of [] = codes "."
top_of (c ∷ cs) = if c == b'/' then codes "/" else codes "."

abbrev stat_of : Bytes → Stat
stat_of path = if bytes_eq path (codes "/new") then missing else is_dir

top_of-IsDirname : IsDirname top_of stat_of (λ p. true)
top_of-IsDirname [] = inl refl
top_of-IsDirname (c ∷ cs) = elim (Bool-cases (c == b'/')) [
  | inl y ↦ inr (inl (ground (arith, y)))
  | inr n ↦ inl (ground (arith, n))
]

new_made : mkdir_p top_of stat_of (λ p. true) 6 (codes "/new") ≡ some (codes "/new" ∷ [], none)
unfolding mkdir_p bytes_eq
new_made = refl

mkdir_p-IsMade_example :
    (m : Made) × (mkdir_p top_of stat_of (λ p. true) 6 (codes "/new") ≡ some m)
    × IsMade top_of stat_of (λ p. true) (codes "/new") m
unfolding bytes_eq
mkdir_p-IsMade_example =
    mkdir_p-IsMade top_of stat_of (λ p. true) top_of-IsDirname refl refl (codes "/new")
