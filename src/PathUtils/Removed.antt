-- ===== src/PathUtils/Removed.antt =====
-- src/lib/path_utils.c: when `remove_recursive` succeeds and what it leaves.
use turris_updater.Base.{◌≡◌, refl, Bool, true, false, ◌&&◌, none, some, Bytes, arith}
use turris_updater.PathUtils.Tree.{
  Node, regular, link, special, directory, Entries, empty, entry, System, join, LeftNode,
  LeftEntries, by_type, unlinks, unlinked, after_entries, opened, then_entries, stated, remove_node,
  remove_entries, remove_recursive,
}

module _ (sys : System) where
  -- Whether every call works that the removal needs.
  unfoldable mutual
    pub removable_node : Bytes → Node → Bool
    removable_node path regular = sys.can_unlink path
    removable_node path link = sys.can_unlink path
    removable_node path special = sys.can_unlink path
    removable_node path (directory es) =
        sys.can_open path && removable_entries path es && sys.can_rmdir path

    pub removable_entries : Bytes → Entries → Bool
    removable_entries path empty = true
    removable_entries path (entry name told n es) =
        by_type told n (sys.can_stat (join path name) && removable_node (join path name) n)
          (unlinks (sys.can_unlink (join path name)) n)
        && removable_entries path es

-- With everything working nothing is left; otherwise there is an error, and something is left.
abbrev pub IsRemoved : Bool → LeftNode → Type 0
IsRemoved true (left, e) = (left ≡ none) × (e ≡ none)
IsRemoved false (left, e) = ((n : Node) × (left ≡ some n)) × ((p : Bytes) × (e ≡ some p))

abbrev AreRemoved : Bool → LeftEntries → Type 0
AreRemoved true (es, e) = (es ≡ empty) × (e ≡ none)
AreRemoved false (es, e) = (p : Bytes) × (e ≡ some p)

unlinked-IsRemoved :
    (works : Bool) (n : Node) (path : Bytes) → IsRemoved works (unlinked works n path)
unlinked-IsRemoved true n path = (refl, refl)
unlinked-IsRemoved false n path = ((n, refl), (path, refl))

stated-IsRemoved :
    (works ok : Bool) (path : Bytes) (n : Node) (removed : LeftNode)
    → IsRemoved ok removed
    → IsRemoved (works && ok) (stated works path n removed)
stated-IsRemoved true ok path n removed h = h
stated-IsRemoved false ok path n removed h = ((n, refl), (path, refl))

directory-IsRemoved :
    (opens ok works : Bool) (path : Bytes) (es : Entries) (left : LeftEntries)
    → AreRemoved ok left
    → IsRemoved (opens && ok && works) (opened opens path es (after_entries works path left))
directory-IsRemoved false ok works path es left h = ((directory es, refl), (path, refl))
directory-IsRemoved true true true path es (es', none) h = (refl, refl)
directory-IsRemoved true true false path es (es', none) h = ((directory es', refl), (path, refl))
directory-IsRemoved true true works path es (es', some e) h = ground arith
directory-IsRemoved true false works path es (es', some e) h = ((directory es', refl), (e, refl))
directory-IsRemoved true false works path es (es', none) h = ground arith

no_path : ((p : Bytes) × (none ≡ some p)) → ⊥
no_path (p, e) = ground arith

entries-AreRemoved :
    (ok more : Bool) (name : Bytes) (told : Bool) (es : Entries) (left : LeftNode)
    (rest : LeftEntries)
    → IsRemoved ok left
    → AreRemoved more rest
    → AreRemoved (ok && more) (then_entries name told es left rest)
entries-AreRemoved true true name told es (none, none) (es', e) h g = g
entries-AreRemoved true false name told es (none, none) (es', e) h g = g
entries-AreRemoved true more name told es (some n, none) rest h g = ground arith
entries-AreRemoved true more name told es (l, some e) rest h g = ground arith
entries-AreRemoved false more name told es (l, some e) rest h g = (e, refl)
entries-AreRemoved false more name told es (l, none) rest h g = absurd (no_path h.1)

by_type-IsRemoved :
    (told : Bool) (n : Node) (a b : Bool) (left other : LeftNode)
    → IsRemoved a left
    → IsRemoved b other
    → IsRemoved (by_type told n a b) (by_type told n left other)
by_type-IsRemoved true (directory es) a b left other h g = h
by_type-IsRemoved true regular a b left other h g = g
by_type-IsRemoved true link a b left other h g = g
by_type-IsRemoved true special a b left other h g = g
by_type-IsRemoved false n a b left other h g = g

module _ (sys : System) where
  mutual
    unfolding remove_node remove_entries removable_node removable_entries

    remove_node-IsRemoved :
        (path : Bytes) (n : Node) → IsRemoved (removable_node sys path n) (remove_node sys path n)
    remove_node-IsRemoved path regular = unlinked-IsRemoved (sys.can_unlink path) regular path
    remove_node-IsRemoved path link = unlinked-IsRemoved (sys.can_unlink path) link path
    remove_node-IsRemoved path special = unlinked-IsRemoved (sys.can_unlink path) special path
    remove_node-IsRemoved path (directory es) =
        directory-IsRemoved (sys.can_open path) (removable_entries sys path es) (sys.can_rmdir path)
          path es (remove_entries sys path es) (remove_entries-AreRemoved path es)

    remove_entries-AreRemoved :
        (path : Bytes) (es : Entries)
        → AreRemoved (removable_entries sys path es) (remove_entries sys path es)
    remove_entries-AreRemoved path empty = (refl, refl)
    remove_entries-AreRemoved path (entry name told n es) =
        let at = join path name in
        let ok = sys.can_stat at && removable_node sys at n in
        let works = unlinks (sys.can_unlink at) n in
        let left = stated (sys.can_stat at) at n (remove_node sys at n) in
        entries-AreRemoved (by_type told n ok works) (removable_entries sys path es) name told es
          (by_type told n left (unlinked works n at)) (remove_entries sys path es)
          (by_type-IsRemoved told n ok works left (unlinked works n at)
            (stated-IsRemoved (sys.can_stat at) (removable_node sys at n) at n
              (remove_node sys at n) (remove_node-IsRemoved at n))
            (unlinked-IsRemoved works n at))
          (remove_entries-AreRemoved path es)

-- A removal leaves nothing, without an error, exactly when every call that it needs works on its path:
-- lstat, opendir and rmdir on the directories that readdir tells as such, and unlink on all else, which
-- fails on a directory. So a directory whose type readdir does not tell is never removed. Otherwise it
-- reports a path, and something is left.
pub remove_recursive-IsRemoved :
    (sys : System) (path : Bytes) (n : Node)
    → IsRemoved
        (sys.can_stat path && removable_node sys path n)
        (remove_recursive sys path (some n))
unfolding remove_recursive
remove_recursive-IsRemoved sys path n =
    stated-IsRemoved (sys.can_stat path) (removable_node sys path n) path n (remove_node sys path n)
      (remove_node-IsRemoved sys path n)
