-- ===== src/PathUtils/Tree.antt =====
-- src/lib/path_utils.c: `remove_recursive` and `_dir_tree_list` on a tree. Which system calls fail is an
-- argument, by path; the entries come in the order of readdir, without the dot ones.
use turris_updater.Base.{
  ℕ, ◌*◌, Bool, true, false, List, [], ◌∷◌, ◌++◌, Option, none, some, Bytes, codes, length, leb,
  if◌then◌else◌,
}
use turris_updater.Base.Int.{ℤ}
use turris_updater.PathUtils.Order.{dir_tree_cmp}

mutual
  pub data Node : Type 0 where
    regular : Node
    link : Node
    special : Node
    directory : Entries → Node

  -- The flag says whether readdir tells the type of the node; otherwise `d_type` is DT_UNKNOWN.
  pub data Entries : Type 0 where
    empty : Entries
    entry : Bytes → Bool → Node → Entries → Entries

-- `ent->d_type == DT_DIR`
abbrev pub by_type : {A : Type 0} → Bool → Node → A → A → A
by_type true (directory es) dir other = dir
by_type true regular dir other = other
by_type true link dir other = other
by_type true special dir other = other
by_type false n dir other = other

-- unlink and unlinkat without flags fail on a directory.
abbrev pub unlinks : Bool → Node → Bool
unlinks works (directory es) = false
unlinks works regular = works
unlinks works link = works
unlinks works special = works

-- Which calls work on which path: lstat, unlink and unlinkat, opendir, rmdir.
pub record System : Type 0 where
  pub can_stat : Bytes → Bool
  pub can_unlink : Bytes → Bool
  pub can_open : Bytes → Bool
  pub can_rmdir : Bytes → Bool

-- aprintf("%s/%s", path, ent->d_name)
abbrev pub join : Bytes → Bytes → Bytes
join path name = path ++ codes "/" ++ name

-- What is left of a node or of entries, and the path of the error.
abbrev pub LeftNode : Type 0
LeftNode = Option Node × Option Bytes

abbrev pub LeftEntries : Type 0
LeftEntries = Entries × Option Bytes

abbrev pub unlinked : Bool → Node → Bytes → LeftNode
unlinked true n path = (none, none)
unlinked false n path = (some n, some path)

-- `rmdir` after the entries, or the error from them.
abbrev pub after_entries : Bool → Bytes → LeftEntries → LeftNode
after_entries works path (es, some e) = (some (directory es), some e)
after_entries true path (es, none) = (none, none)
after_entries false path (es, none) = (some (directory es), some path)

abbrev pub opened : Bool → Bytes → Entries → LeftNode → LeftNode
opened true path es removed = removed
opened false path es removed = (some (directory es), some path)

-- One entry and then the others, which are not reached after an error.
abbrev pub kept : Bytes → Bool → Option Node → Entries → Entries
kept name told none es = es
kept name told (some n) es = entry name told n es

abbrev pub then_entries : Bytes → Bool → Entries → LeftNode → LeftEntries → LeftEntries
then_entries name told es (left, some e) more = (kept name told left es, some e)
then_entries name told es (left, none) (es', e) = (kept name told left es', e)

abbrev pub stated : Bool → Bytes → Node → LeftNode → LeftNode
stated true path n removed = removed
stated false path n removed = (some n, some path)

module _ (sys : System) where
  unfoldable mutual
    -- From the test of the file's type on.
    pub remove_node : Bytes → Node → LeftNode
    remove_node path regular = unlinked (sys.can_unlink path) regular path
    remove_node path link = unlinked (sys.can_unlink path) link path
    remove_node path special = unlinked (sys.can_unlink path) special path
    remove_node path (directory es) =
        opened (sys.can_open path) path es
          (after_entries (sys.can_rmdir path) path (remove_entries path es))

    -- The loop over the entries: what readdir calls a directory is removed by the function itself, which
    -- calls lstat first.
    pub remove_entries : Bytes → Entries → LeftEntries
    remove_entries path empty = (empty, none)
    remove_entries path (entry name told n es) =
        then_entries name told es
          (by_type told n
            (stated (sys.can_stat (join path name)) (join path name) n
              (remove_node (join path name) n))
            (unlinked (unlinks (sys.can_unlink (join path name)) n) n (join path name)))
          (remove_entries path es)

  -- A path that does not exist is no error.
  unfoldable pub remove_recursive : Bytes → Option Node → LeftNode
  unfolding remove_node
  remove_recursive path none = (none, none)
  remove_recursive path (some n) = stated (sys.can_stat path) path n (remove_node path n)

-- `path_type`: the flags of the types to list.
pub record PathType : Type 0 where
  pub reg : Bool
  pub dir : Bool
  pub lnk : Bool
  pub other : Bool

abbrev pub is_path_type : Bool → Node → PathType → Bool
is_path_type true regular t = t.reg
is_path_type true (directory es) t = t.dir
is_path_type true link t = t.lnk
is_path_type true special t = t.other
is_path_type false n t = t.other

-- `*list` with the places allocated, and the path of an error.
pub record Listing : Type 0 where
  pub items : List Bytes
  pub list_size : ℕ
  pub list_error : Option Bytes

-- `*list_size *= 2` if no place is left, then the path is added.
abbrev pub add_item : Bool → Bytes → Listing → Listing
add_item false path l = l
add_item true path l = record l {
  items = l.items ++ path ∷ [];
  list_size = if leb l.list_size (length l.items) then l.list_size * 2 else l.list_size;
}

abbrev pub fail_listing : Bytes → Listing → Listing
fail_listing path l = record l { list_error = some path }

-- An error ends the loops above it.
abbrev pub go_on : Listing → Listing → Listing
go_on l rest = elim l.list_error [ none ↦ rest | some e ↦ l ]

module _ (sys : System) (t : PathType) where
  unfoldable mutual
    -- The recursive call, for a directory.
    pub list_node : Bytes → Node → Listing → Listing
    list_node path regular l = l
    list_node path link l = l
    list_node path special l = l
    list_node path (directory es) l =
        let listed = list_entries path es l in
        if sys.can_open path then listed else fail_listing path l

    -- The loop over the entries of `path`.
    pub list_entries : Bytes → Entries → Listing → Listing
    list_entries path empty l = l
    list_entries path (entry name told n es) l =
        let l0 = add_item (is_path_type told n t) (join path name) l in
        let l1 = by_type told n (list_node (join path name) n l0) l0 in
        go_on l1 (list_entries path es l1)

  abbrev pub sorted_items : (List Bytes → List Bytes) → Listing → Option (List Bytes)
  sorted_items sort l = elim l.list_error [ none ↦ some (sort l.items) | some e ↦ none ]

  -- `qsort` is qsort(3); on an error the list is freed.
  unfoldable pub dir_tree_list :
      ((Bytes → Bytes → ℤ) → List Bytes → List Bytes) → Bytes → Entries → Option (List Bytes)
  unfolding list_node
  dir_tree_list qsort path es =
      sorted_items (qsort dir_tree_cmp)
        (list_node path (directory es) (record { items = []; list_size = 8; list_error = none }))
