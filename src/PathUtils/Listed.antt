-- ===== src/PathUtils/Listed.antt =====
-- src/lib/path_utils.c: what `dir_tree_list` lists.
use turris_updater.Base.{
  ◌≡◌, refl, ap, sym, ◌∙◌, Bool, true, false, ◌&&◌, List, [], ◌∷◌, ◌++◌, append_assoc, append-nil,
  subst, Option, none, some, Bytes, if◌then◌else◌, arith,
}
use mathlib.Core.List.{Perm}
use turris_updater.Base.Int.{ℤ}
use turris_updater.PathUtils.Order.{dir_tree_cmp, dir_tree_cmp-IsOrder, IsSorted, Sorts}
use turris_updater.PathUtils.Tree.{
  Node, regular, link, special, directory, Entries, empty, entry, System, by_type, join, PathType,
  is_path_type, Listing, add_item, fail_listing, go_on, list_node, list_entries, sorted_items,
  dir_tree_list,
}

module _ (sys : System) (t : PathType) where
  -- Whether every directory below a path can be opened, and the paths below it of the wanted types.
  unfoldable mutual
    pub opens_node : Bytes → Node → Bool
    opens_node path regular = true
    opens_node path link = true
    opens_node path special = true
    opens_node path (directory es) = sys.can_open path && opens_entries path es

    pub opens_entries : Bytes → Entries → Bool
    opens_entries path empty = true
    opens_entries path (entry name told n es) =
        by_type told n (opens_node (join path name) n) true && opens_entries path es

  unfoldable mutual
    pub below : Bytes → Node → List Bytes
    below path regular = []
    below path link = []
    below path special = []
    below path (directory es) = below_entries path es

    pub below_entries : Bytes → Entries → List Bytes
    below_entries path empty = []
    below_entries path (entry name told n es) =
        (if is_path_type told n t then join path name ∷ [] else [])
        ++ (by_type told n (below (join path name) n) [] ++ below_entries path es)

-- A walk that goes well adds the paths; another one leaves an error.
abbrev IsListed : Bool → List Bytes → Listing → Listing → Type 0
IsListed true ps l l' = (l'.items ≡ l.items ++ ps) × (l'.list_error ≡ none)
IsListed false ps l l' = (e : Bytes) × (l'.list_error ≡ some e)

go_on-IsListed :
    (ok more : Bool) (ps qs : List Bytes) (l l1 l2 : Listing)
    → IsListed ok ps l l1
    → (l1.list_error ≡ none → IsListed more qs l1 l2)
    → IsListed (ok && more) (ps ++ qs) l (go_on l1 l2)
go_on-IsListed true true ps qs l l1 l2 (i, e) h = ground (arith, h e, append_assoc l.items ps qs)
go_on-IsListed true false ps qs l l1 l2 (i, e) h = let (x, f) = h e in (x, ground arith)
go_on-IsListed false more ps qs l l1 l2 (x, e) h = (x, ground arith)

added-IsListed :
    (ok wanted : Bool) (path : Bytes) (ps : List Bytes) (l l' : Listing)
    → IsListed ok ps (add_item wanted path l) l'
    → IsListed ok ((if wanted then path ∷ [] else []) ++ ps) l l'
added-IsListed true true path ps l l' (i, e) = (i ∙ append_assoc l.items (path ∷ []) ps, e)
added-IsListed true false path ps l l' h = h
added-IsListed false wanted path ps l l' h = h

added_error :
    (wanted : Bool) (path : Bytes) (l : Listing)
    → l.list_error ≡ none
    → (add_item wanted path l).list_error ≡ none
added_error true path l e = e
added_error false path l e = e

nil-append : {A : Type 0} (xs : List A) → [] ++ xs ≡ xs
nil-append xs = refl

opened-IsListed :
    (opens ok : Bool) (path : Bytes) (ps : List Bytes) (l l' : Listing)
    → IsListed ok ps l l'
    → IsListed (opens && ok) ps l (if opens then l' else fail_listing path l)
opened-IsListed true ok path ps l l' h = h
opened-IsListed false ok path ps l l' h = (path, refl)

by_type-IsListed :
    (told : Bool) (n : Node) (ok : Bool) (ps : List Bytes) (l l' : Listing)
    → l.list_error ≡ none
    → IsListed ok ps l l'
    → IsListed (by_type told n ok true) (by_type told n ps []) l (by_type told n l' l)
by_type-IsListed true (directory es) ok ps l l' e h = h
by_type-IsListed true regular ok ps l l' e h = (sym (append-nil l.items), e)
by_type-IsListed true link ok ps l l' e h = (sym (append-nil l.items), e)
by_type-IsListed true special ok ps l l' e h = (sym (append-nil l.items), e)
by_type-IsListed false n ok ps l l' e h = (sym (append-nil l.items), e)

module _ (sys : System) (t : PathType) where
  mutual
    unfolding list_node list_entries opens_node opens_entries below below_entries

    list_node-IsListed :
        (path : Bytes) (n : Node) (l : Listing)
        → l.list_error ≡ none
        → IsListed (opens_node sys t path n) (below sys t path n) l (list_node sys t path n l)
    list_node-IsListed path regular l e = (sym (append-nil l.items), e)
    list_node-IsListed path link l e = (sym (append-nil l.items), e)
    list_node-IsListed path special l e = (sym (append-nil l.items), e)
    list_node-IsListed path (directory es) l e =
        opened-IsListed (sys.can_open path) (opens_entries sys t path es) path
          (below_entries sys t path es) l (list_entries sys t path es l)
          (list_entries-IsListed path es l e)

    list_entries-IsListed :
        (path : Bytes) (es : Entries) (l : Listing)
        → l.list_error ≡ none
        → IsListed
            (opens_entries sys t path es)
            (below_entries sys t path es)
            l
            (list_entries sys t path es l)
    list_entries-IsListed path empty l e = (sym (append-nil l.items), e)
    list_entries-IsListed path (entry name told n es) l e =
        let at = join path name in
        let wanted = is_path_type told n t in
        let l0 = add_item wanted at l in
        let l1 = by_type told n (list_node sys t at n l0) l0 in
        let ok = by_type told n (opens_node sys t at n) true in
        let ps = by_type told n (below sys t at n) [] in
        let e0 = added_error wanted at l e in
        added-IsListed (ok && opens_entries sys t path es) wanted at
          (ps ++ below_entries sys t path es) l (go_on l1 (list_entries sys t path es l1))
          (go_on-IsListed ok (opens_entries sys t path es) ps (below_entries sys t path es) l0 l1
            (list_entries sys t path es l1)
            (by_type-IsListed told n (opens_node sys t at n) (below sys t at n) l0
              (list_node sys t at n l0) e0 (list_node-IsListed at n l0 e0))
            (λ f. list_entries-IsListed path es l1 f))

sorted_by :
    (sys : System) (t : PathType) (sort : List Bytes → List Bytes) (ok : Bool) (ps : List Bytes)
    (l : Listing)
    → IsListed ok ps (record { items = []; list_size = 8; list_error = none }) l
    → sorted_items sys t sort l ≡ (if ok then some (sort ps) else none)
sorted_by sys t sort true ps l (i, e) = ground (arith, ap (λ b. some (sort b)) (i ∙ nil-append ps))
sorted_by sys t sort false ps l (x, e) = ground arith

dir_tree_list-sort :
    (sys : System) (t : PathType) (qsort : (Bytes → Bytes → ℤ) → List Bytes → List Bytes)
    (path : Bytes) (es : Entries)
    → dir_tree_list sys t qsort path es ≡ (
        if opens_node sys t path (directory es)
        then some (qsort dir_tree_cmp (below sys t path (directory es)))
        else none)
unfolding dir_tree_list
dir_tree_list-sort sys t qsort path es =
    sorted_by sys t (qsort dir_tree_cmp) (opens_node sys t path (directory es))
      (below sys t path (directory es))
      (list_node sys t path (directory es)
        (record { items = []; list_size = 8; list_error = none }))
      (list_node-IsListed sys t path (directory es)
        (record { items = []; list_size = 8; list_error = none }) refl)

-- A listing has these paths, once each as they are, and they are in the order of `_dir_tree_cmp`; or,
-- if a directory cannot be opened, there is none.
abbrev pub IsListing : Bool → List Bytes → Option (List Bytes) → Type 0
IsListing true ps (some l) = Perm l ps × IsSorted dir_tree_cmp l
IsListing true ps none = ⊥
IsListing false ps o = o ≡ none

-- If qsort, with an order, gives the same items and sorts them, then listing a directory gives the paths
-- of all nodes below it whose type as told by readdir is wanted, each as often as it is there, sorted
-- by `_dir_tree_cmp`, if every directory in it can be opened, and fails if one cannot. A type that
-- readdir does not tell counts as another type, and such a directory is not entered.
pub dir_tree_list-below :
    (sys : System) (t : PathType) (qsort : (Bytes → Bytes → ℤ) → List Bytes → List Bytes)
    (path : Bytes) (es : Entries)
    → ((cmp : Bytes → Bytes → ℤ) → Sorts cmp (qsort cmp))
    → IsListing
        (opens_node sys t path (directory es))
        (below sys t path (directory es))
        (dir_tree_list sys t qsort path es)
dir_tree_list-below sys t qsort path es sorts =
    subst (IsListing opens ps) (sym (dir_tree_list-sort sys t qsort path es)) (by opens)
  where
    opens : Bool
    opens = opens_node sys t path (directory es)

    ps : List Bytes
    ps = below sys t path (directory es)

    by : (ok : Bool) → IsListing ok ps (if ok then some (qsort dir_tree_cmp ps) else none)
    by true = sorts dir_tree_cmp dir_tree_cmp-IsOrder ps
    by false = refl
