-- ===== src/PathUtils/Order.antt =====
-- src/lib/path_utils.c: the order `_dir_tree_cmp` that the paths of a listing are sorted by, and what the
-- library's qsort promises.
use mathlib.Core.List.{Perm}
use turris_updater.Base.{
  zero, suc, ◌≡◌, refl, Bool, true, false, List, [], ◌∷◌, Bytes, All, ltb, ◌==◌, if◌then◌else◌,
  arith,
}
use turris_updater.Base.Int.{ℤ, pos, negsuc}

-- strcmp, whose result counts by its sign.
unfoldable pub strcmp : Bytes → Bytes → ℤ
strcmp [] [] = pos 0
strcmp [] (b ∷ ys) = negsuc 0
strcmp (a ∷ xs) [] = pos 1
strcmp (a ∷ xs) (b ∷ ys) =
    let rest = strcmp xs ys in if a == b then rest else if ltb a b then negsuc 0 else pos 1

abbrev pub dir_tree_cmp : Bytes → Bytes → ℤ
dir_tree_cmp = strcmp

-- The first of two may stand before the second.
abbrev pub in_order : ℤ → Bool
in_order (pos zero) = true
in_order (pos (suc n)) = false
in_order (negsuc n) = true

module _ {A : Type 0} (cmp : A → A → ℤ) where
  abbrev pub Before : A → A → Type 0
  Before a b = in_order (cmp a b) ≡ true

  pub record IsOrder : Type 0 where
    pub total : (a b : A) → in_order (cmp a b) ≡ false → Before b a
    pub transitive : (a b c : A) → Before a b → Before b c → Before a c

  abbrev pub IsSorted : List A → Type 0
  IsSorted [] = Unit
  IsSorted (x ∷ xs) = All (Before x) xs × IsSorted xs

strcmp-total : (a b : Bytes) → in_order (strcmp a b) ≡ false → in_order (strcmp b a) ≡ true
unfolding strcmp
strcmp-total [] [] e = ground arith
strcmp-total [] (b ∷ ys) e = ground arith
strcmp-total (a ∷ xs) [] e = refl
strcmp-total (a ∷ xs) (b ∷ ys) e = ground (arith, strcmp-total xs ys)

strcmp-transitive :
    (a b c : Bytes)
    → in_order (strcmp a b) ≡ true
    → in_order (strcmp b c) ≡ true
    → in_order (strcmp a c) ≡ true
unfolding strcmp
strcmp-transitive [] b [] e f = refl
strcmp-transitive [] b (c ∷ zs) e f = refl
strcmp-transitive (a ∷ xs) [] c e f = ground arith
strcmp-transitive (a ∷ xs) (b ∷ ys) [] e f = ground arith
strcmp-transitive (a ∷ xs) (b ∷ ys) (c ∷ zs) e f = ground (arith, strcmp-transitive xs ys zs)

pub dir_tree_cmp-IsOrder : IsOrder dir_tree_cmp
dir_tree_cmp-IsOrder = record { total = strcmp-total; transitive = strcmp-transitive }

-- qsort(3): with an order, the same items, sorted.
abbrev pub Sorts : {A : Type 0} → (A → A → ℤ) → (List A → List A) → Type 0
Sorts cmp sort = IsOrder cmp → (l : List _) → Perm (sort l) l × IsSorted cmp (sort l)
