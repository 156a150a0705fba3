-- ===== src/Download/Counts.antt =====
-- src/lib/download.c: how often an instance stands in the array.
use turris_updater.Base.{
  ℕ, zero, suc, ◌+◌, ◌≡◌, refl, List, [], ◌∷◌, ◌++◌, none, some, ◌==◌, ==_iff, if◌then◌else◌, arith,
  length,
}
use turris_updater.Download.State.{last_index, remove_inst}

abbrev pub times : ℕ → List ℕ → ℕ
times p [] = 0
times p (b ∷ bs) = (if b == p then 1 else 0) + times p bs

pub times-append : (p : ℕ) (xs ys : List ℕ) → times p (xs ++ ys) ≡ times p xs + times p ys
times-append p [] ys = omega arith
times-append p (x ∷ xs) ys = omega (arith, times-append p xs ys)

pub last_index-none : (a : ℕ) (xs : List ℕ) → last_index a xs ≡ none → times a xs ≡ 0
unfolding last_index
last_index-none a [] h = refl
last_index-none a (x ∷ xs) h = ground (arith, last_index-none a xs)

-- What `last_index` finds is one of them.
pub times-removed :
    (p a i : ℕ) (xs : List ℕ)
    → last_index a xs ≡ some i
    → times p (remove_inst i xs) + (if a == p then 1 else 0) ≡ times p xs
unfolding last_index
times-removed p a i [] h = ground arith
times-removed p a zero (x ∷ xs) h = ground (arith, ==_iff x a)
times-removed p a (suc i) (x ∷ xs) h = ground (arith, times-removed p a i xs)

pub length-removed :
    (a i : ℕ) (xs : List ℕ) → last_index a xs ≡ some i → suc (length (remove_inst i xs)) ≡ length xs
unfolding last_index
length-removed a i [] h = ground arith
length-removed a zero (x ∷ xs) h = refl
length-removed a (suc i) (x ∷ xs) h = ground (arith, length-removed a i xs)
