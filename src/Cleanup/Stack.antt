-- ===== src/Cleanup/Stack.antt =====
-- The stack that the array of src/lib/util.c stands for: a list, the latest entry first.
use turris_updater.Base.{ℕ, zero, suc, Bool, true, false, List, [], ◌∷◌, if◌then◌else◌}
use turris_updater.Cleanup.Array.{Entry, Cleanup, entry_at}

-- The entries below `n`, the highest first.
abbrev pub top_down : ℕ → List Entry → List Entry
top_down zero funcs = []
top_down (suc n) funcs = entry_at funcs n ∷ top_down n funcs

abbrev pub stack : Cleanup → List Entry
stack c = if c.registered then top_down c.size c.funcs else []

-- The stack without its topmost match, and whether there is one.
abbrev pub without : (Entry → Bool) → List Entry → List Entry
without matches [] = []
without matches (e ∷ es) = if matches e then es else e ∷ without matches es

abbrev pub has : (Entry → Bool) → List Entry → Bool
has matches [] = false
has matches (e ∷ es) = if matches e then true else has matches es

-- The topmost match, as a list of at most one.
abbrev pub topmost : (Entry → Bool) → List Entry → List Entry
topmost matches [] = []
topmost matches (e ∷ es) = if matches e then e ∷ [] else topmost matches es
