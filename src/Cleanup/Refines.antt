-- ===== src/Cleanup/Refines.antt =====
-- The cleanup functions of src/lib/util.c against a stack of entries.
use turris_updater.Base.{
  ℕ, zero, suc, ◌+◌, ◌-◌, ◌≤◌, ◌<◌, ◌≡◌, refl, ap, Bool, true, List, [], ◌∷◌, ◌++◌, length,
  length-append, Bool-cases, inl, inr, arith,
}
use turris_updater.Cleanup.Array.{
  Entry, Cleanup, allocated, entry_at, unset_places, initialised, grown, cleanup_register, has_func,
  has_both, last_match, cleanup_lookup, cleanup_shift, remove_at, cleanup_unregister,
  cleanup_unregister_data, run_at, cleanup_run, calls_down, cleanup_run_all,
}
use turris_updater.Cleanup.Stack.{top_down, stack, without, has, topmost}
use turris_updater.Cleanup.Removal.{
  entry_at-set_self, length-set, top_down-same, top_down-set, length-shift_down, last_match-none,
  last_match-some, last_match-le, shift_down-without,
}

-- There is always a place left that is not used.
abbrev pub IsWellFormed : Cleanup → Type 0
IsWellFormed c = (c.registered ≡ true) → c.size < allocated c

length-unset_places : (n : ℕ) → length (unset_places n) ≡ n
length-unset_places zero = refl
length-unset_places (suc n) = omega (arith, length-unset_places n)

entry_at-append :
    (j : ℕ) (es fs : List Entry) → j < length es → entry_at (es ++ fs) j ≡ entry_at es j
entry_at-append j [] fs h = absurd (omega arith)
entry_at-append zero (e ∷ es) fs h = refl
entry_at-append (suc j) (e ∷ es) fs h = entry_at-append j es fs (omega arith)

top_down-append :
    (n : ℕ) (es fs : List Entry) → n ≤ length es → top_down n (es ++ fs) ≡ top_down n es
top_down-append n es fs h =
    top_down-same n (es ++ fs) es (λ j l. entry_at-append j es fs (omega arith))

-- Growing keeps the stack and makes room for two more entries.
grown-stack :
    (c : Cleanup)
    → c.size < allocated c
    → (top_down c.size (grown c).funcs ≡ top_down c.size c.funcs)
      × (c.size + 1 < allocated (grown c))
      × ((grown c).size ≡ c.size)
      × ((grown c).registered ≡ c.registered)
unfolding grown
grown-stack c h = ground (
  arith,
  top_down-append c.size c.funcs (unset_places (allocated c)),
  length-append c.funcs (unset_places (allocated c)),
  length-unset_places (allocated c),
)

initialised-stack :
    (c : Cleanup)
    → IsWellFormed c
    → (top_down (initialised c).size (initialised c).funcs ≡ stack c)
      × ((initialised c).size < allocated (initialised c))
      × ((initialised c).registered ≡ true)
unfolding initialised
initialised-stack c h = elim (Bool-cases c.registered) [
  | inl p ↦ ground arith
  | inr p ↦ ground arith
]

-- Registering in a well-formed array pushes the entry on the stack, and the array is well formed
-- after it.
pub cleanup_register-stack :
    (e : Entry) (c : Cleanup)
    → IsWellFormed c
    → (stack (cleanup_register e c) ≡ e ∷ stack c) × IsWellFormed (cleanup_register e c)
unfolding cleanup_register
cleanup_register-stack e c h = ground (
  arith,
  initialised-stack c h,
  grown-stack (initialised c),
  entry_at-set_self (initialised c).size (grown (initialised c)).funcs e,
  length-set (initialised c).size (grown (initialised c)).funcs e,
  top_down-set (initialised c).size (initialised c).size (grown (initialised c)).funcs e,
)

-- The shift at the place of the last match.
cleanup_shift-stack :
    (matches : Entry → Bool) (c : Cleanup) (i : ℕ)
    → IsWellFormed c
    → c.registered ≡ true
    → last_match matches c.funcs c.size ≡ suc i
    → (stack (cleanup_shift (suc i) c) ≡ without matches (stack c))
      × IsWellFormed (cleanup_shift (suc i) c)
unfolding cleanup_shift
cleanup_shift-stack matches c i w r h = ground (
  arith,
  w r,
  shift_down-without matches c.funcs c.size i,
  last_match-le matches c.funcs c.size,
  length-shift_down (c.size - suc i) (suc i) c.funcs,
)

remove_at-stack :
    (matches : Entry → Bool) (c : Cleanup) (loc : ℕ)
    → IsWellFormed c
    → c.registered ≡ true
    → last_match matches c.funcs c.size ≡ loc
    → (stack (remove_at loc c).0 ≡ without matches (stack c))
      × ((remove_at loc c).1 ≡ has matches (stack c))
      × IsWellFormed (remove_at loc c).0
unfolding remove_at
remove_at-stack matches c zero w r h = ground (arith, w r, last_match-none matches c.funcs c.size h)
remove_at-stack matches c (suc i) w r h =
    ground
      (arith, cleanup_shift-stack matches c i w r h, last_match-some matches c.funcs c.size i h)

-- For a well-formed array: taking a handler out by its function, or by its function and its data,
-- removes the latest match from the stack and nothing else, its result says whether there was one,
-- and the array stays well formed.
pub cleanup_unregister-stack :
    (f a : ℕ) (c : Cleanup)
    → IsWellFormed c
    → ((stack (cleanup_unregister f c).0 ≡ without (has_func f) (stack c))
        × ((cleanup_unregister f c).1 ≡ has (has_func f) (stack c))
        × IsWellFormed (cleanup_unregister f c).0)
      × (stack (cleanup_unregister_data f a c).0 ≡ without (has_both f a) (stack c))
      × ((cleanup_unregister_data f a c).1 ≡ has (has_both f a) (stack c))
      × IsWellFormed (cleanup_unregister_data f a c).0
unfolding cleanup_unregister cleanup_unregister_data cleanup_lookup
cleanup_unregister-stack f a c w = elim (Bool-cases c.registered) [
  | inl r ↦ ground (
    arith,
    remove_at-stack (has_func f) c (last_match (has_func f) c.funcs c.size) w r refl,
    remove_at-stack (has_both f a) c (last_match (has_both f a) c.funcs c.size) w r refl,
  )
  | inr r ↦ ground arith
]

run_at-stack :
    (matches : Entry → Bool) (c : Cleanup) (loc : ℕ)
    → IsWellFormed c
    → c.registered ≡ true
    → last_match matches c.funcs c.size ≡ loc
    → (stack (run_at loc c).0 ≡ without matches (stack c))
      × ((run_at loc c).1 ≡ topmost matches (stack c))
      × IsWellFormed (run_at loc c).0
unfolding run_at
run_at-stack matches c zero w r h = ground (arith, w r, last_match-none matches c.funcs c.size h)
run_at-stack matches c (suc i) w r h =
    ground
      (arith, cleanup_shift-stack matches c i w r h, last_match-some matches c.funcs c.size i h)

calls_down-stack : (n : ℕ) (es : List Entry) → calls_down n es ≡ top_down n es
unfolding calls_down
calls_down-stack zero es = refl
calls_down-stack (suc n) es = ap (◌∷◌ (entry_at es n)) (calls_down-stack n es)

-- For a well-formed array: running a function calls its latest entry, once, and removes it, or does
-- nothing when there is none; running all calls every entry, the latest first, and leaves the stack
-- empty; the array stays well formed.
pub cleanup_run-stack :
    (f : ℕ) (c : Cleanup)
    → IsWellFormed c
    → ((stack (cleanup_run f c).0 ≡ without (has_func f) (stack c))
        × ((cleanup_run f c).1 ≡ topmost (has_func f) (stack c))
        × IsWellFormed (cleanup_run f c).0)
      × (stack (cleanup_run_all c).0 ≡ [])
      × ((cleanup_run_all c).1 ≡ stack c)
      × IsWellFormed (cleanup_run_all c).0
unfolding cleanup_run cleanup_run_all cleanup_lookup
cleanup_run-stack f c w = elim (Bool-cases c.registered) [
  | inl r ↦ ground (
    arith,
    w r,
    run_at-stack (has_func f) c (last_match (has_func f) c.funcs c.size) w r refl,
    calls_down-stack c.size c.funcs,
  )
  | inr r ↦ ground arith
]
