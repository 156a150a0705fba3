-- ===== src/Cleanup/Array.antt =====
-- src/lib/util.c: `cleanup_register` and the calls that look up, remove and run.
use turris_updater.Base.{
  ℕ, zero, suc, ◌+◌, ◌-◌, Bool, true, false, ◌&&◌, List, [], ◌∷◌, ◌++◌, length, set, leb, ◌==◌,
  if◌then◌else◌,
}

-- A function pointer and the data that it is called with.
pub record Entry : Type 0 where
  pub func : ℕ
  pub arg : ℕ

-- The memory that malloc and realloc leave unset.
abbrev pub unset : Entry
unset = record { func = 0; arg = 0 }

-- `cleanup_registered` and `cleanup`; `funcs` has `allocated` places.
pub record Cleanup : Type 0 where
  pub registered : Bool
  pub size : ℕ
  pub funcs : List Entry

abbrev pub allocated : Cleanup → ℕ
allocated c = length c.funcs

abbrev pub entry_at : List Entry → ℕ → Entry
entry_at [] i = unset
entry_at (e ∷ es) zero = e
entry_at (e ∷ es) (suc i) = entry_at es i

abbrev pub unset_places : ℕ → List Entry
unset_places zero = []
unset_places (suc n) = unset ∷ unset_places n

-- The first call sets up an array of one place.
unfoldable pub initialised : Cleanup → Cleanup
initialised c =
    if c.registered then c else record { registered = true; size = 0; funcs = unset_places 1 }

-- `if ((cleanup.size + 1) >= cleanup.allocated)` doubles the array.
unfoldable pub grown : Cleanup → Cleanup
grown c =
    if leb (allocated c) (c.size + 1)
    then record c { funcs = c.funcs ++ unset_places (allocated c) }
    else c

unfoldable pub cleanup_register : Entry → Cleanup → Cleanup
unfolding initialised grown
cleanup_register e c =
    let d = grown (initialised c) in record d { size = d.size + 1; funcs = set d.funcs d.size e }

-- `for (; i > 0 && !matches(funcs[i-1]); i--);` The result is an index plus one, or 0.
unfoldable pub last_match : (Entry → Bool) → List Entry → ℕ → ℕ
last_match matches funcs zero = zero
last_match matches funcs (suc i) =
    let rest = last_match matches funcs i in if matches (entry_at funcs i) then suc i else rest

abbrev pub has_func : ℕ → Entry → Bool
has_func f e = e.func == f

abbrev pub has_both : ℕ → ℕ → Entry → Bool
has_both f a e = e.func == f && e.arg == a

unfoldable pub cleanup_lookup : ℕ → Cleanup → ℕ
unfolding last_match
cleanup_lookup f c = last_match (has_func f) c.funcs c.size

-- `for (; i < cleanup.size; i++) funcs[i - 1] = funcs[i];`, with the rounds that are left.
unfoldable pub shift_down : ℕ → ℕ → List Entry → List Entry
shift_down zero i funcs = funcs
shift_down (suc rounds) i funcs = shift_down rounds (i + 1) (set funcs (i - 1) (entry_at funcs i))

unfoldable pub cleanup_shift : ℕ → Cleanup → Cleanup
unfolding shift_down
cleanup_shift i c = record c { funcs = shift_down (c.size - i) i c.funcs; size = c.size - 1 }

-- With the place that a search has found.
unfoldable pub remove_at : ℕ → Cleanup → Cleanup × Bool
unfolding cleanup_shift
remove_at zero c = (c, false)
remove_at (suc i) c = (cleanup_shift (suc i) c, true)

unfoldable pub cleanup_unregister : ℕ → Cleanup → Cleanup × Bool
unfolding cleanup_lookup remove_at
cleanup_unregister f c = if c.registered then remove_at (cleanup_lookup f c) c else (c, false)

unfoldable pub cleanup_unregister_data : ℕ → ℕ → Cleanup → Cleanup × Bool
unfolding last_match remove_at
cleanup_unregister_data f a c =
    if c.registered then remove_at (last_match (has_both f a) c.funcs c.size) c else (c, false)

unfoldable pub run_at : ℕ → Cleanup → Cleanup × List Entry
unfolding cleanup_shift
run_at zero c = (c, [])
run_at (suc i) c = (cleanup_shift (suc i) c, entry_at c.funcs i ∷ [])

-- The new state and the calls. The handler is called before the entry goes.
unfoldable pub cleanup_run : ℕ → Cleanup → Cleanup × List Entry
unfolding cleanup_lookup run_at
cleanup_run f c = if c.registered then run_at (cleanup_lookup f c) c else (c, [])

-- `for (size_t i = cleanup.size; i > 0; i--)`
unfoldable pub calls_down : ℕ → List Entry → List Entry
calls_down zero funcs = []
calls_down (suc i) funcs = entry_at funcs i ∷ calls_down i funcs

unfoldable pub cleanup_run_all : Cleanup → Cleanup × List Entry
unfolding calls_down
cleanup_run_all c =
    if c.registered then (record c { size = 0 }, calls_down c.size c.funcs) else (c, [])
