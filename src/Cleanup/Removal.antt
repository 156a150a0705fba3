-- ===== src/Cleanup/Removal.antt =====
-- The search and the shift of src/lib/util.c on the array, against the stack.
use turris_updater.Base.{
  ℕ, zero, suc, ◌+◌, ◌-◌, ◌≤◌, ◌<◌, ◌≡◌, ◌≢◌, refl, ◌∙◌, ap, Bool, true, false, List, [], ◌∷◌,
  length, set, ltb, leb, ◌==◌, if◌then◌else◌, ◌&&◌, arith,
}
use turris_updater.Cleanup.Array.{Entry, entry_at, last_match, shift_down}
use turris_updater.Cleanup.Stack.{top_down, without, has, topmost}

entry_at-set_ne :
    (i j : ℕ) (es : List Entry) (e : Entry) → i ≢ j → entry_at (set es i e) j ≡ entry_at es j
entry_at-set_ne i j [] e h = refl
entry_at-set_ne zero zero (x ∷ es) e h = absurd (h refl)
entry_at-set_ne zero (suc j) (x ∷ es) e h = refl
entry_at-set_ne (suc i) zero (x ∷ es) e h = refl
entry_at-set_ne (suc i) (suc j) (x ∷ es) e h = entry_at-set_ne i j es e (λ p. h (ap suc p))

pub entry_at-set_self :
    (i : ℕ) (es : List Entry) (e : Entry) → i < length es → entry_at (set es i e) i ≡ e
entry_at-set_self i [] e h = elim h [ ]
entry_at-set_self zero (x ∷ es) e h = refl
entry_at-set_self (suc i) (x ∷ es) e h = entry_at-set_self i es e (omega arith)

pub length-set : (i : ℕ) (es : List Entry) (e : Entry) → length (set es i e) ≡ length es
length-set i [] e = refl
length-set zero (x ∷ es) e = refl
length-set (suc i) (x ∷ es) e = ap suc (length-set i es e)

pub top_down-same :
    (n : ℕ) (es fs : List Entry)
    → ((j : ℕ) → j < n → entry_at es j ≡ entry_at fs j)
    → top_down n es ≡ top_down n fs
top_down-same zero es fs h = refl
top_down-same (suc n) es fs h =
    ground (arith, h n, top_down-same n es fs (λ j l. h j (omega arith)))

-- A write at or above `n` does not show below it.
pub top_down-set :
    (n i : ℕ) (es : List Entry) (e : Entry) → n ≤ i → top_down n (set es i e) ≡ top_down n es
top_down-set n i es e h =
    top_down-same n (set es i e) es (λ j l. entry_at-set_ne i j es e (λ p. absurd (omega arith)))

-- A write, read at any place.
entry_at-set :
    (i j : ℕ) (es : List Entry) (e : Entry)
    → i < length es
    → entry_at (set es i e) j ≡ (if i == j then e else entry_at es j)
entry_at-set i j [] e h = elim h [ ]
entry_at-set zero zero (x ∷ es) e h = ground arith
entry_at-set zero (suc j) (x ∷ es) e h = ground arith
entry_at-set (suc i) zero (x ∷ es) e h = ground arith
entry_at-set (suc i) (suc j) (x ∷ es) e h = ground (arith, entry_at-set i j es e)

-- What the shift leaves in each place, `k` being one below its first index.
shift_down-at :
    (rounds k j : ℕ) (es : List Entry)
    → k + rounds < length es
    → entry_at (shift_down rounds (suc k) es) j
      ≡ (if leb k j && ltb j (k + rounds) then entry_at es (suc j) else entry_at es j)
unfolding shift_down
shift_down-at zero k j es h = ground arith
shift_down-at (suc rounds) k j es h = ground (
  arith,
  shift_down-at rounds (suc k) j (set es k (entry_at es (suc k))),
  length-set k es (entry_at es (suc k)),
  entry_at-set k j es (entry_at es (suc k)),
  entry_at-set k (suc j) es (entry_at es (suc k)),
)

pub last_match-le : (matches : Entry → Bool) (es : List Entry) (n : ℕ) → last_match matches es n ≤ n
unfolding last_match
last_match-le matches es zero = omega arith
last_match-le matches es (suc n) = ground (arith, last_match-le matches es n)

-- The search finds a place exactly when the stack has a match, and its entry is the topmost match.
pub last_match-none :
    (matches : Entry → Bool) (es : List Entry) (n : ℕ)
    → last_match matches es n ≡ 0
    → (has matches (top_down n es) ≡ false)
      × (without matches (top_down n es) ≡ top_down n es)
      × (topmost matches (top_down n es) ≡ [])
unfolding last_match
last_match-none matches es zero h = (refl, refl, refl)
last_match-none matches es (suc n) h = ground (arith, last_match-none matches es n)

pub last_match-some :
    (matches : Entry → Bool) (es : List Entry) (n i : ℕ)
    → last_match matches es n ≡ suc i
    → (has matches (top_down n es) ≡ true) × (topmost matches (top_down n es) ≡ entry_at es i ∷ [])
unfolding last_match
last_match-some matches es zero i h = absurd (omega arith)
last_match-some matches es (suc n) i h = ground (arith, last_match-some matches es n i)

-- The last step of a shift moves the entry at the top.
shift_down-top :
    (n i : ℕ) (es : List Entry)
    → i < n
    → n < length es
    → top_down n (shift_down (n - i) (suc i) es)
      ≡ entry_at es n ∷ top_down (n - 1) (shift_down (n - 1 - i) (suc i) es)
shift_down-top zero i es h g = absurd (omega arith)
shift_down-top (suc m) i es h g = ground (
  arith,
  shift_down-at (suc m - i) i m es (omega arith),
  top_down-same m (shift_down (suc m - i) (suc i) es) (shift_down (m - i) (suc i) es)
      (λ j l. ground (arith, shift_down-at (suc m - i) i j es, shift_down-at (m - i) i j es)),
)

pub shift_down-without :
    (matches : Entry → Bool) (es : List Entry) (n i : ℕ)
    → n ≤ length es
    → last_match matches es n ≡ suc i
    → top_down (n - 1) (shift_down (n - suc i) (suc i) es) ≡ without matches (top_down n es)
unfolding last_match shift_down
shift_down-without matches es zero i g h = absurd (omega arith)
shift_down-without matches es (suc n) i g h =
    ground
      (arith, shift_down-without matches es n i, last_match-le matches es n, shift_down-top n i es)

pub length-shift_down :
    (rounds i : ℕ) (es : List Entry) → length (shift_down rounds i es) ≡ length es
unfolding shift_down
length-shift_down zero i es = refl
length-shift_down (suc rounds) i es =
    length-shift_down rounds (i + 1) (set es (i - 1) (entry_at es i))
    ∙ length-set (i - 1) es (entry_at es i)
