-- ===== src/Events/Active.antt =====
-- src/lib/events.c: which ids `events_wait` keeps waiting for.
use turris_updater.Base.{
  ℕ, zero, suc, ◌≡◌, refl, Bool, true, false, List, [], ◌∷◌, All, length, length-take, take,
  if◌then◌else◌, arith,
}
use turris_updater.Events.State.{WaitId, Events, returns, replace_with_last, last_of}
use turris_updater.Events.State.{bind-returns}
use turris_updater.Events.Wait.{is_active, drop_inactive}

-- The first id that is left, if any, is active; if none is left, all of them were inactive.
abbrev pub IsDecided : Events → List WaitId → List WaitId → Type 0
IsDecided ev ids [] = All (λ id. is_active ev id ≡ returns false) ids
IsDecided ev ids (id ∷ left) = is_active ev id ≡ returns true

All-replaced :
    {A : Type 0} (P : A → Type 0) (x : A) (xs : List A)
    → All P (last_of x xs ∷ take (length xs) (x ∷ xs))
    → All P (x ∷ xs)
All-replaced P x [] h = (h.0, tt)
All-replaced P x (y ∷ ys) h = (h.1.0, All-replaced P y ys (h.0, h.1.1))

length-replaced :
    {A : Type 0} (x : A) (xs : List A) → length (replace_with_last 0 (x ∷ xs)) ≡ length xs
unfolding replace_with_last
length-replaced x xs = ground (arith, length-take (length xs) (last_of x xs ∷ xs))

-- An id that was dropped is inactive, and the others were looked at.
more :
    (ev : Events) (id : WaitId) (ids left : List WaitId)
    → is_active ev id ≡ returns false
    → IsDecided ev (replace_with_last 0 (id ∷ ids)) left
    → IsDecided ev (id ∷ ids) left
unfolding replace_with_last
more ev id [] [] f d = (f, tt)
more ev id (x ∷ xs) [] f d = (f, All-replaced (λ i. is_active ev i ≡ returns false) x xs d)
more ev id ids (l ∷ ls) f d = d

decided-by :
    (n : ℕ) (ev : Events) (id : WaitId) (ids left : List WaitId) (found : Bool)
    → is_active ev id ≡ returns found
    → (if found then returns (id ∷ ids) else drop_inactive n ev (replace_with_last 0 (id ∷ ids)))
      ≡ returns left
    → (drop_inactive n ev (replace_with_last 0 (id ∷ ids)) ≡ returns left
        → IsDecided ev (replace_with_last 0 (id ∷ ids)) left)
    → IsDecided ev (id ∷ ids) left
decided-by n ev id ids [] true f rest k = ground arith
decided-by n ev id ids (l ∷ ls) true f rest k = ground arith
decided-by n ev id ids left false f rest k = more ev id ids left f (k rest)

drop_inactive-IsDecided :
    (n : ℕ) (ev : Events) (ids left : List WaitId)
    → n ≡ length ids
    → drop_inactive n ev ids ≡ returns left
    → IsDecided ev ids left
unfolding drop_inactive
drop_inactive-IsDecided zero ev [] left e h = ground arith
drop_inactive-IsDecided zero ev (id ∷ ids) left e h = absurd (omega arith)
drop_inactive-IsDecided (suc n) ev [] left e h = absurd (omega arith)
drop_inactive-IsDecided (suc n) ev (id ∷ ids) left e h =
    let (found, f, rest) =
      bind-returns (is_active ev id)
        (λ found.
          if found then returns (id ∷ ids) else drop_inactive n ev (replace_with_last 0 (id ∷ ids)))
        left h in
    decided-by n ev id ids left found f rest (λ r.
      drop_inactive-IsDecided n ev (replace_with_last 0 (id ∷ ids)) left
        (omega (arith, e, length-replaced id ids)) r)

-- What `events_wait` goes on waiting for: when the loop over the ids leaves none, every id that was
-- waited for is inactive, that is, its child or command is not watched; when it leaves some, the
-- first of them is active.
pub drop_inactive-decides :
    (ev : Events) (ids left : List WaitId)
    → drop_inactive (length ids) ev ids ≡ returns left
    → IsDecided ev ids left
drop_inactive-decides ev ids left h = drop_inactive-IsDecided (length ids) ev ids left refl h
