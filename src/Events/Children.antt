-- ===== src/Events/Children.antt =====
-- src/lib/events.c: what `watch_child` and `watch_cancel` do to the array of children.
use turris_updater.Base.{
  ℕ, zero, suc, ◌+◌, ◌<◌, ◌≤◌, ◌≡◌, ◌≢◌, refl, ap, Bool, true, false, List, [], ◌∷◌, ◌++◌, none,
  some, length, ltb, take, ◌==◌, ==_iff, ==_refl, if◌then◌else◌, Bool-cases, Option-cases, inl, inr,
  arith,
}
use turris_updater.Events.State.{
  WaitId, ChildCallback, Child, Events, returns, child_id, find_index, replace_with_last, last_of,
}
use turris_updater.Events.Queue.{ensure_free, child_lookup, child_pop, watch_child}
use turris_updater.Events.Commands.{is_some}
use turris_updater.Events.Wait.{watch_cancel, cancel_pending, cancel_child, child_at}

-- How many children have the pid.
abbrev pub watchers : ℕ → List Child → ℕ
watchers p [] = 0
watchers p (c ∷ cs) = (if c.child_pid == p then 1 else 0) + watchers p cs

abbrev pub IsUnique : Events → Type 0
IsUnique ev = (p : ℕ) → watchers p ev.children ≤ 1

abbrev has_pid : ℕ → Child → Bool
has_pid p c = c.child_pid == p

lookup-none : (p : ℕ) (cs : List Child) → find_index (has_pid p) cs ≡ none → watchers p cs ≡ 0
unfolding find_index
lookup-none p [] h = refl
lookup-none p (c ∷ cs) h = ground (arith, lookup-none p cs)

watchers-none : (p : ℕ) (cs : List Child) → watchers p cs ≡ 0 → find_index (has_pid p) cs ≡ none
unfolding find_index
watchers-none p [] h = refl
watchers-none p (c ∷ cs) h = ground (arith, watchers-none p cs)

lookup-some :
    (p i : ℕ) (cs : List Child)
    → find_index (has_pid p) cs ≡ some i
    → (c : Child) × (child_at i cs ≡ some c) × (c.child_pid ≡ p)
unfolding find_index
lookup-some p i [] h = ground arith
lookup-some p zero (c ∷ cs) h = elim (Bool-cases (has_pid p c)) [
  | inl y ↦ (c, refl, (==_iff c.child_pid p).0 y)
  | inr n ↦ elim (Option-cases (find_index (has_pid p) cs)) [
    | inl e ↦ ground arith
    | inr (j, e) ↦ ground arith
  ]
]
lookup-some p (suc i) (c ∷ cs) h = elim (Bool-cases (has_pid p c)) [
  | inl y ↦ ground arith
  | inr n ↦ elim (Option-cases (find_index (has_pid p) cs)) [
    | inl e ↦ ground arith
    | inr (j, e) ↦ lookup-some p i cs (ground arith)
  ]
]

watchers-append :
    (p : ℕ) (cs ds : List Child) → watchers p (cs ++ ds) ≡ watchers p cs + watchers p ds
watchers-append p [] ds = omega arith
watchers-append p (c ∷ cs) ds = omega (arith, watchers-append p cs ds)

-- The list without its last element.
watchers-init :
    (p : ℕ) (c : Child) (cs : List Child)
    → watchers p (take (length cs) (c ∷ cs)) + (if (last_of c cs).child_pid == p then 1 else 0)
      ≡ watchers p (c ∷ cs)
watchers-init p c [] = omega arith
watchers-init p c (d ∷ ds) = ground (arith, watchers-init p d ds)

watchers-replaced :
    (p i : ℕ) (cs : List Child) (c : Child)
    → child_at i cs ≡ some c
    → watchers p (replace_with_last i cs) + (if c.child_pid == p then 1 else 0) ≡ watchers p cs
unfolding replace_with_last
watchers-replaced p i [] c h = ground arith
watchers-replaced p zero (d ∷ []) c h = ground arith
watchers-replaced p zero (d ∷ e ∷ es) c h = ground (arith, watchers-init p e es)
watchers-replaced p (suc i) (d ∷ []) c h = ground arith
watchers-replaced p (suc i) (d ∷ e ∷ es) c h = ground (arith, watchers-replaced p i (e ∷ es) c)

some-lookup :
    (p : ℕ) (cs : List Child) → 0 < watchers p cs → is_some (find_index (has_pid p) cs) ≡ true
some-lookup p cs h = elim (Option-cases (find_index (has_pid p) cs)) [
  | inl e ↦ absurd (omega (arith, lookup-none p cs e))
  | inr (i, e) ↦ ground arith
]

lookup-watchers :
    (p : ℕ) (cs : List Child) → is_some (find_index (has_pid p) cs) ≡ ltb 0 (watchers p cs)
lookup-watchers p cs = elim (Option-cases (find_index (has_pid p) cs)) [
  | inl e ↦ ground (arith, lookup-none p cs e)
  | inr (i, e) ↦ elim (Bool-cases (ltb 0 (watchers p cs))) [
    | inl y ↦ ground arith
    | inr n ↦ ground (arith, watchers-none p cs)
  ]
]

abbrev new_child : ℕ → ChildCallback → Child
new_child p f = record { child_pid = p; callback = f; child_status = 0 }

watched :
    (works : Bool) (f : ChildCallback) (p : ℕ) (ev ev' : Events) (id : WaitId)
    → watch_child works f p ev ≡ returns (ev', id)
    → (ev'.children ≡ ev.children ++ new_child p f ∷ [])
      × (id ≡ child_id p)
      × (child_lookup p ev ≡ none)
      × (ev'.pending ≡ ev.pending)
unfolding watch_child ensure_free
watched works f p ev ev' id h = elim (Option-cases (child_lookup p ev)) [
  | inl e ↦ ground arith
  | inr (i, e) ↦ ground arith
]

pop-returns :
    (i : ℕ) (c : Child) (ev : Events)
    → child_at i ev.children ≡ some c
    → child_pop i ev ≡ returns (record ev { children = replace_with_last i ev.children })
unfolding child_pop
pop-returns i c ev h = by ev.children refl
  where
    by :
        (cs : List Child)
        → ev.children ≡ cs
        → child_pop i ev ≡ returns (record ev { children = replace_with_last i ev.children })
    by [] e = ground arith
    by (d ∷ ds) e = ground arith

-- Watching a pid succeeds only if it is not watched yet, and then it is watched, its callback is
-- not called yet, and still no pid is watched twice.
pub watch_child-IsUnique :
    (works : Bool) (f : ChildCallback) (p : ℕ) (ev ev' : Events) (id : WaitId)
    → IsUnique ev
    → watch_child works f p ev ≡ returns (ev', id)
    → IsUnique ev'
      × (id ≡ child_id p)
      × (is_some (child_lookup p ev) ≡ false)
      × (is_some (child_lookup p ev') ≡ true)
      × (ev'.pending ≡ ev.pending)
unfolding watch_child child_lookup ensure_free
watch_child-IsUnique works f p ev ev' id u h =
    let (c, i, n, q) = watched works f p ev ev' id h in
    (
      λ r. ground (
        arith,
        c,
        u r,
        watchers-append r ev.children (new_child p f ∷ []),
        lookup-none p ev.children n,
        ==_iff p r,
      ),
      i,
      ap is_some n,
      some-lookup p ev'.children
          (ground (arith, c, watchers-append p ev.children (new_child p f ∷ []), ==_refl p)),
      q,
    )

-- When no pid is watched twice, cancelling the watch of a child always succeeds, and afterwards its pid is
-- not watched, every other pid is watched exactly if it was, and still none is watched twice.
pub watch_cancel-child :
    (p : ℕ) (ev : Events)
    → IsUnique ev
    → (ev' : Events) × (watch_cancel (child_id p) ev ≡ returns ev')
      × IsUnique ev'
      × (child_lookup p ev' ≡ none)
      × ((q : ℕ) → q ≢ p → is_some (child_lookup q ev') ≡ is_some (child_lookup q ev))
unfolding watch_cancel cancel_child child_pop child_lookup
watch_cancel-child p ev u = elim (Option-cases (child_lookup p ev)) [
  | inl e ↦ (
    record ev { pending = cancel_pending (child_id p) ev.pending },
    ground arith,
    u,
    e,
    λ q n. refl,
  )
  | inr (i, e) ↦
      let ev1 = record ev { pending = cancel_pending (child_id p) ev.pending } in
      let (c, at, same) = lookup-some p i ev.children e in
      (
        record ev1 { children = replace_with_last i ev.children },
        ground (arith, pop-returns i c ev1 at),
        λ q. omega (arith, u q, watchers-replaced q i ev.children c at),
        watchers-none p (replace_with_last i ev.children)
            (ground (arith, u p, watchers-replaced p i ev.children c at)),
        λ q n. ground (
          arith,
          lookup-watchers q ev.children,
          lookup-watchers q (replace_with_last i ev.children),
          watchers-replaced q i ev.children c at,
          ==_iff p q,
        ),
      )
]
