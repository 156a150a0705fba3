-- ===== src/Events/Ends.antt =====
-- src/lib/events.c: the loop over pending callbacks ends.
use turris_updater.Base.{
  ℕ, zero, suc, ◌+◌, ◌*◌, ◌<◌, ◌≤◌, ◌≡◌, refl, Bool, true, false, List, [], ◌∷◌, ◌++◌, Option, none,
  some, length, length-append, length-take, set, Option-cases, inl, inr, arith,
}
use turris_updater.Events.State.{
  WaitType, wt_child, wt_command, WaitId, Child, ChildCallback, command_terminated, user_callback,
  Command, Events, Outcome, returns, dies, wild, execs, waiting, ◌>>=◌, replace_with_last, last_of,
  reports, command_id, put_command,
}
use turris_updater.Events.Queue.{ensure_free, child_lookup, child_pop, event_postpone}
use turris_updater.Events.Commands.{
  command_free, command_check_complete, command_terminated_callback, command_lookup, signal_send,
}
use turris_updater.Events.Wait.{
  Callbacks, call_child, pop_called, run_child_event, run_command_event, dispatch, run_pending,
  child_at, kill_status,
}

-- A child may still postpone a command, which is why it counts twice.
abbrev pub work : Events → ℕ
work ev = 2 * length ev.children + length ev.pending

-- It comes to an end, and if it returns there is at most so much work.
abbrev pub LeavesAtMost : ℕ → Outcome Events → Type 0
LeavesAtMost n (returns ev) = work ev ≤ n
LeavesAtMost n waiting = ⊥
LeavesAtMost n _ = Unit

LeavesAtMost-bind :
    (n m : ℕ) (o : Outcome Events) (f : Events → Outcome Events)
    → LeavesAtMost n o
    → ((ev : Events) → work ev ≤ n → LeavesAtMost m (f ev))
    → LeavesAtMost m (o >>= f)
LeavesAtMost-bind n m (returns ev) f h g = g ev h
LeavesAtMost-bind n m dies f h g = tt
LeavesAtMost-bind n m wild f h g = tt
LeavesAtMost-bind n m (execs c ps) f h g = tt
LeavesAtMost-bind n m waiting f h g = absurd h

LeavesAtMost-mono : (n m : ℕ) (o : Outcome Events) → n ≤ m → LeavesAtMost n o → LeavesAtMost m o
LeavesAtMost-mono n m (returns ev) l h = omega arith
LeavesAtMost-mono n m dies l h = tt
LeavesAtMost-mono n m wild l h = tt
LeavesAtMost-mono n m (execs c ps) l h = tt
LeavesAtMost-mono n m waiting l h = absurd h

-- The callers' callbacks end, and start no children and postpone nothing.
abbrev pub IsModest : Callbacks → Type 0
IsModest k =
    ((n : ℕ) (id : WaitId) (p s : ℕ) (ev : Events)
      → LeavesAtMost (work ev) (k.on_child n id p s ev))
    × ((n : ℕ) (id : WaitId) (ev : Events) → LeavesAtMost (work ev) (k.on_command n id ev))

replaced-shorter :
    {A : Type 0} (i : ℕ) (x : A) (xs : List A) → length (replace_with_last i (x ∷ xs)) ≤ length xs
unfolding replace_with_last
replaced-shorter i x xs = ground (arith, length-take (length xs) (set (x ∷ xs) i (last_of x xs)))

child_pop-work : (i n : ℕ) (ev : Events) → work ev ≤ suc n → LeavesAtMost n (child_pop i ev)
unfolding child_pop
child_pop-work i n ev h = pop ev.children refl
  where
    pop : (cs : List Child) → ev.children ≡ cs → LeavesAtMost n (child_pop i ev)
    pop [] e = ground arith
    pop (c ∷ cs) e = ground (arith, replaced-shorter i c cs)

signal_send-work :
    (a signal n : ℕ) (ev : Events) → work ev ≤ n → LeavesAtMost n (signal_send a signal ev)
unfolding signal_send
signal_send-work a signal n ev h = elim (Option-cases (ev.memory a)) [
  | inl m ↦ ground arith
  | inr (c, m) ↦ ground arith
]

command_free-work : (a n : ℕ) (ev : Events) → work ev ≤ n → LeavesAtMost n (command_free a ev)
unfolding command_free
command_free-work a n ev h =
    LeavesAtMost-bind n n (signal_send a 9 ev) _ (signal_send-work a 9 n ev h) (λ ev' l. l)

event_postpone-work :
    (id : WaitId) (ev : Events) → LeavesAtMost (suc (work ev)) (event_postpone id ev)
unfolding event_postpone ensure_free
event_postpone-work id ev = ground (arith, length-append ev.pending (id ∷ []))

check_complete-work :
    (a : ℕ) (ev : Events) → LeavesAtMost (suc (work ev)) (command_check_complete a ev)
unfolding command_check_complete
check_complete-work a ev = elim (Option-cases (ev.memory a)) [
  | inl m ↦ ground arith
  | inr (c, m) ↦ ground (arith, event_postpone-work (command_id a c) ev)
]

terminated-work :
    (id : WaitId) (a p s : ℕ) (ev : Events)
    → LeavesAtMost (suc (work ev)) (command_terminated_callback id a p s ev)
unfolding command_terminated_callback
terminated-work id a p s ev = elim (Option-cases (ev.memory a)) [
  | inl m ↦ ground arith
  | inr (c, m) ↦ ground (
    arith,
    check_complete-work a (put_command a (some (record c { status = s; running = false })) ev),
  )
]

command_lookup-ends : (a p : ℕ) (ev : Events) → ¬ (command_lookup a p ev ≡ waiting)
unfolding command_lookup
command_lookup-ends a p ev h = ground arith

module _ (k : Callbacks) (modest : IsModest k) where
  call_child-work :
      (id : WaitId) (c : Child) (ev : Events) → LeavesAtMost (suc (work ev)) (call_child k id c ev)
  unfolding call_child
  call_child-work id c ev = by c.callback refl
    where
      by :
          (f : ChildCallback) → c.callback ≡ f → LeavesAtMost (suc (work ev)) (call_child k id c ev)
      by (command_terminated a) e = ground (arith, terminated-work id a id.pid c.child_status ev)
      by (user_callback n) e = ground (arith, modest.0 n id id.pid c.child_status ev)

  child_event-work :
      (id : WaitId) (found : Option ℕ) (ev : Events)
      → LeavesAtMost (work ev) (run_child_event k id found ev)
  unfolding run_child_event pop_called
  child_event-work id none ev = tt
  child_event-work id (some i) ev = elim (Option-cases (child_at i ev.children)) [
    | inl n ↦ ground arith
    | inr (c, e) ↦ ground (
      arith,
      LeavesAtMost-bind (suc (work ev)) (work ev) (call_child k id c ev)
          (λ ev'. pop_called k i ev.child_alloc ev') (call_child-work id c ev)
          (λ ev' l. ground (arith, child_pop-work i (work ev) ev' l)),
    )
  ]

  abbrev reported : WaitId → Command → Events → Events
  reported id c ev = record ev {
    log = ev.log ++ reports id c.status (kill_status k.signaled c) c.output c.error ∷ [];
  }

  command_event-work :
      (id : WaitId) (found : Bool) (ev : Events)
      → LeavesAtMost (work ev) (run_command_event k id found ev)
  unfolding run_command_event
  command_event-work id false ev = tt
  command_event-work id true ev = elim (Option-cases (ev.memory id.command)) [
    | inl n ↦ ground arith
    | inr (c, e) ↦ ground (
      arith,
      LeavesAtMost-bind (work ev) (work ev) (k.on_command c.user id (reported id c ev))
          (λ ev'. command_free id.command ev') (modest.1 c.user id (reported id c ev))
          (λ ev' l. command_free-work id.command (work ev) ev' l),
    )
  ]

  dispatch-work :
      (t : WaitType) (id : WaitId) (ev : Events) → LeavesAtMost (work ev) (dispatch k t id ev)
  unfolding dispatch
  dispatch-work wt_child id ev = child_event-work id (child_lookup id.pid ev) ev
  dispatch-work wt_command id ev =
      looked (command_lookup id.command id.pid ev) (command_lookup-ends id.command id.pid ev)
    where
      looked :
          (o : Outcome Bool)
          → ¬ (o ≡ waiting)
          → LeavesAtMost (work ev) (o >>= λ found. run_command_event k id found ev)
      looked (returns found) h = command_event-work id found ev
      looked dies h = tt
      looked wild h = tt
      looked (execs c ps) h = tt
      looked waiting h = absurd (h refl)

  -- One more callback, given the rest.
  run_next :
      (fuel : ℕ) (ev : Events)
      → work ev ≤ fuel
      → ((ev' : Events) → work ev' < fuel → LeavesAtMost (work ev') (run_pending k fuel ev'))
      → (ids : List WaitId) → ev.pending ≡ ids
      → LeavesAtMost (work ev) (run_pending k (suc fuel) ev)
  unfolding run_pending
  run_next fuel ev h rest [] e = ground arith
  run_next fuel ev h rest (id ∷ ids) e = ground (
    arith,
    LeavesAtMost-bind (work (record ev { pending = ids })) (work ev)
        (dispatch k id.wait_type id (record ev { pending = ids })) (λ ev'. run_pending k fuel ev')
        (dispatch-work id.wait_type id (record ev { pending = ids }))
        (λ ev' l.
          LeavesAtMost-mono (work ev') (work ev) (run_pending k fuel ev') (ground arith)
            (rest ev' (ground arith))),
  )

  run_pending-ends_by :
      (fuel : ℕ) (ev : Events) → work ev < fuel → LeavesAtMost (work ev) (run_pending k fuel ev)
  run_pending-ends_by zero ev h = absurd (omega arith)
  run_pending-ends_by (suc fuel) ev h =
      run_next fuel ev (omega arith) (λ ev' l. run_pending-ends_by fuel ev' l) ev.pending refl

-- Pulling callbacks from the queue ends: if the callers' callbacks end, start no children and
-- postpone nothing, then as many rounds as twice the children and the pending callbacks, and one, are
-- enough, and there is not more of them afterwards.
pub run_pending-ends :
    (k : Callbacks) (ev : Events)
    → IsModest k
    → LeavesAtMost (work ev) (run_pending k (suc (work ev)) ev)
run_pending-ends k ev modest = run_pending-ends_by k modest (suc (work ev)) ev (omega arith)
