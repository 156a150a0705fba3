-- ===== src/Events/Cancelled.antt =====
-- src/lib/events.c: what is left of a cancelled command.
use turris_updater.Base.{
  ℕ, zero, suc, ◌+◌, ◌*◌, ◌≡◌, refl, Bool, true, List, [], ◌∷◌, ◌++◌, none, some, length, ◌==◌,
  ==_refl, if◌then◌else◌, Bool-cases, inl, inr, arith,
}
use turris_updater.Events.State.{
  command_terminated, Child, Command, Events, returns, wild, ◌>>=◌, child_id, command_id,
  find_index, put_command, kills,
}
use turris_updater.Events.Queue.{
  ensure_free, event_postpone, reaped, nothing_ready, reap, chld_event, child_lookup, status_at,
}
use turris_updater.Events.Commands.{
  sigkill, elem, command_free, command_terminated_callback, command_lookup, signal_send, unregister,
}
use turris_updater.Events.Wait.{
  watch_cancel, cancel_pending, Callbacks, call_child, run_child_event, dispatch, run_pending,
  child_at,
}

abbrev has_pid : ℕ → Child → Bool
has_pid p c = c.child_pid == p

child_at-status :
    (i j s : ℕ) (c : Child) (cs : List Child)
    → child_at i cs ≡ some c
    → (d : Child) × (child_at i (status_at j s cs) ≡ some d) × (d.callback ≡ c.callback)
child_at-status i j s c [] h = ground arith
child_at-status zero zero s c (d ∷ ds) h = (record d { child_status = s }, refl, ground arith)
child_at-status zero (suc j) s c (d ∷ ds) h = (d, refl, ground arith)
child_at-status (suc i) zero s c (d ∷ ds) h = (c, h, refl)
child_at-status (suc i) (suc j) s c (d ∷ ds) h = child_at-status i j s c ds h

lookup-status :
    (p j s : ℕ) (cs : List Child)
    → find_index (has_pid p) (status_at j s cs) ≡ find_index (has_pid p) cs
unfolding find_index
lookup-status p j s [] = refl
lookup-status p zero s (d ∷ ds) = refl
lookup-status p (suc j) s (d ∷ ds) = ground (arith, lookup-status p j s ds)

cancelled :
    (a : ℕ) (c : Command) (ev : Events)
    → ev.memory a ≡ some c
    → elem a ev.commands ≡ true
    → ev.pending ≡ []
    → (e1 : Events) × (watch_cancel (command_id a c) ev ≡ returns e1)
      × (e1.memory a ≡ none)
      × (e1.children ≡ ev.children)
      × (e1.pending ≡ [])
unfolding watch_cancel cancel_pending command_lookup command_free signal_send
cancelled a c ev m r n = elim (Bool-cases c.running) [
  | inl y ↦ (
    put_command a none (record (put_command a (some (record c { signal_sent = sigkill })) ev) {
      commands = unregister a ev.commands;
      log = ev.log ++ kills c.cmd_pid sigkill ∷ [];
    }),
    ground (arith, ==_refl c.cmd_pid),
    ground (arith, ==_refl a),
    refl,
    n,
  )
  | inr y ↦ (
    put_command a none (record ev { commands = unregister a ev.commands }),
    ground (arith, ==_refl c.cmd_pid),
    ground (arith, ==_refl a),
    refl,
    n,
  )
]

reaped_once :
    (p i s : ℕ) (ev : Events)
    → ev.pending ≡ []
    → child_lookup p ev ≡ some i
    → (e2 : Events) × (chld_event (reaped p s ∷ nothing_ready ∷ []) ev ≡ returns e2)
      × (e2.memory ≡ ev.memory)
      × (e2.children ≡ status_at i s ev.children)
      × (e2.pending ≡ child_id p ∷ [])
unfolding chld_event reap event_postpone ensure_free
reaped_once p i s ev n l = (
  record ev {
    children = status_at i s ev.children;
    pending = ev.pending ++ child_id p ∷ [];
    pending_alloc =
        if length ev.pending == ev.pending_alloc
        then ev.pending_alloc * 2 + 10
        else ev.pending_alloc;
  },
  ground arith,
  refl,
  refl,
  ground arith,
)

terminated_wild :
    (k : Callbacks) (p a i : ℕ) (w : Child) (ev : Events)
    → ev.memory a ≡ none
    → ev.pending ≡ child_id p ∷ []
    → child_lookup p ev ≡ some i
    → child_at i ev.children ≡ some w
    → w.callback ≡ command_terminated a
    → run_pending k 2 ev ≡ wild
unfolding run_pending dispatch run_child_event call_child command_terminated_callback child_lookup
terminated_wild k p a i w ev m n l t f = ground arith

-- Cancelling a running command frees it, but not the watch of its child, so that the end of the
-- process, which the cancellation killed, makes the next wait use the freed command: for a
-- registered command with nothing pending and its own callback on its child.
pub watch_cancel-dangles :
    (k : Callbacks) (a i s : ℕ) (c : Command) (w : Child) (ev : Events)
    → ev.memory a ≡ some c
    → elem a ev.commands ≡ true
    → ev.pending ≡ []
    → child_lookup c.cmd_pid ev ≡ some i
    → child_at i ev.children ≡ some w
    → w.callback ≡ command_terminated a
    → (watch_cancel (command_id a c) ev
        >>= (λ e1. chld_event (reaped c.cmd_pid s ∷ nothing_ready ∷ []) e1)
        >>= λ e2. run_pending k 2 e2)
      ≡ wild
unfolding child_lookup
watch_cancel-dangles k a i s c w ev m r n l t f =
    let (e1, cancels, gone, same, none_left) = cancelled a c ev m r n in
    let (e2, reaps, memory, children, queue) =
      reaped_once c.cmd_pid i s e1 none_left (ground (arith, same, l)) in
    let (d, at, back) = child_at-status i i s w ev.children t in
    ground (
      arith,
      cancels,
      reaps,
      terminated_wild k c.cmd_pid a i d e2 (ground (arith, memory, gone)) queue
          (ground (arith, l, children, same, lookup-status c.cmd_pid i s ev.children)),
    )
