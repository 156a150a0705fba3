-- ===== src/Events/Wait.antt =====
-- src/lib/events.c: cancelling, waiting and the end. The callers' callbacks and libevent's loop are
-- arguments; what libevent does in one round is a change of the state with a result.
use turris_updater.Base.{
  ℕ, zero, suc, Bool, true, false, List, [], ◌∷◌, ◌++◌, Option, none, some, ◌==◌, if◌then◌else◌,
  length,
}
use turris_updater.Events.State.{
  WaitType, wt_child, wt_command, WaitId, command_terminated, user_callback, Child, Command, Events,
  KillStatus, ck_terminated, ck_termed, ck_killed, ck_signal_other, reports, Outcome, returns, dies,
  wild, waiting, ◌>>=◌, same_id, load_command, replace_with_last,
}
use turris_updater.Events.Queue.{child_lookup, child_pop}
use turris_updater.Events.Commands.{
  sigterm, sigkill, is_some, command_free, command_terminated_callback, command_lookup,
}

-- The first pending callback with the id goes, and the rest keep their order.
unfoldable pub cancel_pending : WaitId → List WaitId → List WaitId
unfolding same_id
cancel_pending id [] = []
cancel_pending id (x ∷ xs) =
    let rest = cancel_pending id xs in if same_id id x then xs else x ∷ rest

unfoldable pub cancel_child : Option ℕ → Events → Outcome Events
unfolding child_pop
cancel_child none ev = returns ev
cancel_child (some i) ev = child_pop i ev

abbrev pub cancel_watch : WaitType → WaitId → Events → Outcome Events
cancel_watch wt_child id ev = cancel_child (child_lookup id.pid ev) ev
cancel_watch wt_command id ev = command_lookup id.command id.pid ev >>= λ found.
    if found then command_free id.command ev else returns ev

unfoldable pub watch_cancel : WaitId → Events → Outcome Events
unfolding cancel_pending child_lookup cancel_child command_lookup command_free
watch_cancel id ev =
    cancel_watch id.wait_type id (record ev { pending = cancel_pending id ev.pending })

-- The callbacks of the callers, and WIFSIGNALED.
pub record Callbacks : Type 0 where
  pub on_child : ℕ → WaitId → ℕ → ℕ → Events → Outcome Events
  pub on_command : ℕ → WaitId → Events → Outcome Events
  pub signaled : ℕ → Bool

abbrev pub kill_status : (ℕ → Bool) → Command → KillStatus
kill_status signaled c =
    if c.signal_sent == sigterm
    then ck_termed
    else if c.signal_sent == sigkill
    then ck_killed
    else if signaled c.status
    then ck_signal_other
    else ck_terminated

abbrev pub child_at : ℕ → List Child → Option Child
child_at i [] = none
child_at zero (c ∷ cs) = some c
child_at (suc i) (c ∷ cs) = child_at i cs

module _ (callbacks : Callbacks) where
  unfoldable pub call_child : WaitId → Child → Events → Outcome Events
  unfolding command_terminated_callback
  call_child id c ev = elim c.callback [
    | command_terminated a ↦ command_terminated_callback id a id.pid c.child_status ev
    | user_callback n ↦ callbacks.on_child n id id.pid c.child_status ev
  ]

  -- The pointer to the child stays good unless the callback made the array grow.
  unfoldable pub pop_called : ℕ → ℕ → Events → Outcome Events
  unfolding child_pop
  pop_called i alloc ev = if ev.child_alloc == alloc then child_pop i ev else wild

  unfoldable pub run_child_event : WaitId → Option ℕ → Events → Outcome Events
  unfolding call_child pop_called
  run_child_event id none ev = dies
  run_child_event id (some i) ev = elim (child_at i ev.children) [
    | none ↦ wild
    | some c ↦ call_child id c ev >>= λ ev'. pop_called i ev.child_alloc ev'
  ]

  -- The callback of a command gets its status and its outputs; then the command is freed.
  unfoldable pub run_command_event : WaitId → Bool → Events → Outcome Events
  unfolding command_free
  run_command_event id false ev = dies
  run_command_event id true ev = load_command id.command ev >>= λ c.
      callbacks.on_command c.user id (record ev {
        log =
            ev.log ++ reports id c.status (kill_status callbacks.signaled c) c.output c.error ∷ [];
      })
      >>= λ ev'. command_free id.command ev'

  unfoldable pub dispatch : WaitType → WaitId → Events → Outcome Events
  unfolding run_child_event run_command_event child_lookup command_lookup
  dispatch wt_child id ev = run_child_event id (child_lookup id.pid ev) ev
  dispatch wt_command id ev =
      command_lookup id.command id.pid ev >>= λ found. run_command_event id found ev

  -- `while (events->pending_count)`, on fuel.
  unfoldable pub run_pending : ℕ → Events → Outcome Events
  unfolding dispatch
  run_pending zero ev = waiting
  run_pending (suc fuel) ev = elim ev.pending [
    | [] ↦ returns ev
    | id ∷ ids ↦
        dispatch id.wait_type id (record ev { pending = ids }) >>= λ ev'. run_pending fuel ev'
  ]

abbrev pub is_active : Events → WaitId → Outcome Bool
is_active ev id = elim id.wait_type [
  | wt_child ↦ returns (is_some (child_lookup id.pid ev))
  | wt_command ↦ command_lookup id.command id.pid ev
]

-- `ids[0] = ids[-- nid]` until the first is active; `n` bounds the rounds.
unfoldable pub drop_inactive : ℕ → Events → List WaitId → Outcome (List WaitId)
unfolding child_lookup command_lookup replace_with_last
drop_inactive zero ev ids = returns ids
drop_inactive (suc n) ev [] = returns []
drop_inactive (suc n) ev (id ∷ ids) = is_active ev id >>= λ found.
    if found then returns (id ∷ ids) else drop_inactive n ev (replace_with_last 0 (id ∷ ids))

-- event_base_loop(EVLOOP_ONCE): what the handlers that it called did, and its result.
pub data Round : Type 0 where
  handled : (Events → Outcome Events) → Round
  no_more_events : (Events → Outcome Events) → Round
  loop_error : Round

module _ (callbacks : Callbacks) (fuel : Events → ℕ) where
  -- One pass of the loop body behind the call of libevent.
  unfoldable pub process : Events → List WaitId → Outcome (Events × List WaitId)
  unfolding run_pending drop_inactive
  process ev ids = run_pending callbacks (fuel ev) ev >>= λ ev'.
      drop_inactive (length ids) ev' ids >>= λ ids'. returns (ev', ids')

  -- `while (nid)` with nothing pending, as after each pass.
  unfoldable pub wait_idle : List Round → Events → List WaitId → Outcome Events
  unfolding process
  wait_idle rounds ev [] = returns ev
  wait_idle [] ev (id ∷ ids) = waiting
  wait_idle (handled handlers ∷ rounds) ev (id ∷ ids) = handlers ev >>= λ ev'.
      process ev' (id ∷ ids) >>= λ processed. wait_idle rounds (processed.0) (processed.1)
  wait_idle (no_more_events handlers ∷ rounds) ev (id ∷ ids) = handlers ev
  wait_idle (loop_error ∷ rounds) ev (id ∷ ids) = dies

  -- What is pending at the start needs no call of libevent.
  unfoldable pub events_wait : List Round → Events → List WaitId → Outcome Events
  unfolding wait_idle
  events_wait rounds ev [] = returns ev
  events_wait rounds ev (id ∷ ids) = elim ev.pending [
    | [] ↦ wait_idle rounds ev (id ∷ ids)
    | p ∷ ps ↦ process ev (id ∷ ids) >>= λ processed. wait_idle rounds (processed.0) (processed.1)
  ]

-- `while (events->command_count) command_free(events->commands[0]);`, on fuel.
unfoldable pub free_commands : ℕ → Events → Outcome Events
unfolding command_free
free_commands zero ev = waiting
free_commands (suc fuel) ev = elim ev.commands [
  | [] ↦ returns ev
  | a ∷ cs ↦ command_free a ev >>= λ ev'. free_commands fuel ev'
]

unfoldable pub events_destroy : Events → Outcome Events
unfolding free_commands
events_destroy ev = free_commands (suc (length ev.commands)) ev
