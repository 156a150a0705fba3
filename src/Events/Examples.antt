-- ===== src/Events/Examples.antt =====
-- Runs of the event loop's operations of src/lib/events.c.
use turris_updater.Base.{
  ℕ, suc, ◌≡◌, ◌≢◌, refl, true, false, [], ◌∷◌, none, some, codes, bytes_eq, ◌==◌, if◌then◌else◌,
  arith,
}
use turris_updater.Base.Int.{pos, negsuc}
use turris_updater.Events.State.{
  WaitId, wt_command, command_terminated, user_callback, Child, Command, Events, Outcome, returns,
  wakes, wild, ◌>>=◌, child_id, command_id,
}
use turris_updater.Events.Queue.{reaped, nothing_ready, chld_event, child_lookup, watch_child}
use turris_updater.Events.Commands.{is_some, command_event, command_terminated_callback}
use turris_updater.Events.Run.{
  Request, Given, in_parent, run_command_a, events_new, run_util_get_cmd,
}
use turris_updater.Events.Wait.{Callbacks, watch_cancel, run_pending, is_active, drop_inactive}
use turris_updater.Events.Pending.{
  Steps, connection_ends, command_ends, here, step, IsTracked, Steps-IsTracked,
}
use turris_updater.Events.Active.{drop_inactive-decides}
use turris_updater.Events.Ends.{work, LeavesAtMost, IsModest, run_pending-ends}
use turris_updater.Events.Children.{IsUnique, watch_child-IsUnique, watch_cancel-child}
use turris_updater.Events.Cancelled.{watch_cancel-dangles}
use turris_updater.Events.Start.{run_command-IsActive}

abbrev gzip : Command
gzip = record {
  user = 1;
  running = true;
  child = child_id 7;
  cmd_pid = 7;
  status = 0;
  signal_sent = 0;
  term_timeout = none;
  kill_timeout = none;
  output = [];
  error = [];
  output_buffer = some 11;
  error_buffer = some 12;
  input_buffer = none;
}

abbrev gzip_watch : Child
gzip_watch = record { child_pid = 7; callback = command_terminated 100; child_status = 0 }

-- One command runs.
abbrev one : Events
one = record {
  children = gzip_watch ∷ [];
  child_alloc = 10;
  self_chld = true;
  commands = 100 ∷ [];
  command_alloc = 10;
  pending = [];
  pending_alloc = 0;
  memory = λ a. if 100 == a then some gzip else none;
  log = [];
}

one-IsTracked : IsTracked one
one-IsTracked a = ground arith

one-IsUnique : IsUnique one
one-IsUnique p = ground arith

abbrev after : Outcome Events → Events
after (returns ev) = ev
after _ = events_new

abbrev output_read : Events
output_read = after (command_event 11 (codes "ok") 100 one)

abbrev error_read : Events
error_read = after (command_event 12 [] 100 output_read)

abbrev ended : Events
ended = after (command_terminated_callback (child_id 7) 100 7 0 error_read)

one_completes : Steps one ended
unfolding command_event command_terminated_callback
one_completes =
    step one output_read ended (connection_ends 11 (codes "ok") 100 one output_read refl) (
      step output_read error_read ended (connection_ends 12 [] 100 output_read error_read refl) (
        step error_read ended ended
          (command_ends (child_id 7) 100 7 0
            (record gzip { output = codes "ok"; output_buffer = none; error_buffer = none })
            error_read ended refl refl refl)
          (here ended)))

ended_pending : ended.pending ≡ command_id 100 gzip ∷ []
unfolding command_event command_terminated_callback
ended_pending = refl

Steps-IsTracked_example : IsTracked ended
Steps-IsTracked_example = Steps-IsTracked one ended one_completes one-IsTracked

one_left :
    drop_inactive 2 one (child_id 5 ∷ command_id 100 gzip ∷ []) ≡ returns (command_id 100 gzip ∷ [])
unfolding drop_inactive
one_left = refl

drop_inactive-decides_run : is_active one (command_id 100 gzip) ≡ returns true
drop_inactive-decides_run =
    drop_inactive-decides one (child_id 5 ∷ command_id 100 gzip ∷ []) (command_id 100 gzip ∷ [])
      one_left

abbrev quiet : Callbacks
quiet = record {
  on_child = λ n id p s ev. returns ev;
  on_command = λ n id ev. returns ev;
  signaled = λ s. false;
}

quiet-IsModest : IsModest quiet
quiet-IsModest = (λ n id p s ev. omega arith, λ n id ev. omega arith)

run_pending-ends_example : LeavesAtMost (work ended) (run_pending quiet (suc (work ended)) ended)
run_pending-ends_example = run_pending-ends quiet ended quiet-IsModest

abbrev two_events : Events
two_events = record one {
  children =
      gzip_watch ∷ record { child_pid = 9; callback = user_callback 3; child_status = 0 } ∷ [];
  log = wakes ∷ [];
}

two_watched : watch_child true (user_callback 3) 9 one ≡ returns (two_events, child_id 9)
unfolding watch_child
two_watched = refl

watch_child-IsUnique_run :
    IsUnique two_events
    × (child_id 9 ≡ child_id 9)
    × (is_some (child_lookup 9 one) ≡ false)
    × (is_some (child_lookup 9 two_events) ≡ true)
    × (two_events.pending ≡ [])
watch_child-IsUnique_run =
    watch_child-IsUnique true (user_callback 3) 9 one two_events (child_id 9) one-IsUnique
      two_watched

watch_cancel-child_run :
    (ev' : Events) × (watch_cancel (child_id 7) one ≡ returns ev')
    × IsUnique ev'
    × (child_lookup 7 ev' ≡ none)
    × ((q : ℕ) → q ≢ 7 → is_some (child_lookup q ev') ≡ is_some (child_lookup q one))
watch_cancel-child_run = watch_cancel-child 7 one one-IsUnique

found_first : child_lookup 7 one ≡ some 0
unfolding child_lookup
found_first = refl

watch_cancel-dangles_example :
    (watch_cancel (command_id 100 gzip) one
      >>= (λ e1. chld_event (reaped 7 9 ∷ nothing_ready ∷ []) e1)
      >>= λ e2. run_pending quiet 2 e2)
    ≡ wild
watch_cancel-dangles_example =
    watch_cancel-dangles quiet 100 0 9 gzip gzip_watch one refl refl refl found_first refl refl

abbrev request : Request
request = record {
  callback = 1;
  input_size = 0;
  input = some (codes "text");
  term_after = pos 1500;
  kill_after = negsuc 0;
}

abbrev given : Given
given = record {
  pipes_work = true;
  address = 200;
  out_buffer = 21;
  err_buffer = 22;
  in_buffer = 23;
}

abbrev started : Outcome (Events × WaitId)
started = run_command_a request given (in_parent 8) true (codes "/bin/sh") [] one

abbrev state_of : Outcome (Events × WaitId) → Events
state_of (returns (ev, id)) = ev
state_of _ = events_new

abbrev sh_id : WaitId
sh_id = record { wait_type = wt_command; pid = 8; command = 200 }

sh_started : started ≡ returns (state_of started, sh_id)
unfolding run_command_a
sh_started = refl

run_command-IsActive_run :
    (sh_id ≡ sh_id)
    × (is_active (state_of started) sh_id ≡ returns true)
    × IsTracked (state_of started)
run_command-IsActive_run =
    run_command-IsActive request given true 8 (codes "/bin/sh") [] one (state_of started) sh_id
      one-IsTracked refl sh_started

-- The table of utilities.
util_found : run_util_get_cmd (codes "find") ≡ returns (codes "/usr/bin/find")
unfolding run_util_get_cmd bytes_eq
util_found = refl
