-- ===== src/Events/Commands.antt =====
-- src/lib/events.c: the life of a watched command, from its signals to its release.
use turris_updater.Base.{
  ℕ, zero, suc, ◌/◌, ◌%◌, ◌*◌, Bool, true, false, List, [], ◌∷◌, ◌++◌, Option, none, some, Bytes,
  ◌==◌, if◌then◌else◌,
}
use turris_updater.Base.Int.{ℤ, pos, negsuc}
use turris_updater.Events.State.{
  WaitId, Events, kills, Outcome, returns, dies, ◌>>=◌, same_id, command_id, put_command,
  load_command, find_index, replace_with_last,
}
use turris_updater.Events.Queue.{event_postpone}

abbrev pub sigterm : ℕ
sigterm = 15

abbrev pub sigkill : ℕ
sigkill = 9

abbrev pub is_some {ℓ} : {A : Type ℓ} → Option A → Bool
is_some none = false
is_some (some a) = true

unfoldable pub signal_send : ℕ → ℕ → Events → Outcome Events
signal_send a signal ev = load_command a ev >>= λ c. returns (
    if c.running
    then put_command a (some (record c { signal_sent = signal }))
        (record ev { log = ev.log ++ kills c.cmd_pid signal ∷ [] })
    else ev)

unfoldable pub command_send_term : ℕ → Events → Outcome Events
unfolding signal_send
command_send_term a ev = signal_send a sigterm ev

unfoldable pub command_send_kill : ℕ → Events → Outcome Events
unfolding signal_send
command_send_kill a ev = signal_send a sigkill ev

-- The entry of the array goes, if there is one.
unfoldable pub unregister : ℕ → List ℕ → List ℕ
unfolding find_index replace_with_last
unregister a cs = elim (find_index (λ b. b == a) cs) [ none ↦ cs | some i ↦ replace_with_last i cs ]

unfoldable pub command_free : ℕ → Events → Outcome Events
unfolding signal_send unregister
command_free a ev = signal_send a sigkill ev >>= λ ev'.
    returns (put_command a none (record ev' { commands = unregister a ev'.commands }))

unfoldable pub command_check_complete : ℕ → Events → Outcome Events
unfolding event_postpone
command_check_complete a ev = load_command a ev >>= λ c.
    if is_some c.output_buffer
    then returns ev
    else if is_some c.error_buffer
    then returns ev
    else if c.running
    then returns ev
    else event_postpone (command_id a c) ev

-- With the two assertions.
unfoldable pub command_terminated_callback : WaitId → ℕ → ℕ → ℕ → Events → Outcome Events
unfolding command_check_complete same_id
command_terminated_callback id a p s ev = load_command a ev >>= λ c.
    if c.cmd_pid == p
    then if same_id c.child id
      then command_check_complete a
          (put_command a (some (record c { status = s; running = false })) ev)
      else dies
    else dies

-- Milliseconds; -1 is none.
unfoldable pub command_timeout_schedule : ℤ → Outcome (Option (ℕ × ℕ))
command_timeout_schedule (pos zero) = dies
command_timeout_schedule (pos (suc n)) = returns (some (suc n / 1000, (suc n % 1000) * 1000))
command_timeout_schedule (negsuc zero) = returns none
command_timeout_schedule (negsuc (suc n)) = dies

abbrev pub is_buffer : ℕ → Option ℕ → Bool
is_buffer b none = false
is_buffer b (some b') = b' == b

-- The end of a connection; `content` is what its input buffer holds. The last test looks only at
-- whether there is an error buffer.
unfoldable pub command_event : ℕ → Bytes → ℕ → Events → Outcome Events
unfolding command_check_complete
command_event b content a ev = load_command a ev >>= λ c.
    if is_buffer b c.input_buffer
    then returns (put_command a (some (record c { input_buffer = none })) ev)
    else if is_buffer b c.output_buffer
    then command_check_complete a
        (put_command a (some (record c { output = content; output_buffer = none })) ev)
    else if is_some c.error_buffer
    then command_check_complete a
        (put_command a (some (record c { error = content; error_buffer = none })) ev)
    else dies

unfoldable pub command_write : ℕ → ℕ → Events → Outcome Events
command_write b a ev = load_command a ev >>= λ c.
    if is_buffer b c.input_buffer
    then returns (put_command a (some (record c { input_buffer = none })) ev)
    else dies

abbrev pub elem : ℕ → List ℕ → Bool
elem a [] = false
elem a (b ∷ bs) = if b == a then true else elem a bs

-- Whether the pointer is registered and has the process. It is read only if it is.
unfoldable pub command_lookup : ℕ → ℕ → Events → Outcome Bool
command_lookup a p ev =
    if elem a ev.commands
    then (load_command a ev >>= λ c. returns (c.cmd_pid == p))
    else returns false
