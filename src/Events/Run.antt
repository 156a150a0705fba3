-- ===== src/Events/Run.antt =====
-- src/lib/events.c: starting commands. The system calls' answers, the addresses that malloc and
-- libevent give and the files of the run_util table are arguments.
use turris_updater.Base.{
  ℕ, zero, suc, Bool, true, false, List, [], ◌∷◌, ◌++◌, Option, none, some, Bytes, codes, bytes_eq,
  if◌then◌else◌, length, take,
}
use turris_updater.Base.Int.{ℤ}
use turris_updater.Events.State.{
  WaitId, command_terminated, Command, Events, writes_input, Outcome, returns, dies, execs, ◌>>=◌,
  command_id, put_command,
}
use turris_updater.Events.Queue.{ensure_free, watch_child}
use turris_updater.Events.Commands.{command_timeout_schedule}

-- The state after `events_new`.
abbrev pub events_new : Events
events_new = record {
  children = [];
  child_alloc = 0;
  self_chld = false;
  commands = [];
  command_alloc = 0;
  pending = [];
  pending_alloc = 0;
  memory = λ a. none;
  log = [];
}

-- What a caller asks for.
pub record Request : Type 0 where
  pub callback : ℕ
  pub input_size : ℕ
  pub input : Option Bytes
  pub term_after : ℤ
  pub kill_after : ℤ

-- What the system gives: whether close, fcntl and the self-pipe work, the address of the command and
-- those of its buffers.
pub record Given : Type 0 where
  pub pipes_work : Bool
  pub address : ℕ
  pub out_buffer : ℕ
  pub err_buffer : ℕ
  pub in_buffer : ℕ

abbrev pub text_size : ℕ → Bytes → ℕ
text_size zero text = length text
text_size (suc n) text = suc n

-- `bufferevent_write`, if there is input.
abbrev pub give_input : ℕ → ℕ → Option Bytes → Events → Events
give_input a n none ev = ev
give_input a n (some text) ev = record ev {
  log = ev.log ++ writes_input a (take (text_size n text) text) ∷ [];
}

abbrev pub input_buffer_of : ℕ → Option Bytes → Option ℕ
input_buffer_of b none = none
input_buffer_of b (some text) = some b

abbrev pub new_command : Request → Given → ℕ → WaitId → Option (ℕ × ℕ) → Option (ℕ × ℕ) → Command
new_command r g p id term kill = record {
  user = r.callback;
  running = true;
  child = id;
  cmd_pid = p;
  status = 0;
  signal_sent = 0;
  term_timeout = term;
  kill_timeout = kill;
  output = [];
  error = [];
  output_buffer = some g.out_buffer;
  error_buffer = some g.err_buffer;
  input_buffer = input_buffer_of g.in_buffer r.input;
}

-- The end of `register_command`: the command is stored, gets its input and joins the array.
unfoldable pub add_command : Request → Given → Command → Events → Outcome (Events × WaitId)
unfolding ensure_free
add_command r g c ev = ensure_free (length ev.commands) ev.command_alloc >>= λ n. returns (
  record (give_input g.address r.input_size r.input (put_command g.address (some c) ev)) {
    commands = ev.commands ++ g.address ∷ [];
    command_alloc = n;
  },
  command_id g.address c,
)

unfoldable pub register_command : Request → Given → ℕ → Events → Outcome (Events × WaitId)
unfolding watch_child command_timeout_schedule add_command
register_command r g p ev =
    if g.pipes_work
    then (watch_child g.pipes_work (command_terminated g.address) p ev >>= λ watched.
        command_timeout_schedule r.term_after >>= λ term.
        command_timeout_schedule r.kill_after >>= λ kill.
        add_command r g (new_command r g p watched.1 term kill) watched.0)
    else dies

-- `params_full` of `run_child`.
unfoldable pub params_full : Bytes → List Bytes → List Bytes
params_full command params = command ∷ params

-- In the child: the pipes are put in place and the program is executed, or the process dies.
unfoldable pub run_child : Bool → Bool → Bytes → List Bytes → Outcome (Events × WaitId)
unfolding params_full
run_child pipes_work found command params =
    if pipes_work then if found then execs command (params_full command params) else dies else dies

pub data Fork : Type 0 where
  fork_failed : Fork
  in_child : Fork
  in_parent : ℕ → Fork

-- `found` says whether execv finds the program.
unfoldable pub run_command_a :
    Request → Given → Fork → Bool → Bytes → List Bytes → Events → Outcome (Events × WaitId)
unfolding run_child register_command
run_command_a r g fork_failed found command params ev = dies
run_command_a r g in_child found command params ev = run_child g.pipes_work found command params
run_command_a r g (in_parent p) found command params ev =
    if g.pipes_work then register_command r g p ev else dies

-- `run_command_v` and `run_command`: the arguments before the first NULL.
unfoldable pub params_of : List (Option Bytes) → List Bytes
params_of [] = []
params_of (none ∷ args) = []
params_of (some arg ∷ args) = arg ∷ params_of args

unfoldable pub run_command_v :
    Request → Given → Fork → Bool → Bytes → List (Option Bytes) → Events → Outcome (Events × WaitId)
unfolding run_command_a params_of
run_command_v r g f found command args ev = run_command_a r g f found command (params_of args) ev

abbrev pub run_util_command : List (Bytes × Bytes)
run_util_command =
    (codes "mv", codes "/bin/mv")
    ∷ (codes "cp", codes "/bin/cp")
    ∷ (codes "rm", codes "/bin/rm")
    ∷ (codes "gzip", codes "/bin/gzip")
    ∷ (codes "tar", codes "/bin/tar")
    ∷ (codes "find", codes "/usr/bin/find")
    ∷ (codes "sh", codes "/bin/sh")
    ∷ (codes "mktemp", codes "/bin/mktemp")
    ∷ []

-- The loop over the table.
unfoldable pub find_util : Bytes → List (Bytes × Bytes) → Outcome Bytes
find_util fnc [] = dies
find_util fnc ((name, cmd) ∷ entries) =
    let rest = find_util fnc entries in if bytes_eq name fnc then returns cmd else rest

unfoldable pub run_util_get_cmd : Bytes → Outcome Bytes
unfolding find_util
run_util_get_cmd fnc = find_util fnc run_util_command

unfoldable pub run_util_a :
    Request → Given → Fork → Bool → Bytes → List Bytes → Events → Outcome (Events × WaitId)
unfolding run_util_get_cmd run_command_a
run_util_a r g f found fnc params ev =
    run_util_get_cmd fnc >>= λ cmd. run_command_a r g f found cmd params ev
