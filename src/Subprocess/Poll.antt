-- ===== src/Subprocess/Poll.antt =====
-- src/lib/subprocess.c: the loop of `subprocloc`. What a round finds, the clock included, is an argument.
use turris_updater.Base.{
  ℕ, ◌+◌, ◌-◌, ◌*◌, Bool, true, false, not, ◌&&◌, List, [], ◌∷◌, ◌++◌, Option, none, some, Bytes,
  leb, if◌then◌else◌,
}
use turris_updater.Base.Int.{ℤ, pos, negsuc}

-- One of the two pipes after a poll: its POLLIN with what the reads give until one gives nothing, its
-- POLLHUP, and POLLERR or POLLNVAL.
pub record Pipe : Type 0 where
  pub readable : Bool
  pub reads : List Bytes
  pub hung_up : Bool
  pub broken : Bool

-- A round of the loop: the result of poll, the pipes, whether the signal file tells the end of the
-- process, its failure, and time(NULL) at the test of the time limit.
pub record Round : Type 0 where
  pub poll_works : Bool
  pub out_pipe : Pipe
  pub err_pipe : Pipe
  pub child_ended : Bool
  pub signals_broken : Bool
  pub now : ℕ

-- What was written to the two files, and the signals that were sent.
pub record Progress : Type 0 where
  pub out : Bytes
  pub err : Bytes
  pub sent : List ℕ

pub data Loop : Type 0 where
  finished : Progress → Loop
  dies : Loop
  polling : Loop

abbrev pub sigterm : ℕ
sigterm = 15

abbrev pub sigkill : ℕ
sigkill = 9

abbrev pub joined : List Bytes → Bytes
joined [] = []
joined (b ∷ bs) = b ++ joined bs

-- The reads of a pipe, in order.
abbrev pub piped : Pipe → Bytes
piped p = if p.readable then joined p.reads else []

abbrev pub count_dead : Round → ℕ
count_dead r =
    if r.child_ended
    then 2
    else (if r.out_pipe.hung_up then 1 else 0) + (if r.err_pipe.hung_up then 1 else 0)

abbrev pub is_sound : Round → Bool
is_sound r = r.poll_works && not r.out_pipe.broken && not r.err_pipe.broken && not r.signals_broken

-- `1000*(time(NULL) - t_start) >= timeout`
abbrev pub is_late : ℕ → ℕ → Round → Bool
is_late start timeout r = leb (1000 * start + timeout) (1000 * r.now)

-- The wait that poll is asked for; a negative limit is none.
unfoldable pub poll_timeout : ℕ → ℕ → Option ℕ → ℤ
poll_timeout start now none = negsuc 0
poll_timeout start now (some timeout) = pos (1000 * start + timeout - 1000 * now)

abbrev pub limit_of : ℤ → Option ℕ
limit_of (pos n) = some n
limit_of (negsuc n) = none

abbrev pub collect : Round → Progress → Progress
collect r p = record p { out = p.out ++ piped r.out_pipe; err = p.err ++ piped r.err_pipe }

abbrev pub send : ℕ → Progress → Progress
send s p = record p { sent = p.sent ++ s ∷ [] }

module _ (kill_timeout start : ℕ) where
  -- `while (true)`: without rounds left it goes on polling.
  unfoldable pub poll_loop : List Round → Option ℕ → Bool → Progress → Loop
  poll_loop [] timeout term_sent p = polling
  poll_loop (r ∷ rs) none term_sent p =
      let rest = poll_loop rs none term_sent (collect r p) in
      if is_sound r then if leb 2 (count_dead r) then finished (collect r p) else rest else dies
  poll_loop (r ∷ rs) (some t) true p =
      let rest = poll_loop rs (some t) true (collect r p) in
      if is_sound r
      then if leb 2 (count_dead r)
        then finished (collect r p)
        else if is_late start t r
        then finished (send sigkill (collect r p))
        else rest
      else dies
  poll_loop (r ∷ rs) (some t) false p =
      let rest = poll_loop rs (some t) false (collect r p) in
      let extended = poll_loop rs (some (t + kill_timeout)) true (send sigterm (collect r p)) in
      if is_sound r
      then if leb 2 (count_dead r)
        then finished (collect r p)
        else if is_late start t r
        then extended
        else rest
      else dies
