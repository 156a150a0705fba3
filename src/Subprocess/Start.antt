-- ===== src/Subprocess/Start.antt =====
-- src/lib/subprocess.c: `run_child`, `subprocloc` around its loop, and the variants of the call.
use turris_updater.Base.{ℕ, Bool, false, List, [], ◌∷◌, Option, none, some, Bytes, if◌then◌else◌}
use turris_updater.Base.Int.{ℤ}
use turris_updater.Subprocess.Poll.{
  Round, Progress, Loop, finished, dies, polling, limit_of, poll_loop,
}

-- How a call ends: the status of waitpid with what was collected, in the child the program that is
-- executed, or the end of this process.
pub data Run : Type 0 where
  ended : ℕ → Progress → Run
  execs : Bytes → List Bytes → Run
  aborted : Run
  endless : Run

-- `found` says whether execvp finds the program.
unfoldable pub run_child : Bool → Bytes → List Bytes → Run
run_child found cmd args = if found then execs cmd (cmd ∷ args) else aborted

-- fork
pub data Fork : Type 0 where
  fork_failed : Fork
  in_child : Fork
  in_parent : Fork

-- The status of waitpid, or its failure.
unfoldable pub wait_for : Option ℕ → Loop → Run
wait_for status polling = endless
wait_for status dies = aborted
wait_for none (finished p) = aborted
wait_for (some s) (finished p) = ended s p

unfoldable pub subprocloc :
    ℕ → ℤ → Fork → Bool → ℕ → List Round → Option ℕ → Bytes → List Bytes → Run
unfolding run_child poll_loop wait_for
subprocloc kill_timeout timeout fork_failed found start rounds status cmd args = aborted
subprocloc kill_timeout timeout in_child found start rounds status cmd args =
    run_child found cmd args
subprocloc kill_timeout timeout in_parent found start rounds status cmd args = wait_for status (
    poll_loop kill_timeout start rounds (limit_of timeout) false
      (record { out = []; err = []; sent = [] }))

-- `vsubprocvoc`: the arguments up to the first NULL.
unfoldable pub argv : List (Option Bytes) → List Bytes
argv [] = []
argv (none ∷ args) = []
argv (some arg ∷ args) = arg ∷ argv args
