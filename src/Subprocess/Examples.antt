-- ===== src/Subprocess/Examples.antt =====
-- Runs of the loop of src/lib/subprocess.c.
use turris_updater.Base.{ℕ, ◌≡◌, refl, true, false, List, [], ◌∷◌, ◌++◌, some, codes, inl, inr}
use turris_updater.Base.Int.{pos}
use turris_updater.Subprocess.Poll.{
  Pipe, Round, Progress, finished, polling, poll_loop, sigterm, sigkill,
}
use turris_updater.Subprocess.Start.{in_parent, ended, subprocloc}
use turris_updater.Subprocess.Collected.{HasCollected, poll_loop-HasCollected}
use turris_updater.Subprocess.Signals.{HasSent, poll_loop-HasSent, poll_loop-ends}

abbrev silent : Pipe
silent = record { readable = false; reads = []; hung_up = false; broken = false }

abbrev talking : Pipe
talking = record {
  readable = true;
  reads = codes "ab" ∷ codes "c" ∷ [];
  hung_up = false;
  broken = false;
}

-- A round at a second, with some output.
abbrev round : Pipe → ℕ → Round
round out at = record {
  poll_works = true;
  out_pipe = out;
  err_pipe = silent;
  child_ended = false;
  signals_broken = false;
  now = at;
}

abbrev start_progress : Progress
start_progress = record { out = []; err = []; sent = [] }

-- A process that does not stop, with a limit of two seconds and one second more.
abbrev stubborn : List Round
stubborn = round talking 101 ∷ round silent 102 ∷ round talking 103 ∷ []

abbrev killed : Progress
killed = record { out = codes "abcabc"; err = []; sent = sigterm ∷ sigkill ∷ [] }

stubborn-killed : poll_loop 1000 100 stubborn (some 2000) false start_progress ≡ finished killed
unfolding poll_loop
stubborn-killed = refl

poll_loop-HasCollected_example : HasCollected stubborn start_progress killed
poll_loop-HasCollected_example =
    poll_loop-HasCollected 1000 100 stubborn (some 2000) false start_progress killed stubborn-killed

poll_loop-HasSent_example : HasSent 1000 100 2000 stubborn start_progress killed
poll_loop-HasSent_example =
    poll_loop-HasSent 1000 100 2000 stubborn start_progress killed stubborn-killed

poll_loop-ends_example : ¬ (
    poll_loop 1000 100
      ((round talking 101 ∷ round silent 102 ∷ []) ++ round talking 103 ∷ [])
      (some 2000)
      false
      start_progress
    ≡ polling)
poll_loop-ends_example =
    poll_loop-ends 1000 100 2000 (round talking 101 ∷ round silent 102 ∷ [])
      (round talking 103 ∷ []) start_progress (inr (inl refl)) (inl refl)

whole_call :
    subprocloc 1000 (pos 2000) in_parent true 100 stubborn (some 9) (codes "sh") [] ≡ ended 9 killed
unfolding subprocloc
whole_call = refl
