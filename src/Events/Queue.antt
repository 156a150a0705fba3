-- ===== src/Events/Queue.antt =====
-- src/lib/events.c: the growing arrays, postponed callbacks, watched children and the handler of
-- SIGCHLD.
use turris_updater.Base.{
  ℕ, zero, suc, ◌+◌, ◌*◌, Bool, true, ◌||◌, List, [], ◌∷◌, ◌++◌, Option, none, some, length, leb,
  ◌==◌, if◌then◌else◌,
}
use turris_updater.Events.State.{
  WaitId, ChildCallback, Child, Events, wakes, Outcome, returns, dies, wild, waiting, ◌>>=◌,
  child_id, find_index, replace_with_last,
}

-- ENSURE_FREE: the places after it, for `count` elements in `alloc` places.
unfoldable pub ensure_free : ℕ → ℕ → Outcome ℕ
ensure_free count alloc =
    if leb count alloc then returns (if count == alloc then alloc * 2 + 10 else alloc) else dies

unfoldable pub event_postpone : WaitId → Events → Outcome Events
unfolding ensure_free
event_postpone id ev = ensure_free (length ev.pending) ev.pending_alloc >>= λ n.
    returns (record ev { pending = ev.pending ++ id ∷ []; pending_alloc = n })

-- The index of the child.
unfoldable pub child_lookup : ℕ → Events → Option ℕ
unfolding find_index
child_lookup p ev = find_index (λ c. c.child_pid == p) ev.children

-- `-- child_count` of an empty array gives an index that is far outside.
unfoldable pub child_pop : ℕ → Events → Outcome Events
unfolding replace_with_last
child_pop i ev = elim ev.children [
  | [] ↦ wild
  | c ∷ cs ↦ returns (record ev { children = replace_with_last i ev.children })
]

abbrev pub status_at : ℕ → ℕ → List Child → List Child
status_at i s [] = []
status_at zero s (c ∷ cs) = record c { child_status = s } ∷ cs
status_at (suc i) s (c ∷ cs) = c ∷ status_at i s cs

-- What waitpid(-1, &status, WNOHANG) answers.
pub data WaitAnswer : Type 0 where
  reaped : ℕ → ℕ → WaitAnswer
  nothing_ready : WaitAnswer
  no_more_children : WaitAnswer
  stray_signal : WaitAnswer
  wait_error : WaitAnswer

-- One reaped process; an untracked one is ignored.
unfoldable pub reap : ℕ → ℕ → Option ℕ → Events → Outcome Events
unfolding event_postpone
reap p s none ev = returns ev
reap p s (some i) ev =
    event_postpone (child_id p) (record ev { children = status_at i s ev.children })

unfoldable pub chld_event : List WaitAnswer → Events → Outcome Events
unfolding reap child_lookup
chld_event [] ev = waiting
chld_event (nothing_ready ∷ answers) ev = returns ev
chld_event (no_more_children ∷ answers) ev = returns ev
chld_event (stray_signal ∷ answers) ev = chld_event answers ev
chld_event (wait_error ∷ answers) ev = dies
chld_event (reaped p s ∷ answers) ev =
    reap p s (child_lookup p ev) ev >>= λ ev'. chld_event answers ev'

-- The set-up of the self-pipe dies unless its system calls work.
abbrev pub self_pipe : Bool → Events → Outcome Events
self_pipe works ev =
    if ev.self_chld || works then returns (record ev { self_chld = true }) else dies

abbrev pub add_child : ℕ → ChildCallback → Events → Outcome Events
add_child p f ev = ensure_free (length ev.children) ev.child_alloc >>= λ n. returns (record ev {
  children = ev.children ++ record { child_pid = p; callback = f; child_status = 0 } ∷ [];
  child_alloc = n;
})

unfoldable pub watch_child : Bool → ChildCallback → ℕ → Events → Outcome (Events × WaitId)
unfolding child_lookup ensure_free
watch_child works f p ev = elim (child_lookup p ev) [
  | some i ↦ dies
  | none ↦ add_child p f ev >>= (λ ev'. self_pipe works ev') >>= λ ev'.
      returns (record ev' { log = ev'.log ++ wakes ∷ [] }, child_id p)
]
