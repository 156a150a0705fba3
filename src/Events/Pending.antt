-- ===== src/Events/Pending.antt =====
-- src/lib/events.c: a command's callback is postponed when the command is complete.
use turris_updater.Base.{
  ℕ, ◌≡◌, refl, ap, ◌∙◌, Bool, true, false, not, ◌&&◌, List, [], ◌∷◌, ◌++◌, Option, none, some,
  Bytes, ◌==◌, ==_iff, ==_refl, if◌then◌else◌, append-nil, Bool-cases, Option-cases, inl, inr,
  arith,
}
use turris_updater.Events.State.{
  wt_child, wt_command, WaitId, Command, Events, returns, bind-returns, child_id, command_id,
  put_command,
}
use turris_updater.Events.Queue.{
  ensure_free, event_postpone, WaitAnswer, reaped, nothing_ready, no_more_children, stray_signal,
  wait_error, reap, chld_event, child_lookup, status_at,
}
use turris_updater.Events.Commands.{
  is_some, is_buffer, signal_send, command_check_complete, command_terminated_callback,
  command_event, command_write,
}

-- Whether an id is a command's at an address.
abbrev pub is_command : ℕ → WaitId → Bool
is_command a id = elim id.wait_type [ wt_child ↦ false | wt_command ↦ id.command == a ]

-- What is pending for the command at an address.
abbrev pub pending_of : ℕ → List WaitId → List WaitId
pending_of a [] = []
pending_of a (id ∷ ids) = if is_command a id then id ∷ pending_of a ids else pending_of a ids

-- It has ended and both of its outputs are read.
abbrev pub is_complete : Command → Bool
is_complete c = not c.running && not (is_some c.output_buffer) && not (is_some c.error_buffer)

abbrev pub expected : ℕ → Option Command → List WaitId
expected a none = []
expected a (some c) = if is_complete c then command_id a c ∷ [] else []

-- Each complete command is pending once, and no other one is.
abbrev pub IsTracked : Events → Type 0
IsTracked ev = (a : ℕ) → pending_of a ev.pending ≡ expected a (ev.memory a)

-- What happens to a command or a child inside of libevent's loop.
pub data Step : Events → Events → Type 0 where
  connection_ends :
      (b : ℕ) (content : Bytes) (a : ℕ) (ev ev' : Events)
      → command_event b content a ev ≡ returns ev'
      → Step ev ev'
  input_written : (b a : ℕ) (ev ev' : Events) → command_write b a ev ≡ returns ev' → Step ev ev'
  timer_fires :
      (a signal : ℕ) (ev ev' : Events) → signal_send a signal ev ≡ returns ev' → Step ev ev'
  children_reaped :
      (answers : List WaitAnswer) (ev ev' : Events)
      → chld_event answers ev ≡ returns ev'
      → Step ev ev'
  -- The callback of a child, for a command that runs.
  command_ends :
      (id : WaitId) (a p s : ℕ) (c : Command) (ev ev' : Events)
      → ev.memory a ≡ some c
      → c.running ≡ true
      → command_terminated_callback id a p s ev ≡ returns ev'
      → Step ev ev'

pub data Steps : Events → Events → Type 0 where
  here : (ev : Events) → Steps ev ev
  step : (ev ev' ev'' : Events) → Step ev ev' → Steps ev' ev'' → Steps ev ev''

pub pending_of-append :
    (a : ℕ) (ids more : List WaitId)
    → pending_of a (ids ++ more) ≡ pending_of a ids ++ pending_of a more
pending_of-append a [] more = refl
pending_of-append a (id ∷ ids) more = ground (arith, pending_of-append a ids more)

-- A postponed callback comes last.
pub event_postpone-pending :
    (id : WaitId) (ev ev' : Events)
    → event_postpone id ev ≡ returns ev'
    → (ev'.pending ≡ ev.pending ++ id ∷ []) × (ev'.memory ≡ ev.memory)
unfolding event_postpone ensure_free
event_postpone-pending id ev ev' h = ground arith

reap-kept :
    (p s : ℕ) (found : Option ℕ) (a : ℕ) (ev ev' : Events)
    → reap p s found ev ≡ returns ev'
    → (pending_of a ev'.pending ≡ pending_of a ev.pending) × (ev'.memory a ≡ ev.memory a)
unfolding reap
reap-kept p s none a ev ev' h = ground arith
reap-kept p s (some i) a ev ev' h =
    let e =
      event_postpone-pending (child_id p) (record ev { children = status_at i s ev.children }) ev'
        h in
    ground (
      arith,
      e,
      pending_of-append a ev.pending (child_id p ∷ []),
      append-nil (pending_of a ev.pending),
    )

chld_event-kept :
    (answers : List WaitAnswer) (a : ℕ) (ev ev' : Events)
    → chld_event answers ev ≡ returns ev'
    → (pending_of a ev'.pending ≡ pending_of a ev.pending) × (ev'.memory a ≡ ev.memory a)
unfolding chld_event
chld_event-kept [] a ev ev' h = ground arith
chld_event-kept (nothing_ready ∷ answers) a ev ev' h = ground arith
chld_event-kept (no_more_children ∷ answers) a ev ev' h = ground arith
chld_event-kept (stray_signal ∷ answers) a ev ev' h = chld_event-kept answers a ev ev' h
chld_event-kept (wait_error ∷ answers) a ev ev' h = ground arith
chld_event-kept (reaped p s ∷ answers) a ev ev' h =
    let (mid, r, e) =
      bind-returns (reap p s (child_lookup p ev) ev) (λ m. chld_event answers m) ev' h in
    let k = reap-kept p s (child_lookup p ev) a ev mid r in
    let l = chld_event-kept answers a mid ev' e in (l.0 ∙ k.0, l.1 ∙ k.1)

-- The check adds the callback of a complete command.
check_complete-pending :
    (a b : ℕ) (c : Command) (ev ev' : Events)
    → ev.memory a ≡ some c
    → command_check_complete a ev ≡ returns ev'
    → (pending_of b ev'.pending
        ≡ pending_of b ev.pending ++ (if a == b then expected a (some c) else []))
      × (ev'.memory ≡ ev.memory)
unfolding command_check_complete
check_complete-pending a b c ev ev' m h = elim (Bool-cases (is_complete c)) [
  | inl y ↦ ground (
    arith,
    event_postpone-pending (command_id a c) ev ev',
    pending_of-append b ev.pending (command_id a c ∷ []),
    append-nil (pending_of b ev.pending),
  )
  | inr n ↦ ground (arith, append-nil (pending_of b ev.pending))
]

pub signal_send-kept :
    (a b signal : ℕ) (ev ev' : Events)
    → signal_send a signal ev ≡ returns ev'
    → (ev'.pending ≡ ev.pending) × (expected b (ev'.memory b) ≡ expected b (ev.memory b))
unfolding signal_send
signal_send-kept a b signal ev ev' h = elim (Option-cases (ev.memory a)) [
  | inl n ↦ ground arith
  | inr (c, m) ↦ ground (arith, ==_iff a b)
]

command_write-kept :
    (w a b : ℕ) (ev ev' : Events)
    → command_write w a ev ≡ returns ev'
    → (ev'.pending ≡ ev.pending) × (expected b (ev'.memory b) ≡ expected b (ev.memory b))
unfolding command_write
command_write-kept w a b ev ev' h = elim (Option-cases (ev.memory a)) [
  | inl n ↦ ground arith
  | inr (c, m) ↦ ground (arith, ==_iff a b)
]

-- A command that was not complete is changed, and then checked.
completed-IsTracked :
    (a : ℕ) (c c1 : Command) (ev ev' : Events)
    → ev.memory a ≡ some c
    → is_complete c ≡ false
    → IsTracked ev
    → command_check_complete a (put_command a (some c1) ev) ≡ returns ev'
    → IsTracked ev'
completed-IsTracked a c c1 ev ev' m n t h b =
    let k =
      check_complete-pending a b c1 (put_command a (some c1) ev) ev' (ground (arith, ==_refl a))
        h in
    ground
      (arith, k.0, ap (λ f. f b) k.1, t b, t a, ==_iff a b, append-nil (pending_of b ev.pending))

is_buffer-some : (w : ℕ) (o : Option ℕ) → is_buffer w o ≡ true → is_some o ≡ true
is_buffer-some w none h = ground arith
is_buffer-some w (some b) h = refl

command_event-IsTracked :
    (w : ℕ) (content : Bytes) (a : ℕ) (ev ev' : Events)
    → IsTracked ev
    → command_event w content a ev ≡ returns ev'
    → IsTracked ev'
unfolding command_event
command_event-IsTracked w content a ev ev' t h = elim (Option-cases (ev.memory a)) [
  | inl n ↦ ground arith
  | inr (c, m) ↦ elim (Bool-cases (is_buffer w c.input_buffer)) [
    | inl i ↦ λ b. ground (arith, t b, t a, ==_iff a b)
    | inr i ↦ elim (Bool-cases (is_buffer w c.output_buffer)) [
      | inl o ↦
          completed-IsTracked a c (record c { output = content; output_buffer = none }) ev ev' m
            (ground (arith, is_buffer-some w c.output_buffer o)) t (ground arith)
      | inr o ↦ elim (Bool-cases (is_some c.error_buffer)) [
        | inl e ↦
            completed-IsTracked a c (record c { error = content; error_buffer = none }) ev ev' m
              (ground arith) t (ground arith)
        | inr e ↦ ground arith
      ]
    ]
  ]
]

terminated-IsTracked :
    (id : WaitId) (a p s : ℕ) (c : Command) (ev ev' : Events)
    → ev.memory a ≡ some c
    → c.running ≡ true
    → IsTracked ev
    → command_terminated_callback id a p s ev ≡ returns ev'
    → IsTracked ev'
unfolding command_terminated_callback
terminated-IsTracked id a p s c ev ev' m r t h = ground (
  arith,
  completed-IsTracked a c (record c { status = s; running = false }) ev ev' m (ground arith) t,
)

Step-IsTracked : (ev ev' : Events) → Step ev ev' → IsTracked ev → IsTracked ev'
Step-IsTracked _ _ (connection_ends w content a ev ev' h) t =
    command_event-IsTracked w content a ev ev' t h
Step-IsTracked _ _ (input_written w a ev ev' h) t =
    λ b. ground (arith, command_write-kept w a b ev ev' h, t b)
Step-IsTracked _ _ (timer_fires a signal ev ev' h) t =
    λ b. ground (arith, signal_send-kept a b signal ev ev' h, t b)
Step-IsTracked _ _ (children_reaped answers ev ev' h) t =
    λ b. ground (arith, chld_event-kept answers b ev ev' h, t b)
Step-IsTracked _ _ (command_ends id a p s c ev ev' m r h) t =
    terminated-IsTracked id a p s c ev ev' m r t h

-- The queue keeps track: if each complete command is pending exactly once and no other command is,
-- then so it is after any ends of connections, written inputs, timers, reaped children and ends of
-- running commands, in any order.
pub Steps-IsTracked : (ev ev' : Events) → Steps ev ev' → IsTracked ev → IsTracked ev'
Steps-IsTracked ev ev' (here _) t = t
Steps-IsTracked ev ev' (step _ mid _ s rest) t =
    Steps-IsTracked mid ev' rest (Step-IsTracked ev mid s t)
