-- ===== src/Events/Start.antt =====
-- src/lib/events.c: what `run_command_a` leaves behind in the parent.
use turris_updater.Base.{
  ℕ, ◌≡◌, ap, Bool, true, List, [], ◌∷◌, ◌++◌, Option, none, some, Bytes, ◌==◌, ==_iff, ==_refl,
  if◌then◌else◌, Bool-cases, Option-cases, inl, inr, arith,
}
use turris_updater.Events.State.{
  wt_command, WaitId, ChildCallback, command_terminated, Command, Events, returns, ◌>>=◌,
  bind-returns, child_id, command_id,
}
use turris_updater.Events.Queue.{ensure_free, child_lookup, watch_child}
use turris_updater.Events.Commands.{elem, command_lookup, command_timeout_schedule}
use turris_updater.Events.Run.{
  Request, Given, in_parent, add_command, register_command, run_command_a, new_command,
}
use turris_updater.Events.Wait.{is_active}
use turris_updater.Events.Pending.{IsTracked}

watch_child-kept :
    (works : Bool) (f : ChildCallback) (p : ℕ) (ev ev' : Events) (id : WaitId)
    → watch_child works f p ev ≡ returns (ev', id)
    → (ev'.memory ≡ ev.memory)
      × (ev'.commands ≡ ev.commands)
      × (ev'.pending ≡ ev.pending)
      × (id ≡ child_id p)
unfolding watch_child ensure_free
watch_child-kept works f p ev ev' id h = elim (Option-cases (child_lookup p ev)) [
  | inl e ↦ ground arith
  | inr (i, e) ↦ ground arith
]

elem-append_last : (a : ℕ) (xs : List ℕ) → elem a (xs ++ a ∷ []) ≡ true
elem-append_last a [] = ground (arith, ==_refl a)
elem-append_last a (x ∷ xs) = ground (arith, elem-append_last a xs)

add_command-IsActive :
    (r : Request) (g : Given) (c : Command) (ev ev' : Events) (id : WaitId)
    → add_command r g c ev ≡ returns (ev', id)
    → (id ≡ command_id g.address c)
      × (is_active ev' id ≡ returns true)
      × (ev'.pending ≡ ev.pending)
      × (ev'.memory ≡ (λ b. if g.address == b then some c else ev.memory b))
unfolding add_command ensure_free command_lookup
add_command-IsActive r g c ev ev' id h = elim (Option-cases r.input) [
  | inl e ↦
      ground (arith, elem-append_last g.address ev.commands, ==_refl g.address, ==_refl c.cmd_pid)
  | inr (text, e) ↦
      ground (arith, elem-append_last g.address ev.commands, ==_refl g.address, ==_refl c.cmd_pid)
]

-- What stands between the guards: the watched child and the new command.
registered :
    (r : Request) (g : Given) (p : ℕ) (ev ev' : Events) (id : WaitId)
    → register_command r g p ev ≡ returns (ev', id)
    → (w : Events × WaitId) × (term : Option (ℕ × ℕ)) × (kill : Option (ℕ × ℕ)) × (watch_child
          g.pipes_work
          (command_terminated g.address)
          p
          ev
        ≡ returns w)
      × (add_command r g (new_command r g p w.1 term kill) w.0 ≡ returns (ev', id))
unfolding register_command
registered r g p ev ev' id h = elim (Bool-cases g.pipes_work) [
  | inl y ↦
      let (w, watches, h1) =
        bind-returns (watch_child g.pipes_work (command_terminated g.address) p ev)
          (λ watched. command_timeout_schedule r.term_after >>= λ term.
            command_timeout_schedule r.kill_after >>= λ kill.
            add_command r g (new_command r g p watched.1 term kill) watched.0)
          (ev', id) (ground arith) in
      let (term, schedules, h2) =
        bind-returns (command_timeout_schedule r.term_after)
          (λ term. command_timeout_schedule r.kill_after >>= λ kill.
            add_command r g (new_command r g p w.1 term kill) w.0)
          (ev', id) h1 in
      let (kill, schedules_kill, h3) =
        bind-returns (command_timeout_schedule r.kill_after)
          (λ kill. add_command r g (new_command r g p w.1 term kill) w.0) (ev', id) h2 in
      (w, term, kill, watches, h3)
  | inr n ↦ ground arith
]

-- A command that is started in the parent is active at once: the id that comes back is the command's, at
-- its address and with the pid of the fork, the wait finds it active, and still each complete
-- command is pending once and no other is, provided that no command stood at the address before.
pub run_command-IsActive :
    (r : Request) (g : Given) (found : Bool) (p : ℕ) (command : Bytes) (params : List Bytes)
    (ev ev' : Events) (id : WaitId)
    → IsTracked ev
    → ev.memory g.address ≡ none
    → run_command_a r g (in_parent p) found command params ev ≡ returns (ev', id)
    → (id ≡ record { wait_type = wt_command; pid = p; command = g.address })
      × (is_active ev' id ≡ returns true)
      × IsTracked ev'
unfolding run_command_a register_command
run_command-IsActive r g found p command params ev ev' id t free h =
    let (w, term, kill, watches, adds) = registered r g p ev ev' id (ground arith) in
    let k = watch_child-kept g.pipes_work (command_terminated g.address) p ev w.0 w.1 watches in
    let c = add_command-IsActive r g (new_command r g p w.1 term kill) w.0 ev' id adds in
    (
      c.0,
      c.1,
      λ a. ground (arith, c.2, k.2, ap (λ f. f a) c.3, ap (λ f. f a) k.0, t a, ==_iff g.address a),
    )
