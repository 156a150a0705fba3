-- ===== src/Programs/Confirmed.antt =====
-- src/pkgupdate/main.c: the transaction is made only if it was confirmed.
use turris_updater.Base.{
  ℕ, ◌≡◌, ◌≢◌, refl, ap, ◌∙◌, Bool, true, false, List, [], ◌∷◌, Option, none, some, Bytes, codes,
  Bool-cases, inl, inr, if◌then◌else◌, arith,
}
use turris_updater.Opmode.Modes.{opmode, opmode_reinstall_all}
use turris_updater.Arguments.Update.{Opts, Program}
use turris_updater.Interpreter.Call.{Called, returned, failed, aborted, wild, c_bool, c_string}
use turris_updater.Interpreter.Results.{
  Collection, all_collected, stopped_at, dies, interpreter_collect_results,
}
use turris_updater.Programs.Actions.{
  prepare, no_tasks, approval_hash, task_report, Action, calls, reports_error, sets_env, asks_user,
  Part, goes, aborts, ◌>>=◌, ◌>>◌, actions, act, Outside, Tried, worked, error_text, answered,
  or_aborts, try_call, call, if_collected, collect, one_bool, one_string, exactly_one,
}
use turris_updater.Programs.Update.{
  is_approved, text, Decision, perform, replan_cleanup, cleanup_only, goto_cleanup, ask_approval,
  with_hash, hash_results, approved, approval_clean, configured, recovered, after_key, confirmed,
  after_confirmation, with_tasks, tasks_flag, tasks_results, after_prepare, after_recovery, loaded,
  decide, finish, finish_replan, carry_out, update_main, hook_postupdate, run_hook, report_results,
  put_report,
}
use turris_updater.Programs.Quiet.{
  chosen, Quiet, Quiet-then, actions-after, chosen-append, is_queue, IsSilent, run_hook-Quiet,
}
use turris_updater.Programs.Decided.{decide-Quiet}
use turris_updater.Programs.Ends.{Leads, Leads-after, Leads-bind, Leads-chain, Leads-then}

abbrev pub is_queue_call : Action → Bool
is_queue_call (calls f arg) = is_queue f
is_queue_call _ = false

pub queue-IsSilent : IsSilent is_queue_call
queue-IsSilent = record {
  on_call = λ f h a. h;
  on_error = λ e. refl;
  on_root = λ v. refl;
  on_hook = λ h. refl;
  on_unlink = λ path. refl;
  on_write = λ path content. refl;
  on_ask = refl;
}

module _ {V N : Type 0} (o : Outside V N) where
  -- The hash of the plan, as Lua gives it.
  abbrev pub hash_of : Called V → Bytes
  hash_of (returned vs) =
      text (one_string o (interpreter_collect_results o.lua (codes "s") vs o.registry).stored)
  hash_of _ = []

  -- In batch mode there is no file for approval or the hash of the plan is among the approvals, and
  -- otherwise something was typed on the terminal.
  abbrev pub confirmation : Opts → Bool
  confirmation opts =
      if opts.batch
      then (elim opts.approval_file [
        | none ↦ true
        | some file ↦ is_approved (hash_of (o.answer approval_hash [])) opts.approve
      ])
      else (elim o.input [ none ↦ false | some c ↦ true ])

  abbrev Implies : Bool → Bool → Type 0
  Implies c b = b ≡ true → c ≡ true

  ask-Leads :
      (file hash : Bytes) (found : Bool) → Leads (Implies found) (ask_approval o file hash found)
  unfolding ask_approval
  ask-Leads file hash true = λ h. refl
  ask-Leads file hash false = by o.report_opens
    where
      by :
          (opens : Bool)
          → Leads (Implies false) (
              if opens
              then (call o task_report (c_string (some []) ∷ c_bool true ∷ [])
                  >>= report_results o file hash)
              else aborts [])
      by false = tt
      by true =
          Leads-bind (Implies false) (call o task_report (c_string (some []) ∷ c_bool true ∷ []))
            (report_results o file hash)
            (λ vs.
              Leads-then (Implies false) (exactly_one o vs)
                (collect o (codes "s") vs >>= put_report o file hash)
                (Leads-bind (Implies false) (collect o (codes "s") vs) (put_report o file hash)
                  (λ r h. absurd (ground arith))))

  with_collected :
      (file : Bytes) (approvals : List Bytes) (vs : List V)
      → Leads
          (Implies (is_approved (hash_of (returned vs)) approvals))
          (collect o (codes "s") vs >>= with_hash o file approvals)
  unfolding collect
  with_collected file approvals vs =
      by (interpreter_collect_results o.lua (codes "s") vs o.registry).ended
    where
      by :
          (e : Collection)
          → Leads (Implies (is_approved (hash_of (returned vs)) approvals)) (
              if_collected o (interpreter_collect_results o.lua (codes "s") vs o.registry).stored e
              >>= with_hash o file approvals)
      by (stopped_at n) = tt
      by dies = tt
      by all_collected =
          Leads-after (Implies (is_approved (hash_of (returned vs)) approvals)) []
            (with_hash o file approvals
              (interpreter_collect_results o.lua (codes "s") vs o.registry).stored)
            (ask-Leads file (hash_of (returned vs)) (is_approved (hash_of (returned vs)) approvals))

  -- The hash that is compared is the one that Lua gave.
  hash-Leads :
      (file : Bytes) (approvals : List Bytes) (c : Called V)
      → Leads
          (Implies (is_approved (hash_of c) approvals))
          ((answered o approval_hash none c >>= or_aborts o) >>= hash_results o file approvals)
  hash-Leads file approvals (failed e) = tt
  hash-Leads file approvals aborted = tt
  hash-Leads file approvals wild = tt
  hash-Leads file approvals (returned vs) =
      let P = Implies (is_approved (hash_of (returned vs)) approvals) in
      Leads-after P (calls approval_hash none ∷ []) (hash_results o file approvals vs) (
        Leads-then P (exactly_one o vs) (collect o (codes "s") vs >>= with_hash o file approvals)
          (with_collected file approvals vs))

  approved-Leads :
      (file : Option Bytes) (approvals : List Bytes)
      → Leads
          (Implies (elim file [
            | none ↦ true
            | some f ↦ is_approved (hash_of (o.answer approval_hash [])) approvals
          ]))
          (approved o file approvals)
  unfolding approved call try_call
  approved-Leads none approvals = λ h. refl
  approved-Leads (some file) approvals = hash-Leads file approvals (o.answer approval_hash [])

  confirmed-Leads : (opts : Opts) → Leads (Implies (confirmation opts)) (confirmed o opts)
  unfolding confirmed
  confirmed-Leads opts = by opts.batch
    where
      key :
          (c : Option ℕ)
          → Leads (Implies (elim c [ none ↦ false | some k ↦ true ])) (after_key o opts c)
      key none = λ h. h
      key (some c) =
          Leads-then (Implies true) (approval_clean o opts.approval_file) (goes [] true) (λ h. refl)

      by :
          (batch : Bool)
          → Leads
              (Implies (
                if batch
                then (elim opts.approval_file [
                  | none ↦ true
                  | some file ↦ is_approved (hash_of (o.answer approval_hash [])) opts.approve
                ])
                else (elim o.input [ none ↦ false | some c ↦ true ])))
              (if batch
                then approved o opts.approval_file opts.approve
                else act asks_user >> after_key o opts o.input)
      by true = approved-Leads opts.approval_file opts.approve
      by false =
          Leads-then (Implies (elim o.input [ none ↦ false | some c ↦ true ])) (act asks_user)
            (after_key o opts o.input) (key o.input)

  -- The decision to make the transaction comes with a confirmation.
  abbrev Confirms : Opts → Decision → Type 0
  Confirms opts perform = confirmation opts ≡ true
  Confirms opts (replan_cleanup ok) = Unit
  Confirms opts (cleanup_only ok) = Unit

  leaving-Confirms : (opts : Opts) (ok : Bool) → Confirms opts (goto_cleanup opts ok)
  leaving-Confirms opts ok = elim (Bool-cases opts.reexec) [ inl p ↦ rw p tt | inr p ↦ rw p tt ]

  after-Confirms :
      (opts : Opts) (b : Bool)
      → Implies (confirmation opts) b
      → Leads (Confirms opts) (after_confirmation o opts b)
  after-Confirms opts true h = h refl
  after-Confirms opts false h = leaving-Confirms opts true

  tasks-Confirms :
      (opts : Opts) (none_there : Bool) → Leads (Confirms opts) (with_tasks o opts none_there)
  unfolding with_tasks
  tasks-Confirms opts true =
      Leads-then (Confirms opts) (approval_clean o opts.approval_file)
        (goes [] (goto_cleanup opts true)) (leaving-Confirms opts true)
  tasks-Confirms opts false =
      Leads-chain (Implies (confirmation opts)) (Confirms opts) (confirmed o opts)
        (after_confirmation o opts) (confirmed-Leads opts) (after-Confirms opts)

  prepare-Confirms : (opts : Opts) (t : Tried o) → Leads (Confirms opts) (after_prepare o opts t)
  unfolding after_prepare
  prepare-Confirms opts (error_text e) =
      Leads-then (Confirms opts) (act (reports_error e)) (goes [] (goto_cleanup opts false))
        (leaving-Confirms opts false)
  prepare-Confirms opts (worked vs) =
      Leads-bind (Confirms opts) (call o no_tasks []) (tasks_results o opts) (λ ws.
        Leads-then (Confirms opts) (exactly_one o ws)
          (collect o (codes "b") ws >>= tasks_flag o opts)
          (Leads-bind (Confirms opts) (collect o (codes "b") ws) (tasks_flag o opts)
            (λ r. tasks-Confirms opts (one_bool o r))))

  recovery-Confirms : (opts : Opts) (b : Bool) → Leads (Confirms opts) (after_recovery o opts b)
  recovery-Confirms opts false = tt
  recovery-Confirms opts true =
      Leads-bind (Confirms opts) (try_call o prepare (c_string opts.config ∷ []))
        (after_prepare o opts) (prepare-Confirms opts)

  pub decide-Confirms : (p : Program) → Leads (Confirms p.opts) (decide o p)
  unfolding decide
  decide-Confirms p =
      let m = opmode opmode_reinstall_all p.modes in
      Leads-then (Confirms p.opts) (loaded o)
        (configured o p m >> (recovered o >>= after_recovery o p.opts))
        (Leads-then (Confirms p.opts) (configured o p m) (recovered o >>= after_recovery o p.opts) (
          Leads-bind (Confirms p.opts) (recovered o) (after_recovery o p.opts)
            (recovery-Confirms p.opts)))

  pub finish-Quiet :
      (p : Program) (ok finished : Bool) → Quiet is_queue_call (finish o p ok finished)
  unfolding finish
  finish-Quiet p ok true = refl
  finish-Quiet p ok false = refl

  finish_replan-Quiet :
      (p : Program) (ok finished : Bool) → Quiet is_queue_call (finish_replan o p ok finished)
  unfolding finish_replan
  finish_replan-Quiet p ok finished =
      let env = sets_env (codes "SUCCESS") (if ok then codes "true" else codes "false") ∷ [] in
      Quiet-then is_queue_call
        (run_hook o p hook_postupdate env (codes "Executing postupdate hook"))
        (finish o p ok finished)
        (run_hook-Quiet o is_queue_call queue-IsSilent p hook_postupdate
          (codes "Executing postupdate hook") env refl)
        (finish-Quiet p ok finished)

  -- What is chosen of the actions of a decision and what follows.
  main-Confirms :
      (p : Program) (m : Part Decision)
      → Quiet is_queue_call m
      → Leads (Confirms p.opts) m
      → chosen is_queue_call (actions (m >>= carry_out o p)) ≢ []
      → confirmation p.opts ≡ true
  unfolding carry_out
  main-Confirms p (aborts done) q l h = absurd (h q)
  main-Confirms p (goes done perform) q l h = l
  main-Confirms p (goes done (replan_cleanup ok)) q l h = absurd (
      h (
        ap (chosen is_queue_call) (actions-after done (finish_replan o p ok p.opts.reboot_finished))
        ∙ chosen-append is_queue_call done (actions (finish_replan o p ok p.opts.reboot_finished))
        ∙ rw (q, finish_replan-Quiet p ok p.opts.reboot_finished) refl))
  main-Confirms p (goes done (cleanup_only ok)) q l h = absurd (
      h (
        ap (chosen is_queue_call) (actions-after done (finish o p ok p.opts.reboot_finished))
        ∙ chosen-append is_queue_call done (actions (finish o p ok p.opts.reboot_finished))
        ∙ rw (q, finish-Quiet p ok p.opts.reboot_finished) refl))

  -- Whatever Lua and the system answer: if pkgupdate has the transaction made, then in batch mode no
  -- approval was asked for or the hash of the plan, as Lua gives it, is among the approvals of the
  -- command line, and without batch mode something was typed on the terminal.
  pub update_main-confirmation :
      (p : Program)
      → chosen is_queue_call (actions (update_main o p)) ≢ []
      → confirmation p.opts ≡ true
  unfolding update_main
  update_main-confirmation p h =
      main-Confirms p (decide o p) (decide-Quiet o is_queue_call queue-IsSilent p)
        (decide-Confirms p) h
