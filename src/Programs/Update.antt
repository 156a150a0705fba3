-- ===== src/Programs/Update.antt =====
-- src/pkgupdate/main.c: `approved`, `time_load` aside, and `main` after the options have been parsed.
use turris_updater.Base.{
  ℕ, Bool, true, false, ◌||◌, List, [], ◌∷◌, ◌++◌, map, Option, none, some, Bytes, bytes_eq, codes,
  if◌then◌else◌,
}
use turris_updater.Opmode.Modes.{opmode, opmode_reinstall_all}
use turris_updater.Syscnf.Paths.{root_dir}
use turris_updater.Util.Hooks.{exec_hook}
use turris_updater.Util.Reboot.{system_reboot}
use turris_updater.Arguments.Update.{Opts, Program}
use turris_updater.Interpreter.Call.{c_bool, c_string}
use turris_updater.Interpreter.Results.{Stored}
use turris_updater.Programs.Actions.{
  disable_replan, recover_pretty, prepare, no_tasks, approval_hash, task_report,
  tasks_to_transaction, perform_queue, pre_cleanup, cleanup, Action, reports_error, sets_env,
  runs_hook, unlinks, writes_file, asks_user, reboots, cleans_up, Part, goes, aborts, ◌>>=◌, ◌>>◌,
  act, Outside, Tried, worked, error_text, try_call, call, collect, one_bool, second_bool,
  one_string, results_interpret, exactly_one,
}

abbrev pub hook_preupdate : Bytes
hook_preupdate = codes "/etc/updater/hook_preupdate"

abbrev pub hook_postupdate : Bytes
hook_postupdate = codes "/etc/updater/hook_postupdate"

abbrev pub hook_reboot_delayed : Bytes
hook_reboot_delayed = codes "/etc/updater/hook_reboot_required"

-- Whether a hash is among the approvals.
unfoldable pub is_approved : Bytes → List Bytes → Bool
unfolding bytes_eq
is_approved hash [] = false
is_approved hash (approval ∷ approvals) =
    let rest = is_approved hash approvals in if bytes_eq approval hash then true else rest

abbrev pub text : Option Bytes → Bytes
text none = []
text (some s) = s

-- What is left to do, with `trans_ok`: the transaction, or one of the two labels.
pub data Decision : Type 0 where
  perform : Decision
  replan_cleanup : Bool → Decision
  cleanup_only : Bool → Decision

-- GOTO_CLEANUP
abbrev pub goto_cleanup : Opts → Bool → Decision
goto_cleanup opts trans_ok = if opts.reexec then replan_cleanup trans_ok else cleanup_only trans_ok

module _ {V N : Type 0} (o : Outside V N) where
  abbrev pub put_report : Bytes → Bytes → List (Stored N) → Part Bool
  put_report file hash stored =
      act (writes_file file (hash ++ (codes "\n" ++ text (one_string o stored)))) >> goes [] false

  abbrev pub report_results : Bytes → Bytes → List V → Part Bool
  report_results file hash vs =
      exactly_one o vs >> (collect o (codes "s") vs >>= put_report file hash)

  -- The plan has been approved, or the report is written.
  unfoldable pub ask_approval : Bytes → Bytes → Bool → Part Bool
  unfolding call collect
  ask_approval file hash true = act (unlinks file) >> goes [] true
  ask_approval file hash false =
      if o.report_opens
      then (call o task_report (c_string (some []) ∷ c_bool true ∷ []) >>= report_results file hash)
      else aborts []

  -- The loop over the approvals, with the hash of the plan.
  abbrev pub with_hash : Bytes → List Bytes → List (Stored N) → Part Bool
  with_hash file approvals stored =
      let hash = text (one_string o stored) in ask_approval file hash (is_approved hash approvals)

  abbrev pub hash_results : Bytes → List Bytes → List V → Part Bool
  hash_results file approvals vs =
      exactly_one o vs >> (collect o (codes "s") vs >>= with_hash file approvals)

  unfoldable pub approved : Option Bytes → List Bytes → Part Bool
  unfolding call collect is_approved ask_approval
  approved none approvals = goes [] true
  approved (some file) approvals = call o approval_hash [] >>= hash_results file approvals

  unfoldable pub approval_clean : Option Bytes → Part (Unit {0})
  approval_clean none = goes [] tt
  approval_clean (some file) = act (unlinks file)

  -- The hook of a directory below the root, with ROOT_DIR and further variables set.
  unfoldable pub run_hook : Program → Bytes → List Action → Bytes → Part (Unit {0})
  unfolding exec_hook root_dir
  run_hook p hook env message =
      let dir = root_dir p.setup.paths ++ hook in
      goes
        (sets_env (codes "ROOT_DIR") (root_dir p.setup.paths)
          ∷ (env ++ map runs_hook (exec_hook o.executable (o.listing dir) dir message)))
        tt

  -- `if (opts.no_replan || opmode(OPMODE_REINSTALL_ALL))`
  unfoldable pub configured : Program → Option Bool → Part (Unit {0})
  unfolding call
  configured p none = aborts []
  configured p (some reinstall_all) =
      if p.opts.no_replan || reinstall_all
      then call o disable_replan [] >> goes [] tt
      else goes [] tt

  -- Whether to go on, after a journal that was found.
  unfoldable pub recovered : Part Bool
  unfolding call results_interpret
  recovered = if o.journal then (call o recover_pretty [] >>= results_interpret o) else goes [] true

  -- getchar, where EOF leaves.
  abbrev pub after_key : Opts → Option ℕ → Part Bool
  after_key opts none = goes [] false
  after_key opts (some c) = approval_clean opts.approval_file >> goes [] true

  -- The question on the terminal, or the approvals in batch mode.
  unfoldable pub confirmed : Opts → Part Bool
  unfolding approved approval_clean
  confirmed opts =
      if opts.batch
      then approved opts.approval_file opts.approve
      else act asks_user >> after_key opts o.input

  abbrev pub after_confirmation : Opts → Bool → Part Decision
  after_confirmation opts true = goes [] perform
  after_confirmation opts false = goes [] (goto_cleanup opts true)

  unfoldable pub with_tasks : Opts → Bool → Part Decision
  unfolding confirmed approval_clean
  with_tasks opts true = approval_clean opts.approval_file >> goes [] (goto_cleanup opts true)
  with_tasks opts false = confirmed opts >>= after_confirmation opts

  abbrev pub tasks_flag : Opts → List (Stored N) → Part Decision
  tasks_flag opts stored = with_tasks opts (one_bool o stored)

  abbrev pub tasks_results : Opts → List V → Part Decision
  tasks_results opts ws = exactly_one o ws >> (collect o (codes "b") ws >>= tasks_flag opts)

  -- From the call of `updater.prepare` on.
  unfoldable pub after_prepare : Opts → Tried o → Part Decision
  unfolding call collect with_tasks
  after_prepare opts (error_text e) = act (reports_error e) >> goes [] (goto_cleanup opts false)
  after_prepare opts (worked vs) = call o no_tasks [] >>= tasks_results opts

  abbrev pub after_recovery : Opts → Bool → Part Decision
  after_recovery opts true = try_call o prepare (c_string opts.config ∷ []) >>= after_prepare opts
  after_recovery opts false = goes [] (cleanup_only true)

  -- ASSERT_MSG(!err, ...) after `interpreter_autoload`
  abbrev pub loaded : Part (Unit {0})
  loaded = if o.autoloads then goes [] tt else aborts []

  -- From the start to the point where the transaction is made.
  unfoldable pub decide : Program → Part Decision
  unfolding configured recovered after_prepare try_call
  decide p =
      loaded
      >> configured p (opmode opmode_reinstall_all p.modes)
      >> (recovered >>= after_recovery p.opts)

  -- The flag `reboot_finished` after `updater.pre_cleanup`.
  unfoldable pub cleaned : Program → Bool → Bool → Part Bool
  unfolding run_hook
  cleaned p reboot_delayed true = goes [] true
  cleaned p true false =
      run_hook p hook_reboot_delayed [] (codes "Executing reboot_required hook")
      >> goes [] p.opts.reboot_finished
  cleaned p false false = goes [] p.opts.reboot_finished

  -- The last call, which passes one argument of the two that are announced.
  abbrev pub last_cleanup : Bool → Bool → Part (Bool × Bool)
  last_cleanup trans_ok reboot_finished =
      call o cleanup (c_bool reboot_finished ∷ c_bool o.stray ∷ [])
      >> goes [] (trans_ok, reboot_finished)

  abbrev pub cleanup_flags : Program → Bool → List (Stored N) → Part (Bool × Bool)
  cleanup_flags p trans_ok stored =
      cleaned p (one_bool o stored) (second_bool o stored) >>= last_cleanup trans_ok

  abbrev pub cleanup_results : Program → Bool → List V → Part (Bool × Bool)
  cleanup_results p trans_ok ws = collect o (codes "bb") ws >>= cleanup_flags p trans_ok

  abbrev pub after_queue : Program → Bool → Part (Bool × Bool)
  after_queue p trans_ok = call o pre_cleanup [] >>= cleanup_results p trans_ok

  abbrev pub queue_results : Program → List V → Part (Bool × Bool)
  queue_results p vs = results_interpret o vs >>= after_queue p

  abbrev pub preupdate : Program → Bool → Part (Unit {0})
  preupdate p true = goes [] tt
  preupdate p false = run_hook p hook_preupdate [] (codes "Executing preupdate hook")

  -- The transaction: `trans_ok` and `reboot_finished`.
  unfoldable pub perform_transaction : Program → Part (Bool × Bool)
  unfolding call collect results_interpret run_hook cleaned
  perform_transaction p =
      call o tasks_to_transaction []
      >> preupdate p p.opts.reexec
      >> (call o perform_queue [] >>= queue_results p)

  -- From the label CLEANUP on: the exit status.
  unfoldable pub finish : Program → Bool → Bool → Part ℕ
  unfolding system_reboot
  finish p trans_ok reboot_finished =
      goes
        (cleans_up
          ∷ (if reboot_finished
              then reboots (system_reboot o.reboot_found p.reboot_disabled) ∷ []
              else []))
        (if trans_ok then 0 else 1)

  -- From the label REPLAN_CLEANUP on.
  unfoldable pub finish_replan : Program → Bool → Bool → Part ℕ
  unfolding run_hook finish
  finish_replan p trans_ok reboot_finished =
      run_hook p hook_postupdate
        (sets_env (codes "SUCCESS") (if trans_ok then codes "true" else codes "false") ∷ [])
        (codes "Executing postupdate hook")
      >> finish p trans_ok reboot_finished

  abbrev pub finish_performed : Program → Bool × Bool → Part ℕ
  finish_performed p r = finish_replan p r.0 r.1

  unfoldable pub carry_out : Program → Decision → Part ℕ
  unfolding perform_transaction finish_replan finish
  carry_out p perform = perform_transaction p >>= finish_performed p
  carry_out p (replan_cleanup trans_ok) = finish_replan p trans_ok p.opts.reboot_finished
  carry_out p (cleanup_only trans_ok) = finish p trans_ok p.opts.reboot_finished

  unfoldable pub update_main : Program → Part ℕ
  unfolding decide carry_out
  update_main p = decide p >>= carry_out p
