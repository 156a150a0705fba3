-- ===== src/Programs/Decided.antt =====
-- src/pkgupdate/main.c: before and after the transaction, the program does none of certain things.
use turris_updater.Base.{
  ℕ, ◌≡◌, refl, Bool, true, false, ◌||◌, List, [], ◌∷◌, ◌++◌, Option, none, some, Bytes, codes,
  Bool-cases, inl, inr, if◌then◌else◌,
}
use turris_updater.Opmode.Modes.{opmode, opmode_reinstall_all}
use turris_updater.Arguments.Update.{Opts, Program}
use turris_updater.Interpreter.Call.{c_bool, c_string}
use turris_updater.Interpreter.Results.{Stored}
use turris_updater.Programs.Actions.{
  disable_replan, recover_pretty, prepare, no_tasks, approval_hash, task_report,
  tasks_to_transaction, perform_queue, pre_cleanup, cleanup, Action, calls, reports_error, unlinks,
  writes_file, asks_user, Part, goes, aborts, ◌>>=◌, ◌>>◌, act, Outside, Tried, worked, error_text,
  try_call, call, collect, one_bool, second_bool, one_string, results_interpret, exactly_one,
}
use turris_updater.Programs.Update.{
  is_approved, text, goto_cleanup, hook_preupdate, hook_reboot_delayed, put_report, report_results,
  ask_approval, with_hash, hash_results, approved, approval_clean, run_hook, configured, recovered,
  after_key, confirmed, after_confirmation, with_tasks, tasks_flag, tasks_results, after_prepare,
  after_recovery, loaded, decide, cleaned, last_cleanup, cleanup_flags, cleanup_results,
  after_queue, queue_results, preupdate, perform_transaction,
}
use turris_updater.Programs.Quiet.{
  Quiet, Quiet-bind, Quiet-then, IsSilent, act-Quiet, try_call-Quiet, call-Quiet, collect-Quiet,
  exactly_one-Quiet, results_interpret-Quiet, run_hook-Quiet, approval_clean-Quiet,
}

module _ {V N : Type 0} (o : Outside V N) (test : Action → Bool) (s : IsSilent test) where
  -- One result that is collected for a continuation.
  one_result-Quiet :
      {A : Type 0} (spec : Bytes) (f : List (Stored N) → Part A) (vs : List V)
      → ((r : List (Stored N)) → Quiet test (f r))
      → Quiet test (exactly_one o vs >> (collect o spec vs >>= f))
  one_result-Quiet spec f vs h =
      Quiet-then test (exactly_one o vs) (collect o spec vs >>= f) (exactly_one-Quiet o test s vs)
        (Quiet-bind test (collect o spec vs) f (collect-Quiet o test s spec vs) h)

  ask_approval-Quiet :
      (file hash : Bytes) (found : Bool) → Quiet test (ask_approval o file hash found)
  unfolding ask_approval
  ask_approval-Quiet file hash true =
      Quiet-then test (act (unlinks file)) (goes [] true)
        (act-Quiet test (unlinks file) (s.on_unlink file)) refl
  ask_approval-Quiet file hash false = by o.report_opens
    where
      reported : Quiet test (
          call o task_report (c_string (some []) ∷ c_bool true ∷ []) >>= report_results o file hash)
      reported =
          Quiet-bind test (call o task_report (c_string (some []) ∷ c_bool true ∷ []))
            (report_results o file hash)
            (call-Quiet o test s task_report (c_string (some []) ∷ c_bool true ∷ [])
              (s.on_call task_report refl))
            (λ vs. one_result-Quiet (codes "s") (put_report o file hash) vs (λ r.
              Quiet-then test
                (act (writes_file file (hash ++ (codes "\n" ++ text (one_string o r)))))
                (goes [] false)
                (act-Quiet test (writes_file file (hash ++ (codes "\n" ++ text (one_string o r))))
                  (s.on_write file (hash ++ (codes "\n" ++ text (one_string o r)))))
                refl))

      by :
          (opens : Bool)
          → Quiet test (
              if opens
              then (call o task_report (c_string (some []) ∷ c_bool true ∷ [])
                  >>= report_results o file hash)
              else aborts [])
      by true = reported
      by false = refl

  approved-Quiet :
      (file : Option Bytes) (approvals : List Bytes) → Quiet test (approved o file approvals)
  unfolding approved
  approved-Quiet none approvals = refl
  approved-Quiet (some file) approvals =
      Quiet-bind test (call o approval_hash []) (hash_results o file approvals)
        (call-Quiet o test s approval_hash [] (s.on_call approval_hash refl))
        (λ vs. one_result-Quiet (codes "s") (with_hash o file approvals) vs (λ r.
          ask_approval-Quiet file (text (one_string o r))
            (is_approved (text (one_string o r)) approvals)))

  cleaned_file-Quiet :
      {A : Type 0} (file : Option Bytes) (x : A) → Quiet test (approval_clean o file >> goes [] x)
  cleaned_file-Quiet file x =
      Quiet-then test (approval_clean o file) (goes [] x) (approval_clean-Quiet o test s file) refl

  confirmed-Quiet : (opts : Opts) → Quiet test (confirmed o opts)
  unfolding confirmed
  confirmed-Quiet opts = by opts.batch
    where
      key : (c : Option ℕ) → Quiet test (after_key o opts c)
      key none = refl
      key (some c) = cleaned_file-Quiet opts.approval_file true

      by :
          (batch : Bool)
          → Quiet test (
              if batch
              then approved o opts.approval_file opts.approve
              else act asks_user >> after_key o opts o.input)
      by true = approved-Quiet opts.approval_file opts.approve
      by false =
          Quiet-then test (act asks_user) (after_key o opts o.input)
            (act-Quiet test asks_user s.on_ask) (key o.input)

  after_confirmation-Quiet : (opts : Opts) (b : Bool) → Quiet test (after_confirmation o opts b)
  after_confirmation-Quiet opts true = refl
  after_confirmation-Quiet opts false = refl

  with_tasks-Quiet : (opts : Opts) (none_there : Bool) → Quiet test (with_tasks o opts none_there)
  unfolding with_tasks
  with_tasks-Quiet opts true = cleaned_file-Quiet opts.approval_file (goto_cleanup opts true)
  with_tasks-Quiet opts false =
      Quiet-bind test (confirmed o opts) (after_confirmation o opts) (confirmed-Quiet opts)
        (after_confirmation-Quiet opts)

  after_prepare-Quiet : (opts : Opts) (t : Tried o) → Quiet test (after_prepare o opts t)
  unfolding after_prepare
  after_prepare-Quiet opts (error_text e) =
      Quiet-then test (act (reports_error e)) (goes [] (goto_cleanup opts false))
        (act-Quiet test (reports_error e) (s.on_error e)) refl
  after_prepare-Quiet opts (worked vs) =
      Quiet-bind test (call o no_tasks []) (tasks_results o opts)
        (call-Quiet o test s no_tasks [] (s.on_call no_tasks refl))
        (λ ws.
          one_result-Quiet (codes "b") (tasks_flag o opts) ws
            (λ r. with_tasks-Quiet opts (one_bool o r)))

  after_recovery-Quiet : (opts : Opts) (b : Bool) → Quiet test (after_recovery o opts b)
  after_recovery-Quiet opts false = refl
  after_recovery-Quiet opts true =
      Quiet-bind test (try_call o prepare (c_string opts.config ∷ [])) (after_prepare o opts)
        (try_call-Quiet o test s prepare (c_string opts.config ∷ []) (s.on_call prepare refl))
        (after_prepare-Quiet opts)

  configured-Quiet : (p : Program) (m : Option Bool) → Quiet test (configured o p m)
  unfolding configured
  configured-Quiet p none = refl
  configured-Quiet p (some m) = by (p.opts.no_replan || m)
    where
      by :
          (b : Bool)
          → Quiet {0} test (if b then call o disable_replan [] >> goes [] tt else goes [] tt)
      by false = refl
      by true =
          Quiet-then test (call o disable_replan []) (goes [] tt)
            (call-Quiet o test s disable_replan [] (s.on_call disable_replan refl)) refl

  recovered-Quiet : Quiet test (recovered o)
  unfolding recovered
  recovered-Quiet = by o.journal
    where
      by :
          (b : Bool)
          → Quiet {0} test
              (if b then (call o recover_pretty [] >>= results_interpret o) else goes [] true)
      by false = refl
      by true =
          Quiet-bind test (call o recover_pretty []) (results_interpret o)
            (call-Quiet o test s recover_pretty [] (s.on_call recover_pretty refl))
            (results_interpret-Quiet o test s)

  loaded-Quiet : Quiet test (loaded o)
  loaded-Quiet = elim (Bool-cases o.autoloads) [ inl p ↦ rw p refl | inr p ↦ rw p refl ]

  pub decide-Quiet : (p : Program) → Quiet test (decide o p)
  unfolding decide
  decide-Quiet p =
      let m = opmode opmode_reinstall_all p.modes in
      Quiet-then test (loaded o) (configured o p m >> (recovered o >>= after_recovery o p.opts))
        loaded-Quiet
        (Quiet-then test (configured o p m) (recovered o >>= after_recovery o p.opts)
          (configured-Quiet p m)
          (Quiet-bind test (recovered o) (after_recovery o p.opts) recovered-Quiet
            (after_recovery-Quiet p.opts)))

  cleaned-Quiet :
      (p : Program) (reboot_delayed reboot_finished : Bool)
      → Quiet test (cleaned o p reboot_delayed reboot_finished)
  unfolding cleaned
  cleaned-Quiet p reboot_delayed true = refl
  cleaned-Quiet p false false = refl
  cleaned-Quiet p true false =
      let hook = run_hook o p hook_reboot_delayed [] (codes "Executing reboot_required hook") in
      Quiet-then test hook (goes [] p.opts.reboot_finished)
        (run_hook-Quiet o test s p hook_reboot_delayed (codes "Executing reboot_required hook") []
          refl)
        refl

  after_queue-Quiet : (p : Program) (trans_ok : Bool) → Quiet test (after_queue o p trans_ok)
  after_queue-Quiet p trans_ok =
      Quiet-bind test (call o pre_cleanup []) (cleanup_results o p trans_ok)
        (call-Quiet o test s pre_cleanup [] (s.on_call pre_cleanup refl))
        (λ ws.
          Quiet-bind test (collect o (codes "bb") ws) (cleanup_flags o p trans_ok)
            (collect-Quiet o test s (codes "bb") ws)
            (λ r.
              Quiet-bind test (cleaned o p (one_bool o r) (second_bool o r))
                (last_cleanup o trans_ok) (cleaned-Quiet p (one_bool o r) (second_bool o r))
                (λ f.
                  Quiet-then test (call o cleanup (c_bool f ∷ c_bool o.stray ∷ []))
                    (goes [] (trans_ok, f))
                    (call-Quiet o test s cleanup (c_bool f ∷ c_bool o.stray ∷ [])
                      (s.on_call cleanup refl))
                    refl)))

  preupdate-Quiet : (p : Program) (reexec : Bool) → Quiet test (preupdate o p reexec)
  preupdate-Quiet p true = refl
  preupdate-Quiet p false =
      run_hook-Quiet o test s p hook_preupdate (codes "Executing preupdate hook") [] refl

  -- The transaction too, if its own call is none of them.
  pub perform_transaction-Quiet :
      (p : Program)
      → ((a : Option Bytes) → test (calls perform_queue a) ≡ false)
      → Quiet test (perform_transaction o p)
  unfolding perform_transaction
  perform_transaction-Quiet p h =
      let queue = call o perform_queue [] >>= queue_results o p in
      Quiet-then test (call o tasks_to_transaction []) (preupdate o p p.opts.reexec >> queue)
        (call-Quiet o test s tasks_to_transaction [] (s.on_call tasks_to_transaction refl))
        (Quiet-then test (preupdate o p p.opts.reexec) queue (preupdate-Quiet p p.opts.reexec) (
          Quiet-bind test (call o perform_queue []) (queue_results o p)
            (call-Quiet o test s perform_queue [] h)
            (λ vs.
              Quiet-bind test (results_interpret o vs) (after_queue o p)
                (results_interpret-Quiet o test s vs) (after_queue-Quiet p))))
