-- ===== src/Programs/Success.antt =====
-- src/pkgupdate/main.c: the exit status, and the variable SUCCESS for the hooks.
use turris_updater.Base.{
  ℕ, ◌≡◌, ◌≢◌, refl, sym, ap, ◌∙◌, subst, Bool, true, false, List, [], ◌∷◌, ◌++◌, map, append_assoc,
  ◌⊎◌, bytes_eq, codes, inl, inr, if◌then◌else◌, ◌==◌,
}
use turris_updater.Opmode.Modes.{opmode, opmode_reinstall_all}
use turris_updater.Util.Hooks.{HookRun, exec_hook}
use turris_updater.Syscnf.Paths.{root_dir}
use turris_updater.Util.Reboot.{system_reboot}
use turris_updater.Arguments.Update.{Program}
use turris_updater.Programs.Actions.{
  Action, sets_env, runs_hook, reboots, cleans_up, Part, goes, aborts, after, ◌>>=◌, ◌>>◌, Outside,
}
use turris_updater.Programs.Update.{
  Decision, perform, replan_cleanup, cleanup_only, hook_postupdate, configured, recovered,
  after_recovery, loaded, decide, perform_transaction, finish, finish_replan, finish_performed,
  carry_out, update_main,
}
use turris_updater.Programs.Quiet.{chosen, Quiet, chosen-append, IsSilent, hooks-Quiet}
use turris_updater.Programs.Decided.{decide-Quiet, perform_transaction-Quiet}
use turris_updater.Programs.Ends.{Leads, Leads-chain, Leads-then}
use turris_updater.Programs.Confirmed.{is_queue_call, queue-IsSilent, finish-Quiet}

-- The setting of the variable SUCCESS.
abbrev pub is_success : Action → Bool
is_success (sets_env name value) = bytes_eq name (codes "SUCCESS")
is_success _ = false

success-IsSilent : IsSilent is_success
unfolding bytes_eq
success-IsSilent = record {
  on_call = λ f h a. refl;
  on_error = λ e. refl;
  on_root = λ v. refl;
  on_hook = λ h. refl;
  on_unlink = λ path. refl;
  on_write = λ path content. refl;
  on_ask = refl;
}

-- The value for the hooks that an exit status stands for.
abbrev pub success_of : ℕ → Action
success_of status = sets_env (codes "SUCCESS") (if status == 0 then codes "true" else codes "false")

after_hooks :
    (test : Action → Bool) (s : IsSilent test) (hs : List HookRun) (rest : List Action)
    → chosen test rest ≡ []
    → chosen test (map runs_hook hs ++ rest) ≡ []
after_hooks test s hs rest h =
    chosen-append test (map runs_hook hs) rest ∙ rw (hooks-Quiet test hs s) h

module _ {V N : Type 0} (o : Outside V N) where
  abbrev finishing : Program → Bool → List Action
  finishing p finished =
      cleans_up
      ∷ (if finished then reboots (system_reboot o.reboot_found p.reboot_disabled) ∷ [] else [])

  finishing-success :
      (p : Program) (finished : Bool) → chosen is_success (finishing p finished) ≡ []
  finishing-success p true = refl
  finishing-success p false = refl

  -- The hooks after the update.
  abbrev pub postupdate : Program → List HookRun
  postupdate p =
      exec_hook o.executable (o.listing (root_dir p.setup.paths ++ hook_postupdate))
        (root_dir p.setup.paths ++ hook_postupdate) (codes "Executing postupdate hook")

  -- SUCCESS is set once, as the exit status says, and then all the hooks after the update are run, and
  -- behind them is the end of the program.
  abbrev pub HasTold : Program → List Action → ℕ → Type 0
  HasTold p done status =
      (chosen is_success done ≡ success_of status ∷ [])
      × (first : List Action) × (finished : Bool) × (done
          ≡ first ++ success_of status ∷ (map runs_hook (postupdate p) ++ finishing p finished))

  -- The part ends so.
  abbrev Tells : Program → Part ℕ → Type 0
  Tells p (aborts done) = Unit
  Tells p (goes done status) = HasTold p done status

  Tells-after :
      (p : Program) (done : List Action) (m : Part ℕ)
      → chosen is_success done ≡ []
      → Tells p m
      → Tells p (after done m)
  Tells-after p done (aborts more) q h = tt
  Tells-after p done (goes more status) q (set, first, finished, e) = (
    chosen-append is_success done more ∙ rw q set,
    done ++ first,
    finished,
    ap (◌++◌ done) e
        ∙ sym (
            append_assoc done first
              (success_of status ∷ (map runs_hook (postupdate p) ++ finishing p finished))),
  )

  finish_replan-Tells : (p : Program) (ok finished : Bool) → Tells p (finish_replan o p ok finished)
  unfolding finish_replan finish
  finish_replan-Tells p true finished = (
    ap (◌∷◌ (success_of 0)) (
        after_hooks is_success success-IsSilent (postupdate p) (finishing p finished)
          (finishing-success p finished)),
    sets_env (codes "ROOT_DIR") (root_dir p.setup.paths) ∷ [],
    finished,
    refl,
  )
  finish_replan-Tells p false finished = (
    ap (◌∷◌ (success_of 1)) (
        after_hooks is_success success-IsSilent (postupdate p) (finishing p finished)
          (finishing-success p finished)),
    sets_env (codes "ROOT_DIR") (root_dir p.setup.paths) ∷ [],
    finished,
    refl,
  )

  performed-Tells :
      (p : Program) (m : Part (Bool × Bool))
      → Quiet is_success m
      → Tells p (m >>= finish_performed o p)
  performed-Tells p (aborts done) q = tt
  performed-Tells p (goes done r) q =
      Tells-after p done (finish_performed o p r) q (finish_replan-Tells p r.0 r.1)

  -- The transaction was not made, or the hooks have been told.
  abbrev Agrees : Program → Part ℕ → Type 0
  Agrees p (aborts done) = Unit
  Agrees p (goes done status) = (chosen is_queue_call done ≡ []) ⊎ HasTold p done status

  Agrees-told : (p : Program) (m : Part ℕ) → Tells p m → Agrees p m
  Agrees-told p (aborts done) h = tt
  Agrees-told p (goes done status) h = inr h

  Agrees-Quiet : (p : Program) (m : Part ℕ) → Quiet is_queue_call m → Agrees p m
  Agrees-Quiet p (aborts done) h = tt
  Agrees-Quiet p (goes done status) h = inl h

  Agrees-after :
      (p : Program) (done : List Action) (m : Part ℕ)
      → chosen is_success done ≡ []
      → chosen is_queue_call done ≡ []
      → Agrees p m
      → Agrees p (after done m)
  Agrees-after p done (aborts more) q k h = tt
  Agrees-after p done (goes more status) q k (inl h) =
      inl (chosen-append is_queue_call done more ∙ rw k h)
  Agrees-after p done (goes more status) q k (inr h) =
      inr (Tells-after p done (goes more status) q h)

  carry_out-Agrees : (p : Program) (d : Decision) → Agrees p (carry_out o p d)
  unfolding carry_out
  carry_out-Agrees p (cleanup_only ok) =
      Agrees-Quiet p (finish o p ok p.opts.reboot_finished)
        (finish-Quiet o p ok p.opts.reboot_finished)
  carry_out-Agrees p (replan_cleanup ok) =
      Agrees-told p (finish_replan o p ok p.opts.reboot_finished)
        (finish_replan-Tells p ok p.opts.reboot_finished)
  carry_out-Agrees p perform = Agrees-told p (perform_transaction o p >>= finish_performed o p) (
      performed-Tells p (perform_transaction o p)
        (perform_transaction-Quiet o is_success success-IsSilent p (λ a. refl)))

  bind-Agrees :
      (p : Program) (m : Part Decision)
      → Quiet is_success m
      → Quiet is_queue_call m
      → Agrees p (m >>= carry_out o p)
  bind-Agrees p (aborts done) q k = tt
  bind-Agrees p (goes done d) q k = Agrees-after p done (carry_out o p d) q k (carry_out-Agrees p d)

  main-Agrees : (p : Program) → Agrees p (update_main o p)
  unfolding update_main
  main-Agrees p =
      bind-Agrees p (decide o p) (decide-Quiet o is_success success-IsSilent p)
        (decide-Quiet o is_queue_call queue-IsSilent p)

  resolved :
      (p : Program) (done : List Action) (status : ℕ)
      → Agrees p (goes done status)
      → chosen is_queue_call done ≢ []
      → HasTold p done status
  resolved p done status (inl h) n = absurd (n h)
  resolved p done status (inr h) n = h

  -- If pkgupdate has had the transaction made and comes to its end, it has set the variable SUCCESS once,
  -- to what the exit status says, 0 for true and 1 for false; and then it has run every hook after the
  -- update, and behind them there is only the clean-up and the reboot.
  pub update_main-success :
      (p : Program) (done : List Action) (status : ℕ)
      → update_main o p ≡ goes done status
      → chosen is_queue_call done ≢ []
      → HasTold p done status
  update_main-success p done status e h =
      resolved p done status (subst (Agrees p) e (main-Agrees p)) h

  -- The program leaves with status 0.
  abbrev LeavesWell : Decision → Type 0
  LeavesWell d = d ≡ cleanup_only true

  unrecovered-Leads :
      (p : Program) (m : Part Bool)
      → Leads (λ b. b ≡ false) m
      → Leads LeavesWell (m >>= after_recovery o p.opts)
  unrecovered-Leads p m h =
      Leads-chain (λ b. b ≡ false) LeavesWell m (after_recovery o p.opts) h (λ b e. rw e refl)

  unrecovered-decides :
      (p : Program) → Leads (λ b. b ≡ false) (recovered o) → Leads LeavesWell (decide o p)
  unfolding decide
  unrecovered-decides p h =
      let m = opmode opmode_reinstall_all p.modes in
      let rest = recovered o >>= after_recovery o p.opts in
      Leads-then LeavesWell (loaded o) (configured o p m >> rest)
        (Leads-then LeavesWell (configured o p m) rest (unrecovered-Leads p (recovered o) h))

  -- Status 0 without a transaction and without the variable.
  abbrev IsLeft : Part ℕ → Type 0
  IsLeft (aborts done) = Unit
  IsLeft (goes done status) =
      (status ≡ 0) × (chosen is_queue_call done ≡ []) × (chosen is_success done ≡ [])

  finish-IsLeft :
      (p : Program) (finished : Bool) (done : List Action)
      → chosen is_success done ≡ []
      → chosen is_queue_call done ≡ []
      → IsLeft (after done (finish o p true finished))
  unfolding finish
  finish-IsLeft p true done q k = (
    refl,
    chosen-append is_queue_call done (finishing p true) ∙ rw k refl,
    chosen-append is_success done (finishing p true) ∙ rw q refl,
  )
  finish-IsLeft p false done q k = (
    refl,
    chosen-append is_queue_call done (finishing p false) ∙ rw k refl,
    chosen-append is_success done (finishing p false) ∙ rw q refl,
  )

  bind-IsLeft :
      (p : Program) (m : Part Decision)
      → Quiet is_success m
      → Quiet is_queue_call m
      → Leads LeavesWell m
      → IsLeft (m >>= carry_out o p)
  unfolding carry_out
  bind-IsLeft p (aborts done) q k l = tt
  bind-IsLeft p (goes done d) q k l =
      subst (λ x. IsLeft (after done (carry_out o p x))) (sym l)
        (finish-IsLeft p p.opts.reboot_finished done q k)

  unrecovered-IsLeft :
      (p : Program) → Leads (λ b. b ≡ false) (recovered o) → IsLeft (update_main o p)
  unfolding update_main
  unrecovered-IsLeft p h =
      bind-IsLeft p (decide o p) (decide-Quiet o is_success success-IsSilent p)
        (decide-Quiet o is_queue_call queue-IsSilent p) (unrecovered-decides p h)

  -- If the recovery of a journal says that it failed, pkgupdate still ends with the exit status 0 if it
  -- comes to an end, and it has made no transaction and told the hooks nothing.
  pub update_main-unrecovered :
      (p : Program) (done : List Action) (status : ℕ)
      → Leads (λ b. b ≡ false) (recovered o)
      → update_main o p ≡ goes done status
      → (status ≡ 0) × (chosen is_queue_call done ≡ []) × (chosen is_success done ≡ [])
  update_main-unrecovered p done status h e = subst IsLeft e (unrecovered-IsLeft p h)
