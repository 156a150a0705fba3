-- ===== src/Programs/Examples.antt =====
-- Runs of both programs, with a Lua whose functions give the boolean true or nothing.
use turris_updater.Base.{
  ℕ, ◌≡◌, ◌≢◌, refl, sym, subst, Bool, true, false, List, [], ◌∷◌, ◌++◌, map, none, Bytes, codes,
  arith,
}
use turris_updater.Base.Int.{pos}
use turris_updater.Opmode.Modes.{opmode}
use turris_updater.Logging.Levels.{ll_info}
use turris_updater.Syscnf.Paths.{root_dir, get_path}
use turris_updater.Util.Hooks.{exec_hook}
use turris_updater.Arguments.Common.{taken}
use turris_updater.Arguments.Update.{
  UpdateKey, opt_batch_val, opt_out_of_root, opt_reboot_finished, Program, initial_opts,
}
use turris_updater.Arguments.Transaction.{
  TransOpts, opt_op_add, opt_op_rem, initial_trans_opts, new_op, new_opts, not_both,
  parse_opt_transaction, parse_transaction,
}
use turris_updater.Arguments.Operations.{operations}
use turris_updater.Interpreter.Lua.{LuaApi}
use turris_updater.Interpreter.Call.{CArg, Called, returned}
use turris_updater.Interpreter.Results.{
  read_value, take_reading, collect_from, interpreter_collect_results,
}
use turris_updater.Programs.Actions.{
  LuaFunction, no_tasks, perform_queue, recover_pretty, pre_cleanup, Action, calls, goes, actions,
  Outside, try_call, call, collect, results_interpret,
}
use turris_updater.Programs.Update.{
  approved, configured, recovered, confirmed, with_tasks, after_prepare, decide, cleaned,
  perform_transaction, run_hook, finish, finish_replan, carry_out, update_main,
}
use turris_updater.Programs.Transaction.{queue_all, perform_ops, requested, transaction_main}
use turris_updater.Programs.Quiet.{chosen}
use turris_updater.Programs.Confirmed.{is_queue_call, confirmation, update_main-confirmation}
use turris_updater.Programs.Ends.{Leads}
use turris_updater.Programs.Success.{
  is_success, HasTold, update_main-success, update_main-unrecovered,
}
use turris_updater.Programs.Queued.{queued, transaction_main-operations}

only_false : (b : Bool) → (elim b [ true ↦ false | false ↦ true ]) ≡ true → b ≡ false
only_false true h = absurd (ground arith)
only_false false h = refl

-- The values are booleans, and false is nil.
abbrev booleans : LuaApi Bool ℕ
booleans = record {
  nil = false;
  of_boolean = λ b. b;
  of_integer = λ i. true;
  of_string = λ s. true;
  of_number = λ n. true;
  is_nil = λ v. elim v [ true ↦ false | false ↦ true ];
  is_string = λ v. false;
  is_number = λ v. false;
  is_function = λ v. false;
  is_table = λ v. false;
  to_boolean = λ v. v;
  to_integer = λ v. pos 0;
  to_number = λ v. 0;
  to_text = λ v. none;
  field = λ v name. none;
  nil_only = only_false;
}

-- There are tasks, the transaction succeeds, and a reboot is not asked for.
abbrev answers : LuaFunction → List (CArg ℕ) → Called Bool
answers no_tasks args = returned (false ∷ [])
answers perform_queue args = returned (true ∷ [])
answers recover_pretty args = returned (false ∷ [])
answers pre_cleanup args = returned (false ∷ false ∷ [])
answers f args = returned []

-- With or without a journal.
abbrev outside : Bool → Outside Bool ℕ
outside journal = record {
  lua = booleans;
  registry = record { id = 0; values = λ name. none };
  answer = answers;
  autoloads = true;
  journal = journal;
  input = none;
  report_opens = true;
  listing = λ dir. none;
  executable = λ path. false;
  reboot_found = true;
  stray = false;
}

abbrev program : Program
program = record {
  opts = initial_opts;
  modes = false ∷ false ∷ false ∷ [];
  reboot_disabled = false;
  setup = record {
    log = record {
      syslog_level = ll_info;
      stderr_level = ll_info;
      syslog_opened = none;
      written = [];
    };
    paths = record {
      root_path = none;
      status_path = none;
      info_path = none;
      changelog_path = none;
      unpacked_path = none;
      download_path = none;
      collided_path = none;
    };
  };
}

abbrev line : List (UpdateKey × Bytes)
line = (opt_batch_val, []) ∷ (opt_out_of_root, []) ∷ (opt_reboot_finished, []) ∷ []

-- The program after the line.
abbrev line_program : Program
line_program = record program {
  opts = record initial_opts {
    batch = true;
    no_replan = true;
    no_immediate_reboot = true;
    reboot_finished = true;
  };
}

-- What a run does.
abbrev run : Bool → List Action
run journal = actions (update_main (outside journal) line_program)

run_ends : update_main (outside false) line_program ≡ goes (run false) 0
unfolding update_main decide carry_out configured recovered after_prepare with_tasks confirmed
    approved perform_transaction cleaned finish_replan finish run_hook call try_call collect
    results_interpret interpreter_collect_results collect_from read_value take_reading opmode
    exec_hook root_dir get_path
run_ends = refl

run-queue : chosen is_queue_call (run false) ≡ calls perform_queue none ∷ []
unfolding update_main decide carry_out configured recovered after_prepare with_tasks confirmed
    approved perform_transaction cleaned finish_replan finish run_hook call try_call collect
    results_interpret interpreter_collect_results collect_from read_value take_reading opmode
    exec_hook root_dir get_path
run-queue = refl

one_action : (a : Action) (more : List Action) → (a ∷ more) ≢ []
one_action a more h = ground arith

queue_is_called : chosen is_queue_call (run false) ≢ []
queue_is_called = subst (λ l. l ≢ []) (sym run-queue) (one_action (calls perform_queue none) [])

update_main-confirmation_example : confirmation (outside false) line_program.opts ≡ true
update_main-confirmation_example =
    update_main-confirmation (outside false) line_program queue_is_called

update_main-success_example : HasTold (outside false) line_program (run false) 0
update_main-success_example =
    update_main-success (outside false) line_program (run false) 0 run_ends queue_is_called

unrecovered_ends : update_main (outside true) line_program ≡ goes (run true) 0
unfolding update_main decide carry_out configured recovered finish run_hook call try_call collect
    results_interpret interpreter_collect_results collect_from read_value take_reading opmode
unrecovered_ends = refl

not_recovered : Leads (λ b. b ≡ false) (recovered (outside true))
unfolding recovered call try_call collect results_interpret interpreter_collect_results collect_from
    read_value take_reading
not_recovered = refl

update_main-unrecovered_example :
    (◌≡◌ {A = ℕ} 0 0) × (chosen is_queue_call (run true) ≡ []) × (chosen is_success (run true) ≡ [])
update_main-unrecovered_example =
    update_main-unrecovered (outside true) line_program (run true) 0 not_recovered unrecovered_ends

abbrev changes : List (ℕ × Bytes)
changes = (b'a', codes "x.ipk") ∷ (b'r', codes "y") ∷ []

abbrev asked : TransOpts
asked = record {
  ops =
      record { type = opt_op_add; pkg = codes "x.ipk" }
      ∷ record { type = opt_op_rem; pkg = codes "y" }
      ∷ [];
  journal_resume = false;
  journal_abort = false;
}

changes-asked : parse_transaction changes initial_trans_opts ≡ taken asked
unfolding parse_transaction parse_opt_transaction new_opts new_op not_both
changes-asked = refl

abbrev transaction : List Action
transaction = actions (transaction_main (outside false) asked)

transaction_ends : transaction_main (outside false) asked ≡ goes transaction 0
unfolding transaction_main requested perform_ops queue_all call try_call collect results_interpret
    interpreter_collect_results collect_from read_value take_reading
transaction_ends = refl

transaction_main-operations_example :
    chosen is_queue_call transaction
    ≡ map queued (operations changes) ++ calls perform_queue none ∷ []
transaction_main-operations_example =
    transaction_main-operations (outside false) changes asked transaction 0 changes-asked refl refl
      refl transaction_ends
