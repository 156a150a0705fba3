-- ===== src/Programs/Transaction.antt =====
-- src/pkgtransaction/main.c: `main` after the options have been parsed.
use turris_updater.Base.{ℕ, Bool, true, false, List, [], ◌∷◌, some, if◌then◌else◌}
use turris_updater.Arguments.Transaction.{OpType, opt_op_add, opt_op_rem, Operation, TransOpts}
use turris_updater.Interpreter.Call.{c_string}
use turris_updater.Programs.Actions.{
  LuaFunction, recover_pretty, perform_queue, queue_install, queue_remove, cleans_up, Part, goes,
  aborts, ◌>>=◌, ◌>>◌, act, Outside, call, results_interpret,
}

-- The Lua function of an operation.
abbrev pub queue_function : OpType → LuaFunction
queue_function opt_op_add = queue_install
queue_function opt_op_rem = queue_remove

module _ {V N : Type 0} (o : Outside V N) where
  -- The loop over the operations.
  unfoldable pub queue_all : List Operation → Part (Unit {0})
  unfolding call
  queue_all [] = goes [] tt
  queue_all (op ∷ ops) =
      call o (queue_function op.type) (c_string (some op.pkg) ∷ []) >> queue_all ops

  -- `else if (opts.ops_cnt > 0)`
  unfoldable pub perform_ops : List Operation → Part Bool
  unfolding queue_all call results_interpret
  perform_ops [] = goes [] true
  perform_ops (op ∷ ops) = queue_all (op ∷ ops) >> (call o perform_queue [] >>= results_interpret o)

  -- The three kinds of request, with `journal_resume` and `journal_abort`: `trans_ok`.
  unfoldable pub requested : Bool → Bool → List Operation → Part Bool
  unfolding call results_interpret perform_ops
  requested true journal_abort ops = call o recover_pretty [] >>= results_interpret o
  requested false true ops = aborts []
  requested false false ops = perform_ops ops

  abbrev pub exit_with : Bool → Part ℕ
  exit_with trans_ok = act cleans_up >> goes [] (if trans_ok then 0 else 1)

  -- The exit status; it is 1 as well when the Lua code does not load.
  abbrev pub if_loaded : Bool → Part Bool → Part ℕ
  if_loaded true request = request >>= exit_with
  if_loaded false request = goes [] 1

  unfoldable pub transaction_main : TransOpts → Part ℕ
  unfolding requested
  transaction_main opts =
      if_loaded o.autoloads (requested opts.journal_resume opts.journal_abort opts.ops)
