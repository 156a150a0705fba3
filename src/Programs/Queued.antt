-- ===== src/Programs/Queued.antt =====
-- src/pkgtransaction/main.c: the operations of the command line are queued in their order.
use turris_updater.Base.{
  ℕ, ◌≡◌, refl, ap, ◌∙◌, subst, Bool, true, false, List, [], ◌∷◌, ◌++◌, map, append-nil, none, some,
  Bytes, arith,
}
use turris_updater.Arguments.Common.{taken}
use turris_updater.Arguments.Transaction.{
  OpType, opt_op_add, opt_op_rem, Operation, TransOpts, no_operation, initial_trans_opts,
  parse_transaction,
}
use turris_updater.Arguments.Operations.{operations, parse_transaction-IsAsked}
use turris_updater.Interpreter.Call.{Called, returned, failed, aborted, wild, CArg, c_string}
use turris_updater.Programs.Actions.{
  LuaFunction, perform_queue, queue_install, queue_remove, Action, calls, Part, goes, aborts, after,
  ◌>>=◌, ◌>>◌, Outside, string_arg, answered, or_aborts, try_call, call, results_interpret,
}
use turris_updater.Programs.Transaction.{
  queue_function, queue_all, perform_ops, requested, exit_with, if_loaded, transaction_main,
}
use turris_updater.Programs.Quiet.{chosen, Quiet, chosen-append, is_queue, results_interpret-Quiet}
use turris_updater.Programs.Confirmed.{is_queue_call, queue-IsSilent}

-- If the part goes on, these are the calls for a transaction that it has made.
abbrev Does : {A : Type 0} → List Action → Part A → Type 0
Does expected (goes done x) = chosen is_queue_call done ≡ expected
Does expected (aborts done) = Unit

Does-after :
    {A : Type 0} (first more done : List Action) (m : Part A)
    → chosen is_queue_call done ≡ first
    → Does more m
    → Does (first ++ more) (after done m)
Does-after first more done (aborts rest) h g = tt
Does-after first more done (goes rest x) h g =
    chosen-append is_queue_call done rest ∙ rw (h, g) refl

Does-bind :
    {A B : Type 0} (first more : List Action) (m : Part A) (f : A → Part B)
    → Does first m
    → ((x : A) → Does more (f x))
    → Does (first ++ more) (m >>= f)
Does-bind first more (aborts done) f h g = tt
Does-bind first more (goes done x) f h g = Does-after first more done (f x) h (g x)

Does-then :
    {A B : Type 0} (first more : List Action) (m : Part A) (n : Part B)
    → Does first m
    → Does more n
    → Does (first ++ more) (m >> n)
Does-then first more (aborts done) n h g = tt
Does-then first more (goes done x) n h g = Does-after first more done n h g

Quiet-Does : {A : Type 0} (m : Part A) → Quiet is_queue_call m → Does [] m
Quiet-Does (goes done x) h = h
Quiet-Does (aborts done) h = tt

-- The call for an operation: queue_install for --add, queue_remove for --remove.
abbrev pub queued_as : OpType → Bytes → Action
queued_as opt_op_add pkg = calls queue_install (some pkg)
queued_as opt_op_rem pkg = calls queue_remove (some pkg)

abbrev pub queued : Operation → Action
queued op = queued_as op.type op.pkg

queued_as_called :
    (t : OpType) (pkg : Bytes) → calls (queue_function t) (some pkg) ≡ queued_as t pkg
queued_as_called opt_op_add pkg = refl
queued_as_called opt_op_rem pkg = refl

queue_function-queues : (t : OpType) → is_queue (queue_function t) ≡ true
queue_function-queues opt_op_add = refl
queue_function-queues opt_op_rem = refl

module _ {V N : Type 0} (o : Outside V N) where
  call-Does :
      (f : LuaFunction) (args : List (CArg N))
      → is_queue f ≡ true
      → Does (calls f (string_arg o args) ∷ []) (call o f args)
  unfolding call try_call
  call-Does f args h = by (o.answer f args)
    where
      by :
          (c : Called V)
          → Does
              (calls f (string_arg o args) ∷ [])
              (answered o f (string_arg o args) c >>= or_aborts o)
      by (returned vs) = rw h refl
      by (failed e) = tt
      by aborted = tt
      by wild = tt

  queue_all-Does : (ops : List Operation) → Does (map queued ops) (queue_all o ops)
  unfolding queue_all
  queue_all-Does [] = refl
  queue_all-Does (op ∷ ops) =
      Does-then (queued op ∷ []) (map queued ops)
        (call o (queue_function op.type) (c_string (some op.pkg) ∷ [])) (queue_all o ops)
        (subst (λ a. Does (a ∷ []) (call o (queue_function op.type) (c_string (some op.pkg) ∷ [])))
          (queued_as_called op.type op.pkg)
          (call-Does (queue_function op.type) (c_string (some op.pkg) ∷ [])
            (queue_function-queues op.type)))
        (queue_all-Does ops)

  -- What a transaction with these operations calls.
  abbrev pub transaction_calls : List Operation → List Action
  transaction_calls [] = []
  transaction_calls (op ∷ ops) = map queued (op ∷ ops) ++ calls perform_queue none ∷ []

  perform_ops-Does : (ops : List Operation) → Does (transaction_calls ops) (perform_ops o ops)
  unfolding perform_ops
  perform_ops-Does [] = refl
  perform_ops-Does (op ∷ ops) =
      Does-then (map queued (op ∷ ops)) (calls perform_queue none ∷ []) (queue_all o (op ∷ ops))
        (call o perform_queue [] >>= results_interpret o) (queue_all-Does (op ∷ ops))
        (Does-bind (calls perform_queue none ∷ []) [] (call o perform_queue [])
          (results_interpret o) (call-Does perform_queue [] refl)
          (λ vs.
            Quiet-Does (results_interpret o vs)
              (results_interpret-Quiet o is_queue_call queue-IsSilent vs)))

  exit-Does : (ok : Bool) → Does [] (exit_with o ok)
  exit-Does ok = refl

  requested-Does :
      (resume abort : Bool) (ops : List Operation)
      → resume ≡ false
      → abort ≡ false
      → Does (transaction_calls ops) (requested o resume abort ops)
  unfolding requested
  requested-Does true abort ops r a = absurd (ground arith)
  requested-Does false true ops r a = absurd (ground arith)
  requested-Does false false ops r a = perform_ops-Does ops

  if_loaded-Does :
      (loaded : Bool) (expected : List Action) (request : Part Bool)
      → loaded ≡ true
      → Does expected request
      → Does (expected ++ []) (if_loaded o loaded request)
  if_loaded-Does false expected request l h = absurd (ground arith)
  if_loaded-Does true expected request l h = Does-bind expected [] request (exit_with o) h exit-Does

  main-Does :
      (opts : TransOpts)
      → o.autoloads ≡ true
      → opts.journal_resume ≡ false
      → opts.journal_abort ≡ false
      → Does (transaction_calls opts.ops ++ []) (transaction_main o opts)
  unfolding transaction_main
  main-Does opts l r a =
      if_loaded-Does o.autoloads (transaction_calls opts.ops)
        (requested o opts.journal_resume opts.journal_abort opts.ops) l
        (requested-Does opts.journal_resume opts.journal_abort opts.ops r a)

  some_ops :
      (ops : List Operation) (resume abort : Bool)
      → no_operation (record { ops = ops; journal_resume = resume; journal_abort = abort }) ≡ false
      → resume ≡ false
      → abort ≡ false
      → transaction_calls ops ≡ map queued ops ++ calls perform_queue none ∷ []
  some_ops [] resume abort n r a = absurd (ground arith)
  some_ops (op ∷ ops) resume abort n r a = refl

  -- If the command line of pkgtransaction is taken and asks for nothing with the journal, the Lua code
  -- loads, and the program comes to its end: it has queued each package of the options --add and
  -- --remove for installation or removal, in their order, and then had the queue performed once.
  pub transaction_main-operations :
      (keys : List (ℕ × Bytes)) (opts : TransOpts) (done : List Action) (status : ℕ)
      → parse_transaction keys initial_trans_opts ≡ taken opts
      → opts.journal_resume ≡ false
      → opts.journal_abort ≡ false
      → o.autoloads ≡ true
      → transaction_main o opts ≡ goes done status
      → chosen is_queue_call done ≡ map queued (operations keys) ++ calls perform_queue none ∷ []
  transaction_main-operations keys opts done status e r a l m =
      let asked = parse_transaction-IsAsked keys initial_trans_opts opts e in
      subst (Does (transaction_calls opts.ops ++ [])) m (main-Does opts l r a)
      ∙ append-nil (transaction_calls opts.ops)
      ∙ some_ops opts.ops opts.journal_resume opts.journal_abort asked.2 r a
      ∙ ap (λ ops. map queued ops ++ calls perform_queue none ∷ []) asked.0
