-- ===== src/Arguments/Transaction.antt =====
-- src/pkgtransaction/arguments.c: the options of pkgtransaction.
use turris_updater.Base.{
  ℕ, Bool, true, false, not, List, [], ◌∷◌, ◌++◌, Bytes, codes, length, ◌==◌, ◌&&◌, if◌then◌else◌,
}
use turris_updater.Arguments.Common.{Parsed, taken, unknown, usage, dies, ◌>>=◌}

-- enum op_type
pub data OpType : Type 0 where
  opt_op_add : OpType
  opt_op_rem : OpType

-- struct operation
pub record Operation : Type 0 where
  pub type : OpType
  pub pkg : Bytes

-- struct opts
pub record TransOpts : Type 0 where
  pub ops : List Operation
  pub journal_resume : Bool
  pub journal_abort : Bool

abbrev pub initial_trans_opts : TransOpts
initial_trans_opts = record { ops = []; journal_resume = false; journal_abort = false }

unfoldable pub new_op : OpType → Bytes → TransOpts → TransOpts
new_op type pkg opts = record opts { ops = opts.ops ++ record { type = type; pkg = pkg } ∷ [] }

-- ARGP_KEY_END, which comes after all of the options.
abbrev pub argp_key_end : ℕ
argp_key_end = 16777217

abbrev pub no_operation : TransOpts → Bool
no_operation opts = not opts.journal_abort && (not opts.journal_resume && length opts.ops == 0)

-- The switch.
unfoldable pub new_opts : ℕ → Bytes → TransOpts → Parsed TransOpts
unfolding new_op
new_opts key arg opts =
    if key == b'a'
    then taken (new_op opt_op_add arg opts)
    else if key == b'r'
    then taken (new_op opt_op_rem arg opts)
    else if key == b'j'
    then taken (record opts { journal_resume = true })
    else if key == b'b'
    then taken (record opts { journal_abort = true })
    else if key == argp_key_end
    then (if no_operation opts then usage (codes "No operation specified") else taken opts)
    else unknown

-- The test after the switch.
unfoldable pub not_both : Parsed TransOpts → Parsed TransOpts
not_both (taken opts) =
    if opts.journal_abort && opts.journal_resume
    then usage (codes "Aborting and resuming journal at the same time is not possible.")
    else taken opts
not_both unknown = unknown
not_both (usage text) = usage text
not_both dies = dies

unfoldable pub parse_opt_transaction : ℕ → Bytes → TransOpts → Parsed TransOpts
unfolding new_opts not_both
parse_opt_transaction key arg opts = not_both (new_opts key arg opts)

-- argp_parse, on the keys of this program that it finds, with the end after them.
unfoldable pub parse_transaction : List (ℕ × Bytes) → TransOpts → Parsed TransOpts
unfolding parse_opt_transaction
parse_transaction [] opts = parse_opt_transaction argp_key_end [] opts
parse_transaction ((key, arg) ∷ keys) opts = do
  opts' ← parse_opt_transaction key arg opts
  parse_transaction keys opts'
