-- ===== src/Arguments/Examples.antt =====
-- Runs of the parsers of both programs.
use turris_updater.Base.{◌≡◌, refl, ℕ, true, false, List, [], ◌∷◌, none, some, Bytes, codes}
use turris_updater.Logging.Levels.{ll_info}
use turris_updater.Arguments.Common.{taken}
use turris_updater.Arguments.Update.{
  UpdateKey, opt_out_of_root, opt_approve, opt_batch_val, Program, initial_opts, parse_opt_update,
  or_common, parse_update,
}
use turris_updater.Arguments.Transaction.{
  TransOpts, opt_op_add, opt_op_rem, initial_trans_opts, new_op, new_opts, not_both,
  parse_opt_transaction, parse_transaction,
}
use turris_updater.Arguments.Reexec.{executes, getcwd_loop, getcwd_rounds, args_backup, reexec}
use turris_updater.Arguments.Flags.{HasFlags, parse_update-HasFlags}
use turris_updater.Arguments.Operations.{
  IsAsked, operations, parse_transaction-IsAsked, reexec-args_backup,
}

abbrev program : Program
program = record {
  opts = initial_opts;
  modes = false ∷ false ∷ false ∷ [];
  reboot_disabled = false;
  setup = record {
    log = record {
      syslog_level = ll_info;
      stderr_level = ll_info;
      syslog_opened = none;
      written = [];
    };
    paths = record {
      root_path = none;
      status_path = none;
      info_path = none;
      changelog_path = none;
      unpacked_path = none;
      download_path = none;
      collided_path = none;
    };
  };
}

abbrev line : List (UpdateKey × Bytes)
line = (opt_out_of_root, []) ∷ (opt_approve, codes "ab") ∷ (opt_batch_val, []) ∷ []

-- The program after the line.
abbrev line_program : Program
line_program = record program {
  opts = record initial_opts {
    batch = true;
    no_replan = true;
    no_immediate_reboot = true;
    approve = codes "ab" ∷ [];
  };
}

line-parsed : parse_update (codes "/root") (codes "/") line program ≡ taken line_program
unfolding parse_update or_common parse_opt_update
line-parsed = refl

parse_update-HasFlags_example : HasFlags program line line_program
parse_update-HasFlags_example =
    parse_update-HasFlags (codes "/root") (codes "/") line program line_program line-parsed

abbrev changes : List (ℕ × Bytes)
changes = (b'a', codes "x.ipk") ∷ (b'r', codes "y") ∷ []

abbrev asked : TransOpts
asked = record {
  ops =
      record { type = opt_op_add; pkg = codes "x.ipk" }
      ∷ record { type = opt_op_rem; pkg = codes "y" }
      ∷ [];
  journal_resume = false;
  journal_abort = false;
}

changes-asked : parse_transaction changes initial_trans_opts ≡ taken asked
unfolding parse_transaction parse_opt_transaction new_opts new_op not_both
changes-asked = refl

parse_transaction-IsAsked_run : IsAsked (operations changes) asked
parse_transaction-IsAsked_run =
    parse_transaction-IsAsked changes initial_trans_opts asked changes-asked

reexec-args_backup_run :
    (getcwd_loop (getcwd_rounds (codes "/root")) 0 (codes "/root") ≡ some (codes "/root"))
    × (reexec true
          (codes "--no-replan" ∷ [])
          (args_backup (codes "pkgupdate" ∷ codes "--batch" ∷ []) (codes "/root"))
        ≡ executes
            (some (codes "/root"))
            (codes "pkgupdate")
            (codes "pkgupdate" ∷ codes "--batch" ∷ codes "--no-replan" ∷ codes "--reexec" ∷ []))
reexec-args_backup_run =
    reexec-args_backup (codes "pkgupdate") (codes "--batch" ∷ []) (codes "--no-replan" ∷ [])
      (codes "/root")
