-- ===== src/Arguments/Update.antt =====
-- src/pkgupdate/arguments.c: the options of pkgupdate.
use turris_updater.Base.{
  ℕ, Bool, true, false, List, [], ◌∷◌, ◌++◌, Option, none, some, Bytes, codes,
}
use turris_updater.Opmode.Modes.{Modes, opmode_set, opmode_reinstall_all}
use turris_updater.Util.Reboot.{RebootSwitch, system_reboot_disable}
use turris_updater.Arguments.Common.{Setup, Parsed, taken, unknown, usage, dies, ◌>>=◌, parse_opt}

-- enum option_val_prg, the key of an argument without an option, and the other keys.
pub data UpdateKey : Type 0 where
  opt_batch_val : UpdateKey
  opt_reinstall_all : UpdateKey
  opt_ask_approval : UpdateKey
  opt_approve : UpdateKey
  opt_no_replan : UpdateKey
  opt_no_immediate_reboot : UpdateKey
  opt_out_of_root : UpdateKey
  opt_reexec : UpdateKey
  opt_reboot_finished : UpdateKey
  argp_key_arg : UpdateKey
  other_key : ℕ → UpdateKey

-- struct opts
pub record Opts : Type 0 where
  pub batch : Bool
  pub approval_file : Option Bytes
  pub approve : List Bytes
  pub no_replan : Bool
  pub no_immediate_reboot : Bool
  pub config : Option Bytes
  pub reexec : Bool
  pub reboot_finished : Bool

-- The values that main starts with.
abbrev pub initial_opts : Opts
initial_opts = record {
  batch = false;
  approval_file = none;
  approve = [];
  no_replan = false;
  no_immediate_reboot = false;
  config = none;
  reexec = false;
  reboot_finished = false;
}

-- All that the options of pkgupdate change.
pub record Program : Type 0 where
  pub opts : Opts
  pub modes : Modes
  pub reboot_disabled : RebootSwitch
  pub setup : Setup

abbrev with_modes : Program → Option Modes → Parsed Program
with_modes p none = dies
with_modes p (some modes) = taken (record p { modes = modes })

-- The first argument is the script, a further one is not known.
abbrev with_config : Program → Bytes → Option Bytes → Parsed Program
with_config p arg none = taken (record p { opts = record p.opts { config = some arg } })
with_config p arg (some old) = unknown

unfoldable pub parse_opt_update : UpdateKey → Bytes → Program → Parsed Program
unfolding opmode_set system_reboot_disable
parse_opt_update opt_batch_val arg p = taken (record p { opts = record p.opts { batch = true } })
parse_opt_update opt_reinstall_all arg p = with_modes p (opmode_set opmode_reinstall_all p.modes)
parse_opt_update opt_ask_approval arg p =
    taken (record p { opts = record p.opts { approval_file = some arg } })
parse_opt_update opt_approve arg p =
    taken (record p { opts = record p.opts { approve = p.opts.approve ++ arg ∷ [] } })
parse_opt_update opt_no_replan arg p =
    taken (record p { opts = record p.opts { no_replan = true } })
parse_opt_update opt_no_immediate_reboot arg p = taken (record p {
  opts = record p.opts { no_immediate_reboot = true };
  reboot_disabled = system_reboot_disable p.reboot_disabled;
})
parse_opt_update opt_out_of_root arg p =
    taken (record p { opts = record p.opts { no_replan = true; no_immediate_reboot = true } })
parse_opt_update opt_reexec arg p = taken (record p { opts = record p.opts { reexec = true } })
parse_opt_update opt_reboot_finished arg p =
    taken (record p { opts = record p.opts { reboot_finished = true } })
parse_opt_update argp_key_arg arg p = with_config p arg p.opts.config
parse_opt_update (other_key key) arg p = unknown

-- A key that the program's own parser does not know goes to the common one.
unfoldable pub from_common : Program → Parsed Setup → Parsed Program
from_common p (taken s) = taken (record p { setup = s })
from_common p unknown = usage (codes "unrecognised argument")
from_common p (usage text) = usage text
from_common p dies = dies

abbrev pub key_number : UpdateKey → ℕ
key_number opt_batch_val = 300
key_number opt_reinstall_all = 301
key_number opt_ask_approval = 302
key_number opt_approve = 303
key_number opt_no_replan = 304
key_number opt_no_immediate_reboot = 305
key_number opt_out_of_root = 306
key_number opt_reexec = 307
key_number opt_reboot_finished = 308
key_number argp_key_arg = 0
key_number (other_key key) = key

unfoldable pub or_common :
    Bytes → Bytes → UpdateKey → Bytes → Program → Parsed Program → Parsed Program
unfolding parse_opt from_common
or_common home cwd key arg p (taken q) = taken q
or_common home cwd key arg p unknown =
    from_common p (parse_opt home cwd (key_number key) arg p.setup)
or_common home cwd key arg p (usage text) = usage text
or_common home cwd key arg p dies = dies

-- argp_parse, on the keys that it finds.
unfoldable pub parse_update : Bytes → Bytes → List (UpdateKey × Bytes) → Program → Parsed Program
unfolding or_common parse_opt_update
parse_update home cwd [] p = taken p
parse_update home cwd ((key, arg) ∷ keys) p = do
  q ← or_common home cwd key arg p (parse_opt_update key arg p)
  parse_update home cwd keys q
