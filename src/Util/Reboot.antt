-- ===== src/Util/Reboot.antt =====
-- src/lib/util.c: the reboot and the switch that keeps it from happening.
use turris_updater.Base.{Bool, true, if◌then◌else◌}

-- `system_reboot_disabled`
abbrev pub RebootSwitch : Type 0
RebootSwitch = Bool

unfoldable pub system_reboot_disable : RebootSwitch → RebootSwitch
system_reboot_disable disabled = true

-- How a call ends, in this process or in its child: it returns without a child, it returns with a
-- child that becomes the reboot program, or with one that returns from the call as well, since
-- execlp gives a number that is not zero when it fails.
pub data Rebooted : Type 0 where
  skipped : Rebooted
  rebooting : Rebooted
  doubled : Rebooted

-- `found` is whether execlp finds the program.
unfoldable pub system_reboot : Bool → RebootSwitch → Rebooted
system_reboot found disabled = if disabled then skipped else if found then rebooting else doubled
