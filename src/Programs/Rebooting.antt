-- ===== src/Programs/Rebooting.antt =====
-- src/pkgupdate/main.c: the reboot at the end of a run.
use turris_updater.Base.{◌≡◌, Bool, true, false}
use turris_updater.Programs.Actions.{Action, reboots, Outside}

abbrev pub is_reboot : Action → Bool
is_reboot (reboots r) = true
is_reboot _ = false

module _ {V N : Type 0} (o : Outside V N) where
  -- The transaction keeps the flag of the reboot.
  abbrev IsKept : Bool × Bool → Type 0
  IsKept r = r.1 ≡ true
