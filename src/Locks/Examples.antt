-- ===== src/Locks/Examples.antt =====
-- Runs of src/lib/locks.c.
use turris_updater.Base.{refl, true, [], ◌∷◌, some, codes}
use turris_updater.Locks.Lock.{Acquisition, unlock, close, lua_acquire}
use turris_updater.Locks.Balanced.{EndsWith, lua_acquire-undoing}

abbrev granted : Acquisition
granted = record { created = some 5; cloexec = true; got_lock = true }

lua_acquire-undoing_example :
    EndsWith (unlock 5 ∷ close 5 ∷ []) 2 (lua_acquire granted (codes "/var/lock/opkg.lock")).lock
lua_acquire-undoing_example = lua_acquire-undoing granted (codes "/var/lock/opkg.lock") 2 refl
