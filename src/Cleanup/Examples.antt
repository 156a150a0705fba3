-- ===== src/Cleanup/Examples.antt =====
-- Runs of the cleanup functions of src/lib/util.c.
use turris_updater.Base.{◌≡◌, refl, true, false, [], ◌∷◌, arith}
use turris_updater.Cleanup.Array.{
  Entry, Cleanup, cleanup_register, cleanup_unregister, cleanup_unregister_data, cleanup_run,
  cleanup_run_all,
}
use turris_updater.Cleanup.Stack.{stack}
use turris_updater.Cleanup.Refines.{
  IsWellFormed, cleanup_register-stack, cleanup_unregister-stack, cleanup_run-stack,
}

abbrev start : Cleanup
start = record { registered = false; size = 0; funcs = [] }

abbrev lock : Entry
lock = record { func = 7; arg = 1 }

abbrev other : Entry
other = record { func = 8; arg = 2 }

-- Two handlers, one of them twice.
abbrev three : Cleanup
three = record { registered = true; size = 3; funcs = lock ∷ other ∷ lock ∷ lock ∷ [] }

three-IsWellFormed : IsWellFormed three
three-IsWellFormed _ = omega arith

cleanup_register-stack_run :
    (stack (cleanup_register other three) ≡ other ∷ stack three)
    × IsWellFormed (cleanup_register other three)
cleanup_register-stack_run = cleanup_register-stack other three three-IsWellFormed

cleanup_unregister-stack_run :
    ((stack (cleanup_unregister 8 three).0 ≡ lock ∷ lock ∷ [])
      × ((cleanup_unregister 8 three).1 ≡ true)
      × IsWellFormed (cleanup_unregister 8 three).0)
    × (stack (cleanup_unregister_data 8 3 three).0 ≡ stack three)
    × ((cleanup_unregister_data 8 3 three).1 ≡ false)
    × IsWellFormed (cleanup_unregister_data 8 3 three).0
cleanup_unregister-stack_run = cleanup_unregister-stack 8 3 three three-IsWellFormed

cleanup_run-stack_example :
    ((stack (cleanup_run 7 three).0 ≡ other ∷ lock ∷ [])
      × ((cleanup_run 7 three).1 ≡ lock ∷ [])
      × IsWellFormed (cleanup_run 7 three).0)
    × (stack (cleanup_run_all three).0 ≡ [])
    × ((cleanup_run_all three).1 ≡ lock ∷ other ∷ lock ∷ [])
    × IsWellFormed (cleanup_run_all three).0
cleanup_run-stack_example = cleanup_run-stack 7 three three-IsWellFormed

array_grows :
    (cleanup_register lock (cleanup_register other start)).funcs
    ≡ other ∷ lock ∷ record { func = 0; arg = 0 } ∷ record { func = 0; arg = 0 } ∷ []
unfolding cleanup_register
array_grows = refl
