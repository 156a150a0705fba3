-- ===== src/Interpreter/Released.antt =====
-- src/lib/interpreter.c: what Lua registers is given back, and the working directory.
use turris_updater.Base.{
  ℕ, zero, suc, ◌+◌, ◌*◌, ◌<◌, ◌≡◌, ap, ◌∙◌, true, List, ◌∷◌, Option, none, some, Bytes, length,
  arith,
}
use turris_updater.Cleanup.Array.{Entry, Cleanup, has_both, cleanup_register}
use turris_updater.Cleanup.Stack.{stack, without, has}
use turris_updater.Cleanup.Refines.{IsWellFormed, cleanup_register-stack, cleanup_unregister-stack}
use turris_updater.Interpreter.Handles.{
  lua_cleanup_func, lua_cleanup_register_handle, lua_cleanup_unregister_handle,
}
use turris_updater.Interpreter.Process.{lua_getcwd_loop, lua_getcwd}
use turris_updater.Arguments.Reexec.{getcwd}

-- An unregistration succeeds and leaves this stack.
abbrev pub LeavesStack : List Entry → Option Cleanup → Type 0
LeavesStack es none = ⊥
LeavesStack es (some c) = (stack c ≡ es) × IsWellFormed c

-- The entry of a handle.
abbrev handle : ℕ → Entry
handle a = record { func = lua_cleanup_func; arg = a }

topmost_goes :
    (a : ℕ) (es : List Entry)
    → (without (has_both lua_cleanup_func a) (handle a ∷ es) ≡ es)
      × (has (has_both lua_cleanup_func a) (handle a ∷ es) ≡ true)
topmost_goes a es = ground arith

unregistered :
    (a : ℕ) (es : List Entry) (d : Cleanup)
    → stack d ≡ handle a ∷ es
    → IsWellFormed d
    → LeavesStack es (lua_cleanup_unregister_handle a d)
unfolding lua_cleanup_unregister_handle
unregistered a es d s w =
    let gone = cleanup_unregister-stack lua_cleanup_func a d w in
    let top = topmost_goes a es in
    rw (gone.2 ∙ ap (has (has_both lua_cleanup_func a)) s ∙ top.1)
      (gone.1 ∙ ap (without (has_both lua_cleanup_func a)) s ∙ top.0, gone.3)

-- In a well-formed array of handlers, a handle that Lua registers and unregisters leaves the stack as
-- it was, and the assertion of the unregistration holds.
pub lua_cleanup_unregister_handle-stack :
    (a : ℕ) (c : Cleanup)
    → IsWellFormed c
    → LeavesStack (stack c) (lua_cleanup_unregister_handle a (lua_cleanup_register_handle a c))
unfolding lua_cleanup_register_handle
lua_cleanup_unregister_handle-stack a c w =
    let pushed = cleanup_register-stack (handle a) c w in
    unregistered a (stack c) (cleanup_register (handle a) c) pushed.0 pushed.1

getcwd_loop-finds :
    (cwd : Bytes) (fuel s : ℕ)
    → length cwd + 1 < s * 2 + fuel
    → 0 < s
    → 0 < fuel
    → lua_getcwd_loop fuel s cwd ≡ some cwd
unfolding lua_getcwd_loop getcwd
getcwd_loop-finds cwd zero s h p q = absurd (omega arith)
getcwd_loop-finds cwd (suc zero) s h p q = ground arith
getcwd_loop-finds cwd (suc (suc fuel)) s h p q =
    ground
      (arith, getcwd_loop-finds cwd (suc fuel) (s * 2) (omega arith) (omega arith) (omega arith))

-- The loop that doubles the buffer ends with the working directory, however long its path is.
pub lua_getcwd-cwd : (cwd : Bytes) → lua_getcwd cwd ≡ some cwd
unfolding lua_getcwd
lua_getcwd-cwd cwd =
    getcwd_loop-finds cwd (suc (length cwd)) 16 (omega arith) (omega arith) (omega arith)
