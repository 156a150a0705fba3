-- ===== src/Interpreter/Handles.antt =====
-- src/lib/interpreter.c: clean-up handlers of Lua, on the stack of src/lib/util.c.
use turris_updater.Base.{ℕ, Option, none, some, if◌then◌else◌}
use turris_updater.Cleanup.Array.{Cleanup, cleanup_register, cleanup_unregister_data}

-- The address of the function `lua_cleanup_func`.
abbrev pub lua_cleanup_func : ℕ
lua_cleanup_func = 1

-- `data` is the address of the lua_cleanup_data that is made.
unfoldable pub lua_cleanup_register_handle : ℕ → Cleanup → Cleanup
unfolding cleanup_register
lua_cleanup_register_handle data_ c =
    cleanup_register (record { func = lua_cleanup_func; arg = data_ }) c

-- `none` when the assertion fails.
unfoldable pub lua_cleanup_unregister_handle : ℕ → Cleanup → Option Cleanup
unfolding cleanup_unregister_data
lua_cleanup_unregister_handle data_ c =
    let r = cleanup_unregister_data lua_cleanup_func data_ c in if r.1 then some r.0 else none
