-- ===== src/Interpreter/Process.antt =====
-- src/lib/interpreter.c: programs that Lua waits for, directories, and further calls of the system.
use turris_updater.Base.{
  ℕ, zero, suc, ◌*◌, Bool, true, false, List, ◌++◌, Option, none, some, Bytes, codes, length, drop,
  ltb, if◌then◌else◌,
}
use turris_updater.Base.Int.{ℤ, pos, negsuc}
use turris_updater.Logging.Output.{LogSubprocType, lst_pkg_script, lst_hook, lst_unknown}
use turris_updater.Interpreter.Lua.{LuaApi}
use turris_updater.Interpreter.Registry.{Registry, register_value, extract_registry_value}
use turris_updater.Interpreter.Commands.{
  LuaCall, returns, raises, ◌>>=◌, value_at, check_integer, check_string, check_strings,
}
use turris_updater.Arguments.Reexec.{getcwd}

-- The numbers of enum log_subproc_type; others are an error.
unfoldable pub checked_type : ℤ → LuaCall LogSubprocType
checked_type (pos zero) = returns lst_pkg_script
checked_type (pos (suc zero)) = returns lst_hook
checked_type (pos (suc (suc zero))) = returns lst_unknown
checked_type (pos (suc (suc (suc n)))) = raises
checked_type (negsuc n) = raises

module _ {V N : Type 0} (lua : LuaApi V N) where
  -- The callback in the child process: the function that is called, if there is one.
  unfoldable pub subprocess_callback : Option Bytes → Registry lua → Registry lua × Option V
  unfolding extract_registry_value
  subprocess_callback none r = (r, none)
  subprocess_callback (some name) r = let f = extract_registry_value lua name r in (f.0, some f.1)

  -- What is handed to `lsubproclc`.
  pub record SubprocRequest : Type 0 where
    pub type : LogSubprocType
    pub message : Bytes
    pub timeout : ℤ
    pub callback : Option Bytes
    pub cmd : Bytes
    pub args : List Bytes
    pub registry : Registry lua

  abbrev pub command_of :
      LogSubprocType → Bytes → ℤ → Option Bytes → Registry lua → ℕ → List V → LuaCall SubprocRequest
  command_of type message timeout callback r cmd_index stack = do
    cmd ← check_string lua (value_at lua stack cmd_index)
    args ← check_strings lua (drop cmd_index stack)
    returns (record {
      type = type;
      message = message;
      timeout = timeout;
      callback = callback;
      cmd = cmd;
      args = args;
      registry = r;
    })

  -- Whether the fourth value is a function.
  abbrev pub with_callback :
      LogSubprocType → Bytes → ℤ → Bool → Registry lua → List V → LuaCall SubprocRequest
  with_callback type message timeout false r stack = command_of type message timeout none r 4 stack
  with_callback type message timeout true r stack =
      let kept = register_value lua (value_at lua stack 4) r in
      command_of type message timeout (some kept.1) kept.0 5 stack

  -- Only the name of the callback is freed after the call: the registry of this process stays as it is
  -- in the request.
  unfoldable pub lua_subprocess : List V → Registry lua → LuaCall SubprocRequest
  unfolding checked_type register_value
  lua_subprocess stack r = do
    number ← check_integer lua (value_at lua stack 1)
    type ← checked_type number
    message ← check_string lua (value_at lua stack 2)
    timeout ← check_integer lua (value_at lua stack 3)
    with_callback type message timeout (lua.is_function (value_at lua stack 4)) r stack

-- The template that is given to mkdtemp, or an error at too many parameters; `tmpdir` is the variable
-- TMPDIR, and the parameter is none when it is missing or nil.
unfoldable pub mkdtemp_template : ℕ → Option Bytes → Option Bytes → LuaCall Bytes
mkdtemp_template param_count tmpdir param = if ltb 1 param_count then raises else elim param [
  | some base_dir ↦ returns (base_dir ++ codes "/updater-XXXXXX")
  | none ↦ elim tmpdir [
    | some base_dir ↦ returns (base_dir ++ codes "/updater-XXXXXX")
    | none ↦ returns (codes "/tmp/updater-XXXXXX")
  ]
]

-- `works` is what the call of the kernel gives.
unfoldable pub lua_chdir : ℕ → Bool → LuaCall (Unit {0})
lua_chdir zero works = raises
lua_chdir (suc zero) works = if works then returns tt else raises
lua_chdir (suc (suc n)) works = raises

unfoldable pub lua_mkdir : Bool → LuaCall (Unit {0})
lua_mkdir works = if works then returns tt else raises

-- `while (!result)`: the buffer is twice as large in each round; the fuel is a number of rounds.
unfoldable pub lua_getcwd_loop : ℕ → ℕ → Bytes → Option Bytes
unfolding getcwd
lua_getcwd_loop zero s cwd = none
lua_getcwd_loop (suc fuel) s cwd =
    let rest = lua_getcwd_loop fuel (s * 2) cwd in
    elim (getcwd cwd (s * 2)) [ some result ↦ some result | none ↦ rest ]

unfoldable pub lua_getcwd : Bytes → Option Bytes
unfolding lua_getcwd_loop
lua_getcwd cwd = lua_getcwd_loop (suc (length cwd)) 16 cwd
