-- ===== src/Interpreter/Commands.antt =====
-- src/lib/interpreter.c: commands that Lua runs, and moving and copying of files by commands.
use turris_updater.Base.{
  ℕ, zero, suc, ◌/◌, ◌%◌, Bool, true, false, List, [], ◌∷◌, Option, none, some, Bytes, codes,
  get_elem?, drop, ◌==◌, if◌then◌else◌,
}
use turris_updater.Base.Int.{ℤ, pos}
use turris_updater.Events.State.{KillStatus, ck_terminated, ck_termed, ck_killed, ck_signal_other}
use turris_updater.Interpreter.Lua.{LuaApi}
use turris_updater.Interpreter.Registry.{Registry, or_nil, register_value, extract_registry_value}

-- WTERMSIG, WIFEXITED and WEXITSTATUS of sys/wait.h.
abbrev pub wtermsig : ℕ → ℕ
wtermsig status = status % 128

abbrev pub wifexited : ℕ → Bool
wifexited status = wtermsig status == 0

abbrev pub wexitstatus : ℕ → ℕ
wexitstatus status = status / 256 % 256

-- What a function that Lua calls gives: results or an error.
pub data LuaCall {ℓ} (A : Type ℓ) : Type ℓ where
  returns : A → LuaCall A
  raises : LuaCall A

infixl 20 ◌>>=◌
abbrev pub ◌>>=◌ {ℓ κ} : {A : Type ℓ} {B : Type κ} → LuaCall A → (A → LuaCall B) → LuaCall B
returns x >>= f = f x
raises >>= f = raises

-- struct lua_command_data, without the state of Lua.
pub record LuaCommandData : Type 0 where
  pub terminated_callback : Bytes
  pub postfork_callback : Option Bytes

abbrev pub kill_name : KillStatus → Bytes
kill_name ck_terminated = codes "TERMINATED"
kill_name ck_termed = codes "TERMED"
kill_name ck_killed = codes "KILLED"
kill_name ck_signal_other = codes "SIGNAL_OTHER"

module _ {V N : Type 0} (lua : LuaApi V N) where
  -- The function that is called, with its parameters, and the registry then.
  pub record Callback : Type 0 where
    pub function : V
    pub params : List V
    pub registry : Registry lua

  abbrev pub released : Option Bytes → Registry lua → Registry lua
  released none r = r
  released (some name) r = (extract_registry_value lua name r).0

  unfoldable pub command_terminated :
      LuaCommandData → ℕ → KillStatus → Bytes → Bytes → Registry lua → Callback
  unfolding extract_registry_value
  command_terminated lcd status killed out err r =
      let handler =
        extract_registry_value lua lcd.terminated_callback (released lcd.postfork_callback r) in
      record {
        function = handler.1;
        params =
            lua.of_integer (pos (if wifexited status then wexitstatus status else wtermsig status))
            ∷ lua.of_string (kill_name killed)
            ∷ lua.of_string out
            ∷ lua.of_string err
            ∷ [];
        registry = handler.0;
      }

  -- In the child, where nothing is called without a callback.
  unfoldable pub command_postfork : LuaCommandData → Registry lua → Registry lua × Option V
  unfolding extract_registry_value
  command_postfork lcd r = elim lcd.postfork_callback [
    | none ↦ (r, none)
    | some name ↦ (let f = extract_registry_value lua name r in (f.0, some f.1))
  ]

  -- A value of the stack, counted from 1; a place above its top is none, which is nil for most of the
  -- functions.
  abbrev pub value_at : List V → ℕ → V
  value_at stack zero = lua.nil
  value_at stack (suc i) = or_nil lua (get_elem? stack i)

  -- luaL_checkinteger and luaL_checkstring
  abbrev pub check_integer : V → LuaCall ℤ
  check_integer v = if lua.is_number v then returns (lua.to_integer v) else raises

  abbrev pub text_or_raises : Option Bytes → LuaCall Bytes
  text_or_raises none = raises
  text_or_raises (some s) = returns s

  abbrev pub check_string : V → LuaCall Bytes
  check_string v = if lua.is_string v then text_or_raises (lua.to_text v) else raises

  abbrev pub check_strings : List V → LuaCall (List Bytes)
  check_strings [] = returns []
  check_strings (v ∷ vs) = do s ← check_string v; rest ← check_strings vs; returns (s ∷ rest)

  -- What is handed to `run_util_a` or `run_command_a`.
  pub record RunRequest : Type 0 where
    pub utils : Bool
    pub data_ : LuaCommandData
    pub input : Option Bytes
    pub term_timeout : ℤ
    pub kill_timeout : ℤ
    pub cmd : Bytes
    pub args : List Bytes
    pub registry : Registry lua

  abbrev guard : Bool → LuaCall (Unit {0})
  guard true = returns tt
  guard false = raises

  -- The parameters, each of which is checked before anything is registered.
  pub record Checked : Type 0 where
    pub term_timeout : ℤ
    pub kill_timeout : ℤ
    pub cmd : Bytes
    pub args : List Bytes

  unfoldable pub checked_params : List V → LuaCall Checked
  checked_params stack = do
    _ ← guard (lua.is_function (value_at stack 1))
    _ ← guard (if lua.is_nil (value_at stack 2) then true else lua.is_function (value_at stack 2))
    _ ← guard (if lua.is_nil (value_at stack 3) then true else lua.is_string (value_at stack 3))
    term_timeout ← check_integer (value_at stack 4)
    kill_timeout ← check_integer (value_at stack 5)
    cmd ← check_string (value_at stack 6)
    args ← check_strings (drop 6 stack)
    returns (record {
      term_timeout = term_timeout;
      kill_timeout = kill_timeout;
      cmd = cmd;
      args = args;
    })

  -- The request with the callbacks registered; the flag is whether the second argument is nil.
  unfoldable pub made_request : Bool → Bool → List V → Registry lua → Checked → RunRequest
  unfolding register_value
  made_request true utils stack r c =
      let terminated = register_value lua (value_at stack 1) r in
      record {
        utils = utils;
        data_ = record { terminated_callback = terminated.1; postfork_callback = none };
        input = if lua.is_string (value_at stack 3) then lua.to_text (value_at stack 3) else none;
        term_timeout = c.term_timeout;
        kill_timeout = c.kill_timeout;
        cmd = c.cmd;
        args = c.args;
        registry = terminated.0;
      }
  made_request false utils stack r c =
      let terminated = register_value lua (value_at stack 1) r in
      let postfork = register_value lua (value_at stack 2) terminated.0 in
      record {
        utils = utils;
        data_ = record { terminated_callback = terminated.1; postfork_callback = some postfork.1 };
        input = if lua.is_string (value_at stack 3) then lua.to_text (value_at stack 3) else none;
        term_timeout = c.term_timeout;
        kill_timeout = c.kill_timeout;
        cmd = c.cmd;
        args = c.args;
        registry = postfork.0;
      }

  unfoldable pub lua_run_generic : Bool → List V → Registry lua → LuaCall RunRequest
  unfolding checked_params made_request
  lua_run_generic utils stack r = do
    c ← checked_params stack
    returns (made_request (lua.is_nil (value_at stack 2)) utils stack r c)

-- struct mv_result_data
pub record MvResultData : Type 0 where
  pub err : Option Bytes
  pub status : ℕ

unfoldable pub mv_result : ℕ → Bytes → MvResultData → MvResultData
mv_result status err d = record {
  err = if status == 0 then d.err else some err;
  status = wtermsig status;
}

-- The error for Lua, with the two paths, the message and the number.
pub data Moved : Type 0 where
  moved : Moved
  failed_to_move : Bytes → Bytes → Option Bytes → ℕ → Moved

-- `status` and `err` are what `mv -f old new` ends with; the wait for it returns after `mv_result`.
unfoldable pub lua_move : Bytes → Bytes → ℕ → Bytes → Moved
unfolding mv_result
lua_move old new status err =
    let d = mv_result status err (record { err = none; status = 0 }) in
    if d.status == 0 then moved else failed_to_move old new d.err d.status

-- The same with `cp -f old new`.
unfoldable pub lua_copy : Bytes → Bytes → ℕ → Bytes → Moved
unfolding mv_result
lua_copy old new status err =
    let d = mv_result status err (record { err = none; status = 0 }) in
    if d.status == 0 then moved else failed_to_move old new d.err d.status
