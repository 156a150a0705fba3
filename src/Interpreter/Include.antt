-- ===== src/Interpreter/Include.antt =====
-- src/lib/interpreter.c: errors of Lua, and the inclusion of modules.
use turris_updater.Base.{
  ℕ, zero, suc, Bool, true, false, not, List, [], ◌∷◌, ◌++◌, Option, none, some, Bytes, bytes_eq,
  codes, if◌then◌else◌,
}
use turris_updater.Interpreter.Lua.{LuaApi}
use turris_updater.Util.Files.{Files, dump2file}

abbrev pub crash_file : Bytes
crash_file = codes "/tmp/updater_crash.log"

-- struct reader_data
pub record ReaderData : Type 0 where
  pub chunk : Bytes
  pub used : Bool

-- The whole chunk at the first call, and then the end.
unfoldable pub reader : ReaderData → ReaderData × Option Bytes
reader d = if d.used then (d, none) else (record d { used = true }, some d.chunk)

-- What lua_load reads with a reader: until there is nothing, for so many calls.
unfoldable pub read_all : ℕ → ReaderData → Bytes
unfolding reader
read_all zero d = []
read_all (suc calls) d =
    let r = reader d in
    let rest = read_all calls r.0 in elim r.1 [ none ↦ [] | some chunk ↦ chunk ++ rest ]

module _ {V N : Type 0} (lua : LuaApi V N) where
  abbrev pub field_or_nil : V → Bytes → V
  field_or_nil table name = elim (lua.field table name) [ none ↦ lua.nil | some v ↦ v ]

  -- The text for the caller, and the files, where the trace of an error has been written.
  unfoldable pub interpreter_error_result : Bool → V → Files → Files × Option Bytes
  unfolding dump2file
  interpreter_error_result opens e files =
      if lua.is_table e
      then (
        elim (lua.to_text (field_or_nil e (codes "trace"))) [
          | none ↦ files
          | some trace ↦ (dump2file opens crash_file trace files).0
        ],
        lua.to_text (field_or_nil e (codes "msg")),
      )
      else (files, lua.to_text e)

  -- What is on the stack for lua_pcall: the handler of `c_pcall_error_handler` on the message, or the
  -- message. `stack_grows` and `handled` are the answers of lua_checkstack and of the handler.
  unfoldable pub err_handler : Bool → V → Option V → V → V
  err_handler stack_grows handler handled message =
      if stack_grows
      then (if lua.is_function handler
          then (elim handled [ none ↦ message | some v ↦ v ])
          else message)
      else message

  -- package.loaded and the globals.
  pub record Modules : Type 0 where
    pub loaded : Bytes → Option V
    pub globals : Bytes → Option V

  abbrev pub put : Bytes → V → (Bytes → Option V) → Bytes → Option V
  put name v table = λ n. if bytes_eq name n then some v else table n

  abbrev pub is_table_there : Option V → Bool
  is_table_there none = false
  is_table_there (some v) = lua.is_table v

  -- A module that has run, with its result.
  unfoldable pub store_module : Bytes → V → Modules → Modules
  store_module src result m =
      let has_result = not (lua.is_nil result) in
      let kept = (if has_result then result else lua.of_boolean true) in
      record {
        loaded = if is_table_there (m.loaded src) then m.loaded else put src kept m.loaded;
        globals = if has_result then put src kept m.globals else m.globals;
      }

  -- How the code of a module goes: it does not load, it fails, or it gives a result and has changed the
  -- modules itself.
  pub data Ran : Type 0 where
    load_error : V → Ran
    run_error : V → Modules → Ran
    ran : V → Modules → Ran

  -- The modules, and the error if there is one.
  unfoldable pub interpreter_include : Ran → Bytes → Modules → Modules × Option V
  unfolding store_module
  interpreter_include (load_error e) src m = (m, some e)
  interpreter_include (run_error e m') src m = (m', some e)
  interpreter_include (ran result m') src m = (store_module src result m', none)

  -- `LOAD` for each name: the first error ends it.
  unfoldable pub load_all : (Bytes → Modules → Ran) → List Bytes → Modules → Modules × Option V
  unfolding interpreter_include
  load_all run [] m = (m, none)
  load_all run (src ∷ srcs) m =
      let included = interpreter_include (run src m) src m in
      let rest = load_all run srcs included.0 in
      elim included.1 [ none ↦ rest | some e ↦ (included.0, some e) ]

abbrev pub autoloaded : List Bytes
autoloaded =
    codes "stacktraceplus"
    ∷ codes "utils"
    ∷ codes "testing"
    ∷ codes "logging"
    ∷ codes "cleanup"
    ∷ codes "dumper"
    ∷ codes "backend"
    ∷ codes "transaction"
    ∷ codes "requests"
    ∷ codes "sandbox"
    ∷ codes "postprocess"
    ∷ codes "planner"
    ∷ codes "updater"
    ∷ []

unfoldable pub interpreter_autoload :
    {V N : Type 0}
    → (lua : LuaApi V N) → (Bytes → Modules lua → Ran lua)
    → Modules lua
    → Modules lua × Option V
unfolding load_all
interpreter_autoload lua run m = load_all lua run autoloaded m
