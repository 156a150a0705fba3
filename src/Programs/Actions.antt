-- ===== src/Programs/Actions.antt =====
-- What the programs of src/pkgupdate/main.c and src/pkgtransaction/main.c do to the outside, and their
-- calls of Lua functions.
use turris_updater.Base.{ℕ, Bool, true, false, List, [], ◌∷◌, ◌++◌, Option, none, Bytes, codes}
use turris_updater.Util.Hooks.{Dirent, HookRun}
use turris_updater.Util.Reboot.{Rebooted}
use turris_updater.Interpreter.Lua.{LuaApi}
use turris_updater.Interpreter.Registry.{Registry}
use turris_updater.Interpreter.Results.{
  Stored, as_bool, as_string, Collection, all_collected, stopped_at, dies,
  interpreter_collect_results,
}
use turris_updater.Interpreter.Include.{interpreter_error_result}
use turris_updater.Interpreter.Call.{CArg, c_string, Called, returned, failed, aborted, wild}

-- The Lua functions that the programs call.
pub data LuaFunction : Type 0 where
  disable_replan recover_pretty prepare no_tasks approval_hash task_report tasks_to_transaction
        perform_queue pre_cleanup cleanup queue_install queue_remove :
      LuaFunction

pub data Action : Type 0 where
  -- A Lua function with its first parameter, if that is a string.
  calls : LuaFunction → Option Bytes → Action
  reports_error : Option Bytes → Action
  sets_env : Bytes → Bytes → Action
  runs_hook : HookRun → Action
  unlinks : Bytes → Action
  writes_file : Bytes → Bytes → Action
  asks_user : Action
  reboots : Rebooted → Action
  -- free, interpreter_destroy, events_destroy and arg_backup_clear
  cleans_up : Action

-- A part of a program goes on with a value or aborts, after the actions.
pub data Part {ℓ} (A : Type ℓ) : Type ℓ where
  goes : List Action → A → Part A
  aborts : List Action → Part A

abbrev pub after {ℓ} : {A : Type ℓ} → List Action → Part A → Part A
after done (goes more x) = goes (done ++ more) x
after done (aborts more) = aborts (done ++ more)

infixl 20 ◌>>=◌
abbrev pub ◌>>=◌ {ℓ κ} : {A : Type ℓ} {B : Type κ} → Part A → (A → Part B) → Part B
goes done x >>= f = after done (f x)
aborts done >>= f = aborts done

infixr 20 ◌>>◌
abbrev pub ◌>>◌ {ℓ κ} : {A : Type ℓ} {B : Type κ} → Part A → Part B → Part B
goes done x >> m = after done m
aborts done >> m = aborts done

abbrev pub actions {ℓ} : {A : Type ℓ} → Part A → List Action
actions (goes done x) = done
actions (aborts done) = done

abbrev pub act : Action → Part (Unit {0})
act a = goes (a ∷ []) tt

-- Lua and the system. `answer` is what `interpreter_call` gives for a function with parameters; each is
-- called at most once with the same ones. `stray` is what is read for an argument that is not passed.
pub record Outside (V N : Type 0) : Type 0 where
  pub lua : LuaApi V N
  pub registry : Registry lua
  pub answer : LuaFunction → List (CArg N) → Called V
  pub autoloads : Bool
  pub journal : Bool
  pub input : Option ℕ
  pub report_opens : Bool
  pub listing : Bytes → Option (List Dirent)
  pub executable : Bytes → Bool
  pub reboot_found : Bool
  pub stray : Bool

module _ {V N : Type 0} (o : Outside V N) where
  -- The results, or the text of the error.
  pub data Tried : Type 0 where
    worked : List V → Tried
    error_text : Option Bytes → Tried

  abbrev pub answered : LuaFunction → Option Bytes → Called V → Part Tried
  answered f arg (returned vs) = goes (calls f arg ∷ []) (worked vs)
  answered f arg (failed e) =
      goes (calls f arg ∷ []) (error_text (interpreter_error_result o.lua true e (λ path. none)).1)
  answered f arg aborted = aborts (calls f arg ∷ [])
  answered f arg wild = aborts (calls f arg ∷ [])

  abbrev pub string_arg : List (CArg N) → Option Bytes
  string_arg (c_string s ∷ args) = s
  string_arg _ = none

  unfoldable pub try_call : LuaFunction → List (CArg N) → Part Tried
  unfolding interpreter_error_result
  try_call f args = answered f (string_arg args) (o.answer f args)

  abbrev pub or_aborts : Tried → Part (List V)
  or_aborts (worked vs) = goes [] vs
  or_aborts (error_text e) = aborts []

  -- With ASSERT_MSG(!err, ...) behind it.
  unfoldable pub call : LuaFunction → List (CArg N) → Part (List V)
  unfolding try_call
  call f args = try_call f args >>= or_aborts

  abbrev pub if_collected : List (Stored N) → Collection → Part (List (Stored N))
  if_collected stored all_collected = goes [] stored
  if_collected stored (stopped_at n) = aborts []
  if_collected stored dies = aborts []

  -- ASSERT(interpreter_collect_results(...) == -1)
  unfoldable pub collect : Bytes → List V → Part (List (Stored N))
  unfolding interpreter_collect_results
  collect spec vs =
      let r = interpreter_collect_results o.lua spec vs o.registry in if_collected r.stored r.ended

  abbrev pub one_bool : List (Stored N) → Bool
  one_bool (as_bool b ∷ stored) = b
  one_bool _ = false

  abbrev pub second_bool : List (Stored N) → Bool
  second_bool (s ∷ stored) = one_bool stored
  second_bool [] = false

  abbrev pub one_string : List (Stored N) → Option Bytes
  one_string (as_string s ∷ stored) = s
  one_string _ = none

  abbrev pub collected_bool : List (Stored N) → Part Bool
  collected_bool stored = goes [] (one_bool stored)

  -- The message of a second result.
  abbrev pub report_message : List V → List (Stored N) → Part Bool
  report_message vs msg =
      act (reports_error (one_string msg)) >> (collect (codes "b") vs >>= collected_bool)

  -- `results_interpret`, by the number of results: a second one is a message.
  unfoldable pub results_interpret : List V → Part Bool
  unfolding collect
  results_interpret [] = goes [] true
  results_interpret (v ∷ []) = collect (codes "b") (v ∷ []) >>= collected_bool
  results_interpret (v ∷ w ∷ vs) = collect (codes "-s") (v ∷ w ∷ vs) >>= report_message (v ∷ w ∷ vs)

  -- ASSERT_MSG(result_count == 1, ...)
  abbrev pub exactly_one : List V → Part (Unit {0})
  exactly_one (v ∷ []) = goes [] tt
  exactly_one _ = aborts []
