-- ===== src/Interpreter/Examples.antt =====
-- Runs of src/lib/interpreter.c, with a small Lua.
use turris_updater.Base.{
  ℕ, ◌≡◌, ◌≢◌, refl, true, false, not, List, [], ◌∷◌, ◌++◌, append_assoc, append-nil, map, none,
  some, Bytes, codes, length, inl, inr, arith,
}
use turris_updater.Base.Int.{pos}
use turris_updater.Cleanup.Array.{Cleanup}
use turris_updater.Cleanup.Stack.{stack}
use turris_updater.Cleanup.Refines.{IsWellFormed}
use turris_updater.Events.State.{ck_terminated}
use turris_updater.Interpreter.Lua.{LuaApi}
use turris_updater.Interpreter.Registry.{Registry, register_value, extract_registry_value}
use turris_updater.Interpreter.Registered.{IsFresh, register_value-extract}
use turris_updater.Interpreter.Call.{with_table, with_function, lookup_function}
use turris_updater.Interpreter.Lookup.{walk, lookup_function-walk}
use turris_updater.Interpreter.Stat.{Directory, is_dots, listed, lua_ls, perm2str}
use turris_updater.Interpreter.Listing.{filter, by_lstat, lua_ls-by_lstat}
use turris_updater.Interpreter.Permissions.{permissions, perm2str-permissions}
use turris_updater.Interpreter.Hashes.{Hash, lua_hash, lua_hash_file}
use turris_updater.Interpreter.Printed.{concat, unhex, lua_hash_file-lua_hash}
use turris_updater.Interpreter.Log.{message_size, log_message}
use turris_updater.Interpreter.Messages.{log_message-concat}
use turris_updater.Interpreter.Commands.{
  RunRequest, lua_run_generic, checked_params, made_request, command_terminated,
}
use turris_updater.Interpreter.Callbacks.{IsReleased, command_terminated-IsReleased}
use turris_updater.Interpreter.Handles.{lua_cleanup_register_handle, lua_cleanup_unregister_handle}
use turris_updater.Interpreter.Process.{lua_getcwd}
use turris_updater.Interpreter.Released.{
  LeavesStack, lua_cleanup_unregister_handle-stack, lua_getcwd-cwd,
}

-- Values: nil, numbers, strings and functions.
data Value : Type 0 where
  v_nil : Value
  v_number : ℕ → Value
  v_string : Bytes → Value
  v_function : ℕ → Value

only_nil : (v : Value) → (elim v [ v_nil ↦ true | _ ↦ false ]) ≡ true → v ≡ v_nil
only_nil v_nil h = refl
only_nil (v_number n) h = absurd (ground arith)
only_nil (v_string s) h = absurd (ground arith)
only_nil (v_function n) h = absurd (ground arith)

abbrev small : LuaApi Value ℕ
small = record {
  nil = v_nil;
  of_boolean = λ b. v_nil;
  of_integer = λ i. v_number 0;
  of_string = v_string;
  of_number = v_number;
  is_nil = λ v. elim v [ v_nil ↦ true | _ ↦ false ];
  is_string = λ v. elim v [ v_string s ↦ true | _ ↦ false ];
  is_number = λ v. elim v [ v_number n ↦ true | _ ↦ false ];
  is_function = λ v. elim v [ v_function n ↦ true | _ ↦ false ];
  is_table = λ v. false;
  to_boolean = λ v. true;
  to_integer = λ v. pos 0;
  to_number = λ v. 0;
  to_text = λ v. elim v [ v_string s ↦ some s | _ ↦ none ];
  field = λ v name. some (v_string name);
  nil_only = only_nil;
}

abbrev empty : Registry small
empty = record { id = 0; values = λ name. none }

empty-IsFresh : IsFresh small empty
empty-IsFresh = (omega arith, (λ k l u. refl))

register_value-extract_run :
    let kept = register_value small (v_number 3) empty in
    let back = extract_registry_value small kept.1 kept.0 in
    (empty.values kept.1 ≡ none)
    × ((n : Bytes) → kept.1 ≢ n → kept.0.values n ≡ empty.values n)
    × IsFresh small kept.0
    × (back.1 ≡ v_number 3)
    × ((n : Bytes) → back.0.values n ≡ empty.values n)
register_value-extract_run =
    register_value-extract small (v_number 3) empty empty-IsFresh (omega arith)

lookup_function-walk_run :
    (lookup_function small (length (codes "a.b")) v_nil (codes "a.b")
      ≡ walk small (codes "a" ∷ []) v_nil (λ t. with_function [] (small.field t (codes "b"))))
    × (lookup_function small (length (codes "a.b:c")) v_nil (codes "a.b:c")
        ≡ walk small (codes "a" ∷ []) v_nil (λ t.
          with_table
            (small.field t (codes "b"))
            (λ self. with_function (self ∷ []) (small.field self (codes "c")))))
lookup_function-walk_run =
    lookup_function-walk small (codes "a" ∷ []) (codes "b") (codes "c") v_nil ((refl, tt), tt)
      (refl, tt) (refl, tt) (refl, tt)

abbrev directory : Directory
directory = record {
  entries =
      record { d_name = codes "."; d_type = 4; stat_mode = some 16877 }
      ∷ record { d_name = codes "f"; d_type = 0; stat_mode = some 33188 }
      ∷ [];
  read_error = false;
  closes = true;
}

lua_ls-by_lstat_run :
    lua_ls (some directory)
    ≡ listed (map by_lstat (filter (λ ent. not (is_dots ent.d_name)) directory.entries))
lua_ls-by_lstat_run =
    lua_ls-by_lstat directory refl refl ((16877, refl, inr refl), ((33188, refl, inl refl), tt))

perm2str-permissions_example : perm2str 1023 ≡ permissions b'T' b't' 1023
perm2str-permissions_example = perm2str-permissions 1023

-- A sticky directory that everyone can use.
sticky_is_exchanged : perm2str 1023 ≡ codes "rwxrwxrwT"
sticky_is_exchanged = perm2str-permissions 1023

-- A hash that is its data.
abbrev identity : Hash Bytes
identity = record {
  init = [];
  update = λ c a. c ++ a;
  final = λ c. c;
  update_append = λ c a b. append_assoc c a b;
  update_nothing = λ c. append-nil c;
}

one_more : (x : ℕ) (xs : Bytes) → (x ∷ xs) ≢ []
one_more x xs h = ground arith

lua_hash_file-lua_hash_example :
    (lua_hash_file identity (some (codes "ab" ∷ codes "c" ∷ []))
      ≡ some (lua_hash identity (codes "abc")))
    × (unhex (lua_hash identity (codes "abc")) ≡ codes "abc")
lua_hash_file-lua_hash_example =
    lua_hash_file-lua_hash identity (codes "ab" ∷ codes "c" ∷ [])
      (one_more 97 (98 ∷ []), (one_more 99 [], tt)) (omega arith, (omega arith, (omega arith, tt)))

log_message-concat_example :
    log_message small (v_string (codes "n") ∷ v_nil ∷ []) (codes "0123456")
    ≡ some (concat (codes "n" ∷ codes "<nil>" ∷ []))
unfolding message_size
log_message-concat_example =
    log_message-concat small (v_string (codes "n") ∷ v_nil ∷ []) (codes "0123456") (omega arith)

lua_getcwd-cwd_run : lua_getcwd (codes "/root") ≡ some (codes "/root")
lua_getcwd-cwd_run = lua_getcwd-cwd (codes "/root")

abbrev call_stack : List Value
call_stack =
    v_function 1 ∷ v_function 2 ∷ v_nil ∷ v_number 5 ∷ v_number 9 ∷ v_string (codes "true") ∷ []

-- The request of the call.
abbrev request : RunRequest small
request =
    made_request small false false call_stack empty
      (record { term_timeout = pos 0; kill_timeout = pos 0; cmd = codes "true"; args = [] })

command_terminated-IsReleased_example :
    IsReleased small
      (v_function 1)
      empty
      (command_terminated small request.data_ 0 ck_terminated [] [] request.registry)
unfolding lua_run_generic checked_params
command_terminated-IsReleased_example =
    command_terminated-IsReleased small false call_stack empty request 0 ck_terminated [] []
      empty-IsFresh (omega arith) refl

abbrev handlers : Cleanup
handlers = record { registered = true; size = 0; funcs = record { func = 0; arg = 0 } ∷ [] }

handlers-IsWellFormed : IsWellFormed handlers
handlers-IsWellFormed h = omega arith

lua_cleanup_unregister_handle-stack_run :
    LeavesStack
      (stack handlers)
      (lua_cleanup_unregister_handle 7 (lua_cleanup_register_handle 7 handlers))
lua_cleanup_unregister_handle-stack_run =
    lua_cleanup_unregister_handle-stack 7 handlers handlers-IsWellFormed
