-- ===== src/Interpreter/Call.antt =====
-- src/lib/interpreter.c: `interpreter_call`, which finds a function by a path of names and gives it
-- parameters by a list of letters.
use turris_updater.Base.{
  ℕ, zero, suc, Bool, true, List, [], ◌∷◌, ◌++◌, Option, none, some, Bytes, length, ◌==◌,
  if◌then◌else◌,
}
use turris_updater.Base.Int.{ℤ}
use turris_updater.Interpreter.Lua.{LuaApi}
use turris_updater.Interpreter.Registry.{Registry, or_nil}

-- strchr: what stands before the first such byte and after it.
abbrev pub cons_before : ℕ → Option (Bytes × Bytes) → Option (Bytes × Bytes)
cons_before c none = none
cons_before c (some (before, after)) = some (c ∷ before, after)

unfoldable pub split_at : ℕ → Bytes → Option (Bytes × Bytes)
split_at sep [] = none
split_at sep (c ∷ cs) =
    let rest = split_at sep cs in if c == sep then some ([], cs) else cons_before c rest

-- An argument behind the list of letters.
pub data CArg (N : Type 0) : Type 0 where
  c_int : ℤ → CArg N
  c_bool : Bool → CArg N
  c_string : Option Bytes → CArg N
  c_bytes : Bytes → CArg N
  c_double : N → CArg N

-- The function, and what is passed before the other parameters; or an error outside of a protected
-- call, which ends the program.
pub data Found (V : Type 0) : Type 0 where
  found : V → List V → Found V
  panics : Found V

-- The parameters; or an argument is read that was not passed, or passed with another type; or a letter
-- is not known.
pub data Pushed (V : Type 0) : Type 0 where
  pushed : List V → Pushed V
  undefined : Pushed V
  dies : Pushed V

-- How a call ends.
pub data Called (V : Type 0) : Type 0 where
  returned : List V → Called V
  failed : V → Called V
  aborted : Called V
  wild : Called V

-- With a table that was looked up, or none.
abbrev pub with_table : {V : Type 0} → Option V → (V → Found V) → Found V
with_table none f = panics
with_table (some v) f = f v

abbrev pub with_function : {V : Type 0} → List V → Option V → Found V
with_function self none = panics
with_function self (some f) = found f self

abbrev pub cons_pushed : {V : Type 0} → V → Pushed V → Pushed V
cons_pushed v (pushed vs) = pushed (v ∷ vs)
cons_pushed v undefined = undefined
cons_pushed v dies = dies

abbrev pub is_letter : ℕ → Bool
is_letter letter =
    if letter == b'b'
    then true
    else if letter == b'i'
    then true
    else if letter == b's'
    then true
    else if letter == b'S'
    then true
    else if letter == b'f'
    then true
    else letter == b'r'

abbrev pub cons_one : {V : Type 0} → Option V → Pushed V → Pushed V
cons_one none rest = undefined
cons_one (some v) rest = cons_pushed v rest

-- `pcall` is lua_pcall, which gives the results or an error value.
abbrev pub run_pushed : {V : Type 0} → (V → List V → Called V) → V → List V → Pushed V → Called V
run_pushed pcall f self (pushed vs) = pcall f (self ++ vs)
run_pushed pcall f self undefined = wild
run_pushed pcall f self dies = aborted

abbrev pub run_found : {V : Type 0} → (V → List V → Called V) → Pushed V → Found V → Called V
run_found pcall params (found f self) = run_pushed pcall f self params
run_found pcall params panics = aborted

module _ {V N : Type 0} (lua : LuaApi V N) where
  -- The last part: a method gets its table as a parameter.
  unfoldable pub lookup_method : V → Bytes → Option (Bytes × Bytes) → Found V
  lookup_method table f none = with_function [] (lua.field table f)
  lookup_method table f (some (before, after)) =
      with_table (lua.field table before) (λ self. with_function (self ∷ []) (lua.field self after))

  -- `while ((pos = strchr(f, '.'))) lookup(L, &f, &pos);` with the length of `f` as fuel.
  unfoldable pub lookup_function : ℕ → V → Bytes → Found V
  unfolding split_at lookup_method
  lookup_function zero table f = lookup_method table f (split_at b':' f)
  lookup_function (suc fuel) table f = elim (split_at b'.' f) [
    | none ↦ lookup_method table f (split_at b':' f)
    | some (before, after) ↦ with_table (lua.field table before) (λ t. lookup_function fuel t after)
  ]

  abbrev pub text_or_nil : Option Bytes → V
  text_or_nil none = lua.nil
  text_or_nil (some s) = lua.of_string s

  -- One letter that has an argument.
  unfoldable pub push_one : ℕ → Registry lua → CArg N → Option V
  push_one letter r (c_bool b) = if letter == b'b' then some (lua.of_boolean b) else none
  push_one letter r (c_int i) = if letter == b'i' then some (lua.of_integer i) else none
  push_one letter r (c_string s) =
      if letter == b's'
      then some (text_or_nil s)
      else if letter == b'r'
      then elim s [ none ↦ none | some name ↦ some (or_nil lua (r.values name)) ]
      else none
  push_one letter r (c_bytes s) = if letter == b'S' then some (lua.of_string s) else none
  push_one letter r (c_double d) = if letter == b'f' then some (lua.of_number d) else none

  -- The loop over `param_spec`.
  unfoldable pub push_params : Registry lua → Bytes → List (CArg N) → Pushed V
  unfolding push_one
  push_params r [] args = pushed []
  push_params r (letter ∷ spec) [] =
      let rest = push_params r spec [] in
      if letter == b'n'
      then cons_pushed lua.nil rest
      else if is_letter letter
      then undefined
      else dies
  push_params r (letter ∷ spec) (arg ∷ args) =
      let same = push_params r spec (arg ∷ args) in
      let rest = push_params r spec args in
      if letter == b'n'
      then cons_pushed lua.nil same
      else if is_letter letter
      then cons_one (push_one letter r arg) rest
      else dies

  unfoldable pub interpreter_call :
      (V → List V → Called V) → V → Registry lua → Bytes → Bytes → List (CArg N) → Called V
  unfolding lookup_function push_params
  interpreter_call pcall globals r function param_spec args =
      run_found pcall (push_params r param_spec args)
        (lookup_function (length function) globals function)
