-- ===== src/Interpreter/Results.antt =====
-- src/lib/interpreter.c: `interpreter_collect_results`, which takes the results of a call by a list of
-- letters for their types.
use turris_updater.Base.{ℕ, suc, Bool, List, [], ◌∷◌, Option, none, Bytes, ◌==◌, if◌then◌else◌}
use turris_updater.Base.Int.{ℤ}
use turris_updater.Interpreter.Lua.{LuaApi}
use turris_updater.Interpreter.Registry.{Registry, register_value}

-- What is written through a pointer.
pub data Stored (N : Type 0) : Type 0 where
  as_bool : Bool → Stored N
  as_int : ℤ → Stored N
  as_string : Option Bytes → Stored N
  as_bytes : Option Bytes → Stored N
  as_double : N → Stored N
  as_name : Bytes → Stored N

-- The result: -1, or the position of the first value that is missing or of another type; or the end
-- of the program at a letter that is not known.
pub data Collection : Type 0 where
  all_collected : Collection
  stopped_at : ℕ → Collection
  dies : Collection

module _ {V N : Type 0} (lua : LuaApi V N) where
  -- What a letter makes of a value: it does not fit, it is skipped, it is stored, or it is kept in the
  -- registry; or the letter is not known.
  pub data Reading : Type 0 where
    misfit : Reading
    skip : Reading
    store : Stored N → Reading
    keep : Reading
    no_letter : Reading

  unfoldable pub read_value : ℕ → V → Reading
  read_value letter v =
      if letter == b'b'
      then store (as_bool (lua.to_boolean v))
      else if letter == b'i'
      then (if lua.is_number v then store (as_int (lua.to_integer v)) else misfit)
      else if letter == b'n'
      then (if lua.is_nil v then skip else misfit)
      else if letter == b'-'
      then skip
      else if letter == b's'
      then (if lua.is_string v
          then store (as_string (lua.to_text v))
          else if lua.is_nil v
          then store (as_string none)
          else misfit)
      else if letter == b'S'
      then (if lua.is_string v then store (as_bytes (lua.to_text v)) else misfit)
      else if letter == b'f'
      then (if lua.is_number v then store (as_double (lua.to_number v)) else misfit)
      else if letter == b'r'
      then keep
      else no_letter

  -- What is stored, the registry, and the result.
  pub record Results : Type 0 where
    pub stored : List (Stored N)
    pub registry : Registry lua
    pub ended : Collection

  abbrev pub stop : Registry lua → Collection → Results
  stop r e = record { stored = []; registry = r; ended = e }

  abbrev pub also_stored : Stored N → Results → Results
  also_stored s rest = record rest { stored = s ∷ rest.stored }

  -- A round of the loop: `next` is the rest of the loop.
  unfoldable pub take_reading : V → ℕ → Registry lua → (Registry lua → Results) → Reading → Results
  unfolding register_value
  take_reading v pos r next misfit = stop r (stopped_at pos)
  take_reading v pos r next skip = next r
  take_reading v pos r next (store s) = also_stored s (next r)
  take_reading v pos r next keep =
      let kept = register_value lua v r in also_stored (as_name kept.1) (next kept.0)
  take_reading v pos r next no_letter = stop r dies

  unfoldable pub collect_from : Bytes → List V → ℕ → Registry lua → Results
  unfolding read_value take_reading
  collect_from [] vs pos r = stop r all_collected
  collect_from (letter ∷ spec) [] pos r = stop r (stopped_at pos)
  collect_from (letter ∷ spec) (v ∷ vs) pos r =
      take_reading v pos r (collect_from spec vs (suc pos)) (read_value letter v)

  unfoldable pub interpreter_collect_results : Bytes → List V → Registry lua → Results
  unfolding collect_from
  interpreter_collect_results spec stack r = collect_from spec stack 0 r
