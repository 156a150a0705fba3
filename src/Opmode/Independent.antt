-- ===== src/Opmode/Independent.antt =====
-- src/lib/opmode.c: a switch that Lua sets is read back, and the others stay.
use turris_updater.Base.{
  ℕ, zero, suc, ◌<◌, ◌≡◌, Bool, true, false, List, [], ◌∷◌, some, Bytes, length, get_elem?, set,
  ltb, ◌==◌, if◌then◌else◌, arith,
}
use turris_updater.Opmode.Modes.{
  Modes, LuaCall, returns, raises, dies, Indexed, boolean, opmode, opmode_set, opmode_unset,
  opmode_last, lua_str2opmode, lua_opmode_set, lua_opmode_unset, lua_opmode_index,
}

-- A write, read at any place.
get_elem?-set :
    {A : Type 0} (i j : ℕ) (xs : List A) (v : A)
    → i < length xs
    → get_elem? (set xs i v) j ≡ (if i == j then some v else get_elem? xs j)
get_elem?-set i j [] v h = elim h [ ]
get_elem?-set zero zero (x ∷ xs) v h = ground arith
get_elem?-set zero (suc j) (x ∷ xs) v h = ground arith
get_elem?-set (suc i) zero (x ∷ xs) v h = ground arith
get_elem?-set (suc i) (suc j) (x ∷ xs) v h = ground (arith, get_elem?-set i j xs v)

-- What Lua reads after it has called something that gives new modes.
abbrev pub then_index : (Bytes → Bool) → Bytes → LuaCall Modes → LuaCall Indexed
then_index has_field idx (returns modes) = lua_opmode_index has_field idx modes
then_index has_field idx (raises e) = raises e
then_index has_field idx dies = dies

-- Whether a string is the name of a mode.
abbrev pub is_mode : Bytes → Bool
is_mode s = ltb (lua_str2opmode s) opmode_last

set_then_index :
    (has_field : Bytes → Bool) (m : ℕ) (v : Bool) (t : Bytes) (modes : Modes)
    → length modes ≡ opmode_last
    → ltb m opmode_last ≡ true
    → lua_opmode_index has_field t (set modes m v)
      ≡ (if m == lua_str2opmode t then returns (boolean v) else lua_opmode_index has_field t modes)
unfolding lua_opmode_index opmode
set_then_index has_field m v t modes w k =
    ground (arith, get_elem?-set m (lua_str2opmode t) modes v)

-- For the three modes and the name of one of them: after setting it the name reads as true, after
-- unsetting it as false, and every other name reads as before.
pub lua_opmode_set-index :
    (has_field : Bytes → Bool) (s t : Bytes) (modes : Modes)
    → length modes ≡ opmode_last
    → is_mode s ≡ true
    → (then_index has_field t (lua_opmode_set s modes) ≡ (
        if lua_str2opmode s == lua_str2opmode t
        then returns (boolean true)
        else lua_opmode_index has_field t modes))
      × (then_index has_field t (lua_opmode_unset s modes) ≡ (
          if lua_str2opmode s == lua_str2opmode t
          then returns (boolean false)
          else lua_opmode_index has_field t modes))
unfolding lua_opmode_set lua_opmode_unset opmode_set opmode_unset
lua_opmode_set-index has_field s t modes w k = (
  rw (k, set_then_index has_field (lua_str2opmode s) true t modes w k),
  rw (k, set_then_index has_field (lua_str2opmode s) false t modes w k),
)
