-- ===== src/Opmode/Modes.antt =====
-- src/lib/opmode.c and opmode.h: the array of modes and the three functions that Lua calls.
use turris_updater.Base.{
  ℕ, Bool, true, false, List, ◌++◌, Option, none, some, Bytes, bytes_eq, codes, get_elem?, set, ltb,
  if◌then◌else◌,
}

-- enum OPMODE, whose last value is the number of modes.
abbrev pub opmode_reinstall_all : ℕ
opmode_reinstall_all = 0

abbrev pub opmode_no_removal : ℕ
opmode_no_removal = 1

abbrev pub opmode_optional_installs : ℕ
opmode_optional_installs = 2

abbrev pub opmode_last : ℕ
opmode_last = 3

abbrev pub Modes : Type 0
Modes = List Bool

-- `none` is a failed assertion, or a read past the array.
unfoldable pub opmode : ℕ → Modes → Option Bool
opmode mode modes = if ltb mode opmode_last then get_elem? modes mode else none

unfoldable pub opmode_set : ℕ → Modes → Option Modes
opmode_set mode modes = if ltb mode opmode_last then some (set modes mode true) else none

unfoldable pub opmode_unset : ℕ → Modes → Option Modes
opmode_unset mode modes = if ltb mode opmode_last then some (set modes mode false) else none

unfoldable pub lua_str2opmode : Bytes → ℕ
unfolding bytes_eq
lua_str2opmode str_mode =
    if bytes_eq (codes "reinstall_all") str_mode
    then opmode_reinstall_all
    else if bytes_eq (codes "no_removal") str_mode
    then opmode_no_removal
    else if bytes_eq (codes "optional_installs") str_mode
    then opmode_optional_installs
    else opmode_last

-- What a call from Lua gives: a value, an error that names the mode, or a failed assertion.
pub data LuaCall {ℓ} (A : Type ℓ) : Type ℓ where
  returns : A → LuaCall A
  raises : Bytes → LuaCall A
  dies : LuaCall A

abbrev pub or_dies {ℓ} : {A : Type ℓ} → Option A → LuaCall A
or_dies none = dies
or_dies (some x) = returns x

unfoldable pub lua_opmode_set : Bytes → Modes → LuaCall Modes
unfolding lua_str2opmode opmode_set
lua_opmode_set str_mode modes =
    let mode = lua_str2opmode str_mode in
    if ltb mode opmode_last
    then or_dies (opmode_set mode modes)
    else raises (codes "Setting unknown mode: " ++ str_mode)

unfoldable pub lua_opmode_unset : Bytes → Modes → LuaCall Modes
unfolding lua_str2opmode opmode_unset
lua_opmode_unset str_mode modes =
    let mode = lua_str2opmode str_mode in
    if ltb mode opmode_last
    then or_dies (opmode_unset mode modes)
    else raises (codes "Unsetting unknown mode: " ++ str_mode)

-- What `opmode[idx]` is in Lua: a switch, a field of the metatable, or nil.
pub data Indexed : Type 0 where
  boolean : Bool → Indexed
  field : Bytes → Indexed
  nil : Indexed

-- `has_field` says which fields the metatable has.
unfoldable pub lua_opmode_index : (Bytes → Bool) → Bytes → Modes → LuaCall Indexed
unfolding lua_str2opmode opmode
lua_opmode_index has_field idx modes =
    let mode = lua_str2opmode idx in
    if ltb mode opmode_last
    then (elim (opmode mode modes) [ none ↦ dies | some b ↦ returns (boolean b) ])
    else returns (if has_field idx then field idx else nil)
