-- ===== src/Interpreter/Lua.antt =====
-- What src/lib/interpreter.c uses of Lua: tests and conversions of values, and fields.
use turris_updater.Base.{◌≡◌, Bool, true, Option, Bytes}
use turris_updater.Base.Int.{ℤ}

-- `V` is Lua's values and `N` the numbers of C's double. `to_integer` is lua_tointeger as an int, and
-- `field` is lua_getfield, which fails on a value that cannot be indexed.
pub record LuaApi (V N : Type 0) : Type 0 where
  pub nil : V
  pub of_boolean : Bool → V
  pub of_integer : ℤ → V
  pub of_string : Bytes → V
  pub of_number : N → V
  pub is_nil : V → Bool
  pub is_string : V → Bool
  pub is_number : V → Bool
  pub is_function : V → Bool
  pub is_table : V → Bool
  pub to_boolean : V → Bool
  pub to_integer : V → ℤ
  pub to_number : V → N
  pub to_text : V → Option Bytes
  pub field : V → Bytes → Option V
  pub nil_only : (v : V) → is_nil v ≡ true → v ≡ nil
