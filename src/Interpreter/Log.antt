-- ===== src/Interpreter/Log.antt =====
-- src/lib/interpreter.c: `lua_log`, which puts its arguments together in a buffer.
use turris_updater.Base.{
  ℕ, ◌+◌, List, [], ◌∷◌, ◌++◌, map, Option, none, some, Bytes, codes, length, take, drop, ltb,
  if◌then◌else◌,
}
use turris_updater.Interpreter.Lua.{LuaApi}

-- A value as text.
abbrev pub text_of : {V N : Type 0} → LuaApi V N → V → Bytes
text_of lua v =
    if lua.is_nil v
    then codes "<nil>"
    else elim (lua.to_text v) [ none ↦ codes "<complex-type>" | some s ↦ s ]

-- The size of the buffer, which has room for the zero at the end.
unfoldable pub message_size : List Bytes → ℕ
message_size [] = 1
message_size (s ∷ strs) = length s + message_size strs

-- memcpy(message + pos, bytes, length); `none` when it goes past the buffer.
unfoldable pub copy_at : Bytes → ℕ → Bytes → Option Bytes
copy_at buffer pos bytes =
    if ltb (length buffer) (pos + length bytes)
    then none
    else some (take pos buffer ++ (bytes ++ drop (pos + length bytes) buffer))

abbrev pub with_buffer : {A : Type 0} → Option Bytes → (Bytes → Option A) → Option A
with_buffer none f = none
with_buffer (some b) f = f b

-- The loop, with the buffer and the position after it.
unfoldable pub copy_all : List Bytes → Bytes → ℕ → Option (Bytes × ℕ)
unfolding copy_at
copy_all [] buffer pos = some (buffer, pos)
copy_all (s ∷ strs) buffer pos =
    with_buffer (copy_at buffer pos s) (λ b. copy_all strs b (pos + length s))

-- `message[pos] = '\0'`, and the string that the buffer then is.
abbrev pub string_at : Option (Bytes × ℕ) → Option Bytes
string_at none = none
string_at (some (buffer, pos)) = if ltb pos (length buffer) then some (take pos buffer) else none

-- The message of the values; `memory` is what alloca gives.
unfoldable pub log_message : {V N : Type 0} → LuaApi V N → List V → Bytes → Option Bytes
unfolding message_size copy_all
log_message lua vs memory =
    let strs = map (text_of lua) vs in string_at (copy_all strs (take (message_size strs) memory) 0)
