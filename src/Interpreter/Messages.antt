-- ===== src/Interpreter/Messages.antt =====
-- src/lib/interpreter.c: the message of `lua_log` fits into its buffer.
use turris_updater.Base.{
  ℕ, ◌+◌, ◌≤◌, ◌<◌, ◌≡◌, sym, ap, ◌∙◌, List, [], ◌∷◌, ◌++◌, map, append-nil, append_assoc, Option,
  none, some, Bytes, length, length-append, take, drop, length-take, length-drop, take-append_self,
  arith,
}
use turris_updater.Interpreter.Lua.{LuaApi}
use turris_updater.Interpreter.Log.{
  text_of, message_size, copy_at, copy_all, string_at, log_message,
}
use turris_updater.Interpreter.Printed.{concat}

abbrev copied : Bytes → ℕ → Bytes → Bytes
copied buffer pos s = take pos buffer ++ (s ++ drop (pos + length s) buffer)

copy_at-fits :
    (buffer s : Bytes) (pos : ℕ)
    → pos + length s ≤ length buffer
    → copy_at buffer pos s ≡ some (copied buffer pos s)
unfolding copy_at
copy_at-fits buffer s pos h = ground arith

length-copied :
    (buffer s : Bytes) (pos : ℕ)
    → pos + length s ≤ length buffer
    → length (copied buffer pos s) ≡ length buffer
length-copied buffer s pos h = omega (
  arith,
  length-append (take pos buffer) (s ++ drop (pos + length s) buffer),
  length-append s (drop (pos + length s) buffer),
  length-take pos buffer,
  length-drop (pos + length s) buffer,
)

take-copied :
    (buffer s : Bytes) (pos : ℕ)
    → pos + length s ≤ length buffer
    → take (pos + length s) (copied buffer pos s) ≡ take pos buffer ++ s
take-copied buffer s pos h =
    let first = take pos buffer ++ s in
    ap (take (pos + length s))
      (sym (append_assoc (take pos buffer) s (drop (pos + length s) buffer)))
    ∙ ap (λ n. take n (first ++ drop (pos + length s) buffer))
        (omega (arith, length-append (take pos buffer) s, length-take pos buffer))
    ∙ take-append_self first (drop (pos + length s) buffer)

-- All of the texts are in the buffer behind what was there, and it has room for one byte more.
abbrev Copied : List Bytes → Bytes → ℕ → Option (Bytes × ℕ) → Type 0
Copied strs buffer pos none = ⊥
Copied strs buffer pos (some (b, p)) = (take p b ≡ take pos buffer ++ concat strs) × (p < length b)

copy_all-Copied :
    (strs : List Bytes) (buffer : Bytes) (pos : ℕ)
    → pos + message_size strs ≤ length buffer
    → Copied strs buffer pos (copy_all strs buffer pos)
unfolding copy_all message_size
copy_all-Copied [] buffer pos h = (sym (append-nil (take pos buffer)), omega arith)
copy_all-Copied (s ∷ strs) buffer pos h = rw (copy_at-fits buffer s pos (omega arith)) (
    further strs s buffer pos (omega arith) (copy_all strs (copied buffer pos s) (pos + length s)) (
      copy_all-Copied strs (copied buffer pos s) (pos + length s)
        (omega (arith, length-copied buffer s pos))))
  where
    further :
        (strs : List Bytes) (s buffer : Bytes) (pos : ℕ)
        → pos + length s ≤ length buffer
        → (o : Option (Bytes × ℕ)) → Copied strs (copied buffer pos s) (pos + length s) o
        → Copied (s ∷ strs) buffer pos o
    further strs s buffer pos f none c = c
    further strs s buffer pos f (some (b, p)) (e, l) = (
      e
          ∙ ap (λ t. t ++ concat strs) (take-copied buffer s pos f)
          ∙ append_assoc (take pos buffer) s (concat strs),
      l,
    )

string-whole :
    (strs : List Bytes) (buffer : Bytes) (o : Option (Bytes × ℕ))
    → Copied strs buffer 0 o
    → string_at o ≡ some (concat strs)
string-whole strs buffer none c = absurd c
string-whole strs buffer (some (b, p)) (e, l) = ground arith

-- With any values and any memory of the size that is asked for, no copy and not the zero at the end
-- goes past the buffer, and the message is the texts of the values one after the other.
pub log_message-concat :
    {V N : Type 0} (lua : LuaApi V N) (vs : List V) (memory : Bytes)
    → message_size (map (text_of lua) vs) ≤ length memory
    → log_message lua vs memory ≡ some (concat (map (text_of lua) vs))
unfolding log_message
log_message-concat lua vs memory h =
    let strs = map (text_of lua) vs in
    let buffer = take (message_size strs) memory in
    string-whole strs buffer (copy_all strs buffer 0)
      (copy_all-Copied strs buffer 0 (omega (arith, length-take (message_size strs) memory)))
