-- ===== src/Interpreter/Hashes.antt =====
-- src/lib/interpreter.c: hashes of strings and of files, in hexadecimal digits.
use turris_updater.Base.{
  ℕ, ◌+◌, ◌/◌, ◌%◌, ◌≡◌, List, [], ◌∷◌, ◌++◌, Option, none, some, Bytes, ltb, if◌then◌else◌,
}

-- What OpenSSL gives of one of MD5 and SHA256: a context that takes data and gives a digest.
pub record Hash (C : Type 0) : Type 0 where
  pub init : C
  pub update : C → Bytes → C
  pub final : C → Bytes
  pub update_append : (c : C) (a b : Bytes) → update (update c a) b ≡ update c (a ++ b)
  pub update_nothing : (c : C) → update c [] ≡ c

abbrev pub hex_digit : ℕ → ℕ
hex_digit n = if ltb n 10 then 48 + n else 87 + n

-- The loop of snprintf("%02hhx").
unfoldable pub push_hex : Bytes → Bytes
push_hex [] = []
push_hex (b ∷ bs) = hex_digit (b % 256 / 16) ∷ hex_digit (b % 16) ∷ push_hex bs

module _ {C : Type 0} (h : Hash C) where
  -- `lua_md5` and `lua_sha256`
  unfoldable pub lua_hash : Bytes → Bytes
  unfolding push_hex
  lua_hash buffer = push_hex (h.final (h.update h.init buffer))

  -- The loop over what fread gives, until it gives nothing.
  unfoldable pub update_chunks : C → List Bytes → C
  update_chunks c [] = c
  update_chunks c ([] ∷ chunks) = c
  update_chunks c ((b ∷ bs) ∷ chunks) = update_chunks (h.update c (b ∷ bs)) chunks

  -- `lua_md5_file` and `lua_sha256_file`; a file that cannot be opened is read through NULL.
  unfoldable pub lua_hash_file : Option (List Bytes) → Option Bytes
  unfolding push_hex update_chunks
  lua_hash_file none = none
  lua_hash_file (some chunks) = some (push_hex (h.final (update_chunks h.init chunks)))
