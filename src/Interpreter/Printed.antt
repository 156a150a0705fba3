-- ===== src/Interpreter/Printed.antt =====
-- src/lib/interpreter.c: hashes of files, hexadecimal digits, and messages of the log.
use turris_updater.Base.{
  ℕ, ◌+◌, ◌-◌, ◌*◌, ◌/◌, ◌%◌, ◌<◌, ◌≡◌, ◌≢◌, refl, sym, ap, ◌∙◌, List, [], ◌∷◌, ◌++◌, some, Bytes,
  All, ltb, if◌then◌else◌, arith,
}
use turris_updater.Interpreter.Hashes.{
  Hash, hex_digit, push_hex, lua_hash, update_chunks, lua_hash_file,
}

abbrev pub concat : List Bytes → Bytes
concat [] = []
concat (xs ∷ xss) = xs ++ concat xss

-- The bytes that hexadecimal digits stand for.
abbrev pub digit_value : ℕ → ℕ
digit_value c = if ltb c 58 then c - 48 else c - 87

abbrev pub unhex : Bytes → Bytes
unhex [] = []
unhex (c ∷ []) = []
unhex (c ∷ d ∷ cs) = (16 * digit_value c + digit_value d) ∷ unhex cs

digit-back : (n : ℕ) → n < 16 → digit_value (hex_digit n) ≡ n
digit-back n h = ground arith

unhex-push_hex : (bs : Bytes) → All (λ b. b < 256) bs → unhex (push_hex bs) ≡ bs
unfolding push_hex
unhex-push_hex [] h = refl
unhex-push_hex (b ∷ bs) h = ground (
  arith,
  digit-back (b % 256 / 16) (omega arith),
  digit-back (b % 16) (omega arith),
  unhex-push_hex bs h.1,
)

module _ {C : Type 0} (h : Hash C) where
  update_chunks-concat :
      (c : C) (chunks : List Bytes)
      → All (λ chunk. chunk ≢ []) chunks
      → update_chunks h c chunks ≡ h.update c (concat chunks)
  unfolding update_chunks
  update_chunks-concat c [] n = sym (h.update_nothing c)
  update_chunks-concat c ([] ∷ chunks) n = absurd (n.0 refl)
  update_chunks-concat c ((b ∷ bs) ∷ chunks) n =
      update_chunks-concat (h.update c (b ∷ bs)) chunks n.1
      ∙ h.update_append c (b ∷ bs) (concat chunks)

  -- If a digest is a list of bytes: the hash of a file is the hash of its content as a string, however
  -- the reads cut it into pieces, and its digits can be read back as the digest.
  pub lua_hash_file-lua_hash :
      (chunks : List Bytes)
      → All (λ chunk. chunk ≢ []) chunks
      → All (λ b. b < 256) (h.final (h.update h.init (concat chunks)))
      → (lua_hash_file h (some chunks) ≡ some (lua_hash h (concat chunks)))
        × (unhex (lua_hash h (concat chunks)) ≡ h.final (h.update h.init (concat chunks)))
  unfolding lua_hash lua_hash_file
  lua_hash_file-lua_hash chunks n b = (
    ap (λ c. some (push_hex (h.final c))) (update_chunks-concat h.init chunks n),
    unhex-push_hex (h.final (h.update h.init (concat chunks))) b,
  )
