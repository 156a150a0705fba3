-- ===== src/Signature/Keys.antt =====
-- src/lib/signature.c: loading keys and verifying data. base64 and OpenSSL are the parameter `Crypto`.
use turris_updater.Base.{
  ℕ, Bool, true, false, not, List, [], ◌∷◌, Option, none, some, Bytes, codes, bytes_eq, length,
  take, drop, ◌==◌, if◌then◌else◌,
}

pub data SignError : Type 0 where
  no_error key_format sig_format key_unknown sig_unknown no_matching_key verify_fail : SignError

-- EVP_DigestVerify: 1, 0 or another value.
pub data Verified : Type 0 where
  verified : Verified
  refused : Verified
  broken : Verified

pub record Crypto : Type 0 where
  -- base64_verify gives 0
  pub is_base64 : Bytes → Bool
  pub base64_decode : Bytes → Bytes
  -- EVP_PKEY_new_raw_public_key and EVP_DigestVerifyInit work
  pub can_load : Bytes → Bool
  pub can_init : Bytes → Bool
  -- on the public key, the signature and the data
  pub verify : Bytes → Bytes → Bytes → Verified

-- The bytes of `struct sign_pubkey` or `struct sig`: "Ed", the fingerprint and the key or signature.
abbrev pub pkalg : Bytes → Bytes
pkalg key = take 2 key

abbrev pub fingerprint : Bytes → Bytes
fingerprint key = take 8 (drop 2 key)

abbrev pub key_bytes : Bytes → Bytes
key_bytes key = drop 10 key

-- 2 + 8 + 32 and 2 + 8 + 64
abbrev pub pubkey_size : ℕ
pubkey_size = 42

abbrev pub sig_size : ℕ
sig_size = 74

-- memchr(data, '\n', len): what stands behind it; and what stands before it, or all.
unfoldable pub behind_feed : Bytes → Option Bytes
behind_feed [] = none
behind_feed (c ∷ cs) = let rest = behind_feed cs in if c == b'\n' then some cs else rest

unfoldable pub until_feed : Bytes → Bytes
until_feed [] = []
until_feed (c ∷ cs) = let rest = until_feed cs in if c == b'\n' then [] else c ∷ rest

-- The key, or the error that `sign_errno` is set to.
pub data Load : Type 0 where
  loaded : Bytes → Load
  fails : SignError → Load

-- The error of a key as that of a signature.
abbrev pub sig_error : SignError → SignError
sig_error key_format = sig_format
sig_error key_unknown = sig_unknown
sig_error e = e

abbrev pub loaded_key : Load → Option Bytes
loaded_key (loaded key) = some key
loaded_key (fails e) = none

-- `while (*pubkeys && memcmp(...)) pubkeys++;`
unfoldable pub find_key : Bytes → List Bytes → Option Bytes
find_key sig [] = none
find_key sig (key ∷ keys) =
    let rest = find_key sig keys in
    if bytes_eq (fingerprint sig) (fingerprint key) then some key else rest

-- The switch on EVP_DigestVerify, and the two calls before it.
abbrev pub answered : SignError → Verified → Bool × SignError
answered errno verified = (true, errno)
answered errno refused = (false, verify_fail)
answered errno broken = (false, verify_fail)

abbrev pub prepared : Bool → Bool → Bool × SignError → Bool × SignError
prepared true true answer = answer
prepared true false answer = (false, verify_fail)
prepared false works answer = (false, verify_fail)

module _ (crypto : Crypto) where
  -- The size and the algorithm of what was decoded.
  unfoldable pub check_key : ℕ → Bytes → Load
  check_key key_len key =
      if not (length key == key_len)
      then fails key_format
      else if not (bytes_eq (codes "Ed") (pkalg key))
      then fails key_unknown
      else loaded key

  -- On the second line.
  unfoldable pub load_line : ℕ → Bytes → Load
  unfolding check_key
  load_line key_len line =
      if crypto.is_base64 line
      then check_key key_len (crypto.base64_decode line)
      else fails key_format

  unfoldable pub load_behind : ℕ → Option Bytes → Load
  unfolding load_line until_feed
  load_behind key_len none = fails key_format
  load_behind key_len (some text) = load_line key_len (until_feed text)

  unfoldable pub key_load_generic : Bytes → ℕ → Load
  unfolding load_behind behind_feed
  key_load_generic text key_len = load_behind key_len (behind_feed text)

  unfoldable pub sign_pubkey : Bytes → Option Bytes
  unfolding key_load_generic
  sign_pubkey text = loaded_key (key_load_generic text pubkey_size)

  -- `errno` is `sign_errno` from before; the result comes with the one after.
  unfoldable pub verify_with : SignError → Bytes → Bytes → Bytes → Bool × SignError
  verify_with errno sig key content =
      prepared (crypto.can_load (key_bytes key)) (crypto.can_init (key_bytes key))
        (answered errno (crypto.verify (key_bytes key) (key_bytes sig) content))

  unfoldable pub verify_found : SignError → Bytes → Option Bytes → Bytes → Bool × SignError
  unfolding verify_with
  verify_found errno sig none content = (false, no_matching_key)
  verify_found errno sig (some key) content = verify_with errno sig key content

  unfoldable pub verify_loaded : SignError → Load → List Bytes → Bytes → Bool × SignError
  unfolding verify_found find_key
  verify_loaded errno (fails e) keys content = (false, sig_error e)
  verify_loaded errno (loaded sig) keys content = verify_found errno sig (find_key sig keys) content

  unfoldable pub sign_verify : SignError → Bytes → Bytes → List Bytes → Bool × SignError
  unfolding verify_loaded key_load_generic
  sign_verify errno content sign keys =
      verify_loaded errno (key_load_generic sign sig_size) keys content
