-- ===== src/Signature/Accepted.antt =====
-- src/lib/signature.c: what it means that `sign_verify` accepts or refuses.
use turris_updater.Base.{
  ℕ, ◌≡◌, refl, Bool, true, false, List, [], ◌∷◌, Option, none, some, Bytes, bytes_eq, bytes_eq_iff,
  Bool-cases, Option-cases, ◌⊎◌, inl, inr, arith,
}
use turris_updater.Signature.Keys.{
  SignError, sig_format, sig_unknown, no_matching_key, verify_fail, Verified, verified, refused,
  broken, Crypto, fingerprint, key_bytes, sig_size, behind_feed, sig_error, Load, loaded, fails,
  answered, prepared, check_key, load_line, load_behind, key_load_generic, find_key, verify_with,
  verify_found, verify_loaded, sign_verify,
}

-- A key of the list.
abbrev pub Among : Bytes → List Bytes → Type 0
Among key [] = ⊥
Among key (k ∷ ks) = (key ≡ k) ⊎ Among key ks

module _ (crypto : Crypto) where
  -- The data is signed by a key of the list: the text loads as a signature, whose fingerprint is the
  -- key's, and OpenSSL accepts the signature with the key.
  abbrev pub IsSigned : Bytes → Bytes → List Bytes → Type 0
  IsSigned content sign keys =
      (sig : Bytes) × (key : Bytes) × (key_load_generic crypto sign sig_size ≡ loaded sig)
      × Among key keys
      × (fingerprint sig ≡ fingerprint key)
      × (crypto.verify (key_bytes key) (key_bytes sig) content ≡ verified)

  -- The errors of a refusal.
  abbrev pub is_refusal : SignError → Bool
  is_refusal sig_format = true
  is_refusal sig_unknown = true
  is_refusal no_matching_key = true
  is_refusal verify_fail = true
  is_refusal _ = false

  found-Among :
      (sig key : Bytes) (keys : List Bytes)
      → find_key sig keys ≡ some key
      → Among key keys × (fingerprint sig ≡ fingerprint key)
  unfolding find_key
  found-Among sig key [] h = ground arith
  found-Among sig key (k ∷ ks) h = elim (Bool-cases (bytes_eq (fingerprint sig) (fingerprint k))) [
    | inl y ↦
        (inl (ground arith), ground (arith, (bytes_eq_iff (fingerprint sig) (fingerprint k)).0 y))
    | inr n ↦ let (a, f) = found-Among sig key ks (ground arith) in (inr a, f)
  ]

  -- A text that does not load is refused.
  load-error :
      (text : Bytes) (n : ℕ) (e : SignError)
      → key_load_generic crypto text n ≡ fails e
      → is_refusal (sig_error e) ≡ true
  unfolding key_load_generic load_behind load_line check_key
  load-error text n e h = elim (Option-cases (behind_feed text)) [
    | inl b ↦ ground arith
    | inr (t, b) ↦ ground arith
  ]

  -- An answer with the error that comes with it.
  abbrev pub IsJustified : SignError → Bytes → Bytes → List Bytes → Bool × SignError → Type 0
  IsJustified errno content sign keys (true, e) = IsSigned content sign keys × (e ≡ errno)
  IsJustified errno content sign keys (false, e) = is_refusal e ≡ true

  answered-IsJustified :
      (errno : SignError) (content sign : Bytes) (keys : List Bytes) (loads inits : Bool)
      (answer : Verified)
      → (answer ≡ verified → IsSigned content sign keys)
      → IsJustified errno content sign keys (prepared loads inits (answered errno answer))
  answered-IsJustified errno content sign keys true true verified h = (h refl, refl)
  answered-IsJustified errno content sign keys true true refused h = refl
  answered-IsJustified errno content sign keys true true broken h = refl
  answered-IsJustified errno content sign keys true false answer h = refl
  answered-IsJustified errno content sign keys false inits answer h = refl

  found-IsJustified :
      (errno : SignError) (content sign : Bytes) (keys : List Bytes) (sig : Bytes)
      (found : Option Bytes)
      → key_load_generic crypto sign sig_size ≡ loaded sig
      → find_key sig keys ≡ found
      → IsJustified errno content sign keys (verify_found crypto errno sig found content)
  unfolding verify_found verify_with
  found-IsJustified errno content sign keys sig none l f = refl
  found-IsJustified errno content sign keys sig (some key) l f =
      let (a, e) = found-Among sig key keys f in
      answered-IsJustified errno content sign keys (crypto.can_load (key_bytes key))
        (crypto.can_init (key_bytes key)) (crypto.verify (key_bytes key) (key_bytes sig) content)
        (λ v. (sig, key, l, a, e, v))

  loaded-IsJustified :
      (errno : SignError) (content sign : Bytes) (keys : List Bytes) (load : Load)
      → key_load_generic crypto sign sig_size ≡ load
      → IsJustified errno content sign keys (verify_loaded crypto errno load keys content)
  unfolding verify_loaded
  loaded-IsJustified errno content sign keys (fails e) l = load-error sign sig_size e l
  loaded-IsJustified errno content sign keys (loaded sig) l =
      found-IsJustified errno content sign keys sig (find_key sig keys) l refl

  -- Data is accepted only if it is signed by a key of the list: the text is a signature, the fingerprint
  -- of the key is the signature's, and OpenSSL accepts the signature of the data with this key. A
  -- refusal says that the signature is malformed or unknown, that no key matches, or that the
  -- verification failed.
  pub sign_verify-IsJustified :
      (errno : SignError) (content sign : Bytes) (keys : List Bytes)
      → IsJustified errno content sign keys (sign_verify crypto errno content sign keys)
  unfolding sign_verify
  sign_verify-IsJustified errno content sign keys =
      loaded-IsJustified errno content sign keys (key_load_generic crypto sign sig_size) refl
