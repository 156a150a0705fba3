-- ===== src/Uri/Signed.antt =====
-- src/lib/uri.c together with src/lib/signature.c: `sign_verify` and `sign_pubkey` in the place of the
-- parameters of `Env`.
use turris_updater.Base.{
  ℕ, suc, ◌≡◌, ◌⊎◌, inl, inr, Bool, true, false, List, [], Option, none, some, Bytes,
}
use turris_updater.Signature.Keys.{SignError, no_error, Crypto, sign_pubkey, sign_verify}
use turris_updater.Signature.Accepted.{IsSigned, IsJustified, sign_verify-IsJustified}
use turris_updater.Uri.State.{UriObj, Heap, returns}
use turris_updater.Uri.Canonize.{UriParser}
use turris_updater.Uri.Config.{uri_free}
use turris_updater.Uri.Finish.{Env, written, output_of, retrieve, uri_finish}
use turris_updater.Uri.Verified.{Received, sealed, begun, uri_finish-IsAccepted}

-- The answer of `sign_verify` is the same whatever error is set before the call.
abbrev pub signing : Crypto → Env Bytes → Env Bytes
signing crypto env = record env {
  load_key = sign_pubkey crypto;
  sign_verify = λ content sign keys. (sign_verify crypto no_error content sign keys).0;
}

accepted-IsSigned :
    (crypto : Crypto) (content sign : Bytes) (keys : List Bytes) (answer : Bool × SignError)
    → IsJustified crypto no_error content sign keys answer
    → answer.0 ≡ true
    → IsSigned crypto content sign keys
accepted-IsSigned crypto content sign keys (true, e) j a = j.0
accepted-IsSigned crypto content sign keys (false, e) j a = cc

module _ (crypto : Crypto) (env : Env Bytes) (lib : UriParser) where
  abbrev pub signed_env : Env Bytes
  signed_env = signing crypto env

  -- The caller gets data, or has it in the output file, that one of the keys signed, with the signature
  -- and the keys received when the object `u` was checked after the state `h`.
  abbrev pub Authentic : ℕ → ℕ → UriObj → Heap Bytes → UriObj → Type 0
  Authentic depth p u h w =
      (bytes : Bytes) × (sign : Bytes) × (keys : List Bytes) × Received signed_env lib
        (uri_finish signed_env lib depth) (uri_free depth) (sealed signed_env lib u)
        (begun signed_env lib p u h) sign keys
      × IsSigned crypto bytes sign keys
      × ((w.content ≡ some bytes) ⊎ ((w.content ≡ none) × (bytes ≡ written (output_of u))))

  -- A finished object that has no public keys or is authentic; `u` is the object when its data was
  -- there.
  abbrev pub IsAuthentic : ℕ → ℕ → Heap Bytes → Option UriObj → Type 0
  IsAuthentic depth p h o =
      (u : UriObj) × (w : UriObj) × (h.uris p ≡ some u)
      × (o ≡ some w)
      × (w.finished ≡ true)
      × (w.pubkey ≡ u.pubkey)
      × ((u.pubkey ≡ []) ⊎ Authentic depth p u h w)

  -- Where `uri_finish` with the code of signature.c answers `true` for an object that was not finished,
  -- its data was retrieved and the object is finished, and it has no public key, or one of its keys
  -- signed the data that the caller gets, or the output file that it was written to. The keys are
  -- those that were collected of the object's public keys. The signature is the content of the
  -- object's signature, which was finished before; it loads as a signature with that key's fingerprint,
  -- and OpenSSL accepts it.
  pub uri_finish-IsAuthentic :
      (depth p : ℕ) (h : Heap Bytes) (u : UriObj) (h' : Heap Bytes)
      → h.uris p ≡ some u
      → u.finished ≡ false
      → uri_finish signed_env lib (suc depth) p h ≡ returns true h'
      → (h₁ : Heap Bytes) × (retrieve signed_env lib depth p u h ≡ returns true h₁)
        × IsAuthentic depth p h₁ (h'.uris p)
  uri_finish-IsAuthentic depth p h u h' at_p f e =
      let (h₁, got, accepted) = uri_finish-IsAccepted signed_env lib depth p h u h' at_p f e in
      let (v, w, at, at', done, same, how) = accepted in
      let checked : (v.pubkey ≡ []) ⊎ Authentic depth p v h₁ w = elim how [
        | inl no_key ↦ inl no_key
        | inr (bytes, sign, keys, from, good, content) ↦ inr (
          bytes,
          sign,
          keys,
          from,
          accepted-IsSigned crypto bytes sign keys (sign_verify crypto no_error bytes sign keys)
              (sign_verify-IsJustified crypto no_error bytes sign keys) good,
          content,
        )
      ] in
      (h₁, got, (v, w, at, at', done, same, checked))
