-- ===== src/Uri/Verified.antt =====
-- What `uri_finish` of src/lib/uri.c guarantees about the data that it hands out.
use turris_updater.Base.{
  ℕ, suc, ◌≡◌, refl, sym, ap, ◌∙◌, ◌⊎◌, inl, inr, Bool, true, false, not, List, [], ◌∷◌, Option,
  none, some, Bytes, Option-cases, if◌then◌else◌, arith,
}
use turris_updater.Uri.State.{
  verify_fail, UriObj, Heap, Outcome, returns, dies, wild, too_deep, M, bind_outcome, assert, pure,
  put, load, set_errno,
}
use turris_updater.Uri.Canonize.{UriParser}
use turris_updater.Uri.Config.{uri_free}
use turris_updater.Uri.Finish.{
  Env, written, flushed, output_of, maps_nothing, signed_data, bytes_of, collect, check_signature,
  verify_received, verify_keys, verify_signature, retrieve, close_output, seal_object, seal,
  finish_retrieved, uri_finish,
}

pub bind-returns :
    {K A B : Type 0} (o : Outcome K A) (f : A → M K B) {b : B} {h' : Heap K}
    → bind_outcome o f ≡ returns b h'
    → (a : A) × (h : Heap K) × (o ≡ returns a h) × (f a h ≡ returns b h')
bind-returns (returns a h) f e = (a, h, refl, e)
bind-returns dies f e = cc
bind-returns wild f e = cc
bind-returns too_deep f e = cc

pub load-returns :
    {K : Type 0} (q : ℕ) (h : Heap K) {s : UriObj} {h' : Heap K}
    → load q h ≡ returns s h'
    → (h.uris q ≡ some s) × (h ≡ h')
load-returns q h e = elim (Option-cases (h.uris q)) [
  | inl n ↦ ground (arith, n)
  | inr (s, k) ↦ ground (arith, k)
]

module _ {K : Type 0} (env : Env K) (lib : UriParser) where
  -- Where the signature and the keys come from when the object `u` is checked in the state `before`:
  -- its signature object was finished, the signature is its content, and the keys are what was then
  -- collected of the public keys of `u`.
  abbrev pub Received :
      (ℕ → M K Bool) → (ℕ → M K (Unit {0})) → UriObj → Heap K → Bytes → List K → Type 0
  Received finish free_uri u before sign keys =
      (q : ℕ) × (s : UriObj) × (received : Heap K) × (after : Heap K) × (u.sig_uri ≡ some q)
      × (finish q before ≡ returns true received)
      × (received.uris q ≡ some s)
      × (sign ≡ bytes_of s)
      × (collect env lib finish free_uri env.load_key u.pubkey received ≡ returns keys after)

  pub check_signature-stored :
      (free_uri : ℕ → M K (Unit {0})) (p : ℕ) (u : UriObj) (q : ℕ) (sign : Bytes) (keys : List K)
      (h : Heap K) {b : Bool} {h' : Heap K}
      → check_signature env lib free_uri p u q sign keys h ≡ returns b h'
      → (h'.uris p ≡ some (record u { sig_uri = none }))
        × (env.sign_verify (signed_data u) sign keys ≡ b)
  unfolding check_signature
  check_signature-stored free_uri p u q sign keys h₀ e₀ =
      let (a₀, h, g₀, e) = bind-returns (assert (not (maps_nothing u)) h₀) _ e₀ in
      let (a, h₁, e₁, f₁) =
        bind-returns
          ((if env.sign_verify (signed_data u) sign keys then pure tt else set_errno verify_fail) h)
          _ e in
      let (a₂, h₂, e₂, f₂) = bind-returns (free_uri q h₁) _ f₁ in ground (arith, f₂)

  -- The data that was verified is that of the stored object.
  abbrev Verified : (ℕ → M K Bool) → (ℕ → M K (Unit {0})) → UriObj → Heap K → Option UriObj → Type 0
  Verified finish free_uri u before stored =
      ((u.pubkey ≡ []) × (stored ≡ some u))
      ⊎ ((sign : Bytes) × (keys : List K) × Received finish free_uri u before sign keys
          × (stored ≡ some (record u { sig_uri = none }))
          × (env.sign_verify (signed_data u) sign keys ≡ true))

  verify_received-Verified :
      (finish : ℕ → M K Bool) (free_uri : ℕ → M K (Unit {0})) (p : ℕ) (u : UriObj) (q : ℕ)
      (good : Bool) (before h : Heap K) {h' : Heap K}
      → u.sig_uri ≡ some q
      → finish q before ≡ returns good h
      → verify_received env lib finish free_uri p u q good h ≡ returns true h'
      → Verified finish free_uri u before (h'.uris p)
  unfolding verify_received
  verify_received-Verified finish free_uri p u q false before h s g e = cc
  verify_received-Verified finish free_uri p u q true before h sig g e =
      let (s, h₁, e₁, f₁) = bind-returns (load q h) _ e in
      let (at_q, same) = load-returns q h e₁ in
      let (keys, h₂, e₂, f₂) =
        bind-returns (collect env lib finish free_uri env.load_key u.pubkey h₁) _ f₁ in
      let (stored, good) = check_signature-stored free_uri p u q (bytes_of s) keys h₂ f₂ in
      let from = ap (collect env lib finish free_uri env.load_key u.pubkey) same ∙ e₂ in
      inr (bytes_of s, keys, (q, s, h, h₂, sig, g, at_q, refl, from), stored, good)

  verify_keys-Verified :
      (finish : ℕ → M K Bool) (free_uri : ℕ → M K (Unit {0})) (p : ℕ) (u : UriObj) (h : Heap K)
      (keys : List ℕ) (sig : Option ℕ) {h' : Heap K}
      → h.uris p ≡ some u
      → u.pubkey ≡ keys
      → u.sig_uri ≡ sig
      → verify_keys env lib finish free_uri p u keys sig h ≡ returns true h'
      → Verified finish free_uri u h (h'.uris p)
  unfolding verify_keys
  verify_keys-Verified finish free_uri p u h [] sig at_p k g e = inl (k, ground arith)
  verify_keys-Verified finish free_uri p u h (n ∷ ns) none at_p k g e = cc
  verify_keys-Verified finish free_uri p u h (n ∷ ns) (some q) at_p k g e =
      let (good, h₁, e₁, f₁) = bind-returns (finish q h) _ e in
      verify_received-Verified finish free_uri p u q good h h₁ g e₁ f₁

  abbrev pub sealed : UriObj → UriObj
  sealed u = record (flushed u) { finished = true }

  pub verify_signature_at :
      (finish : ℕ → M K Bool) (free_uri : ℕ → M K (Unit {0})) (p : ℕ) (u : UriObj) (h : Heap K)
      → h.uris p ≡ some u
      → verify_signature env lib finish free_uri p h
        ≡ verify_keys env lib finish free_uri p u u.pubkey u.sig_uri h
  unfolding verify_signature
  verify_signature_at finish free_uri p u h at_p = ground arith

  verify_signature-Verified :
      (finish : ℕ → M K Bool) (free_uri : ℕ → M K (Unit {0})) (p : ℕ) (u : UriObj) (h : Heap K)
      {h' : Heap K}
      → h.uris p ≡ some u
      → verify_signature env lib finish free_uri p h ≡ returns true h'
      → Verified finish free_uri u h (h'.uris p)
  verify_signature-Verified finish free_uri p u h at_p e =
      verify_keys-Verified finish free_uri p u h u.pubkey u.sig_uri at_p refl refl
        (sym (verify_signature_at finish free_uri p u h at_p) ∙ e)

  -- The state in which the object is checked, after the one in which its data was there.
  abbrev pub begun : ℕ → UriObj → Heap K → Heap K
  begun p u h = record h { uris = put h.uris p (some (sealed u)) }

  -- The data was verified, and the caller gets it, or it stands in the output file.
  abbrev pub Accepted :
      (ℕ → M K Bool) → (ℕ → M K (Unit {0})) → ℕ → UriObj → Heap K → UriObj → Type 0
  Accepted finish free_uri p u h w =
      (bytes : Bytes) × (sign : Bytes) × (keys : List K) × Received finish free_uri (sealed u)
        (begun p u h) sign keys
      × (env.sign_verify bytes sign keys ≡ true)
      × ((w.content ≡ some bytes) ⊎ ((w.content ≡ none) × (bytes ≡ written (output_of u))))

  -- A finished object as the caller gets it, and the one that was there when its data was.
  abbrev pub IsAccepted :
      (ℕ → M K Bool) → (ℕ → M K (Unit {0})) → ℕ → Heap K → Option UriObj → Type 0
  IsAccepted finish free_uri p h o =
      (u : UriObj) × (w : UriObj) × (h.uris p ≡ some u)
      × (o ≡ some w)
      × (w.finished ≡ true)
      × (w.pubkey ≡ u.pubkey)
      × ((u.pubkey ≡ []) ⊎ Accepted finish free_uri p u h w)

  flushed-same :
      (u : UriObj) → ((flushed u).pubkey ≡ u.pubkey) × (output_of (flushed u) ≡ output_of u)
  flushed-same u = elim (Option-cases u.output) [
    | inl n ↦ ground (arith, n)
    | inr (o, k) ↦ ground (arith, k)
  ]

  signed_data_content :
      (u : UriObj)
      → (u.content ≡ some (signed_data u))
        ⊎ ((u.content ≡ none) × (signed_data u ≡ written (output_of u)))
  signed_data_content u = elim (Option-cases u.content) [
    | inl n ↦ inr (n, ground (arith, n))
    | inr (b, k) ↦ inl (ground (arith, k))
  ]

  close_output-IsAccepted :
      (finish : ℕ → M K Bool) (free_uri : ℕ → M K (Unit {0})) (p : ℕ) (u : UriObj) (h h₁ : Heap K)
      {h' : Heap K}
      → h.uris p ≡ some u
      → Verified finish free_uri (sealed u) (begun p u h) (h₁.uris p)
      → close_output env lib p true h₁ ≡ returns true h'
      → IsAccepted finish free_uri p h (h'.uris p)
  unfolding close_output
  close_output-IsAccepted finish free_uri p u h h₁ at (inl (none_given, at_p)) e = (
    u,
    record (sealed u) { output = none },
    at,
    ground arith,
    refl,
    (flushed-same u).0,
    inl (sym (flushed-same u).0 ∙ none_given),
  )
  close_output-IsAccepted finish free_uri p u h h₁ at (inr (sign, keys, from, at_p, good)) e = (
    u,
    record (sealed u) { output = none; sig_uri = none },
    at,
    ground arith,
    refl,
    (flushed-same u).0,
    inr (
      signed_data (flushed u),
      sign,
      keys,
      from,
      good,
      elim (signed_data_content (flushed u)) [
        | inl c ↦ inl c
        | inr (n, b) ↦ inr (n, b ∙ ap written (flushed-same u).1)
      ],
    ),
  )

  seal_object-IsAccepted :
      (finish : ℕ → M K Bool) (free_uri : ℕ → M K (Unit {0})) (p : ℕ) (u : UriObj) (h : Heap K)
      {h' : Heap K}
      → h.uris p ≡ some u
      → seal_object env lib finish free_uri p u h ≡ returns true h'
      → IsAccepted finish free_uri p h (h'.uris p)
  unfolding seal_object
  seal_object-IsAccepted finish free_uri p u h {h'} at e =
      let (good, h₁, e₁, f₁) =
        bind-returns (verify_signature env lib finish free_uri p (begun p u h))
          (close_output env lib p) e in
      by_answer good h₁ e₁ f₁
    where
      by_answer :
          (good : Bool) (h₁ : Heap K)
          → verify_signature env lib finish free_uri p (begun p u h) ≡ returns good h₁
          → close_output env lib p good h₁ ≡ returns true h'
          → IsAccepted finish free_uri p h (h'.uris p)
      by_answer false h₁ e₁ f₁ = unfold close_output in cc
      by_answer true h₁ e₁ f₁ =
          close_output-IsAccepted finish free_uri p u h h₁ at
            (verify_signature-Verified finish free_uri p (sealed u) (begun p u h) (ground arith) e₁)
            f₁

  finish_retrieved-IsAccepted :
      (finish : ℕ → M K Bool) (free_uri : ℕ → M K (Unit {0})) (p : ℕ) (h : Heap K) {h' : Heap K}
      → finish_retrieved env lib finish free_uri p true h ≡ returns true h'
      → IsAccepted finish free_uri p h (h'.uris p)
  unfolding finish_retrieved seal
  finish_retrieved-IsAccepted finish free_uri p h {h'} e =
      let (u, h₁, e₁, f₁) = bind-returns (load p h) (seal_object env lib finish free_uri p) e in
      let (at, same) = load-returns p h e₁ in
      seal_object-IsAccepted finish free_uri p u h at
        (ap (seal_object env lib finish free_uri p u) same ∙ f₁)

  pub uri_finish_at :
      (depth p : ℕ) (h : Heap K) (u : UriObj)
      → h.uris p ≡ some u
      → u.finished ≡ false
      → uri_finish env lib (suc depth) p h
        ≡ bind_outcome
            (retrieve env lib depth p u h)
            (finish_retrieved env lib (uri_finish env lib depth) (uri_free depth) p)
  unfolding uri_finish
  uri_finish_at depth p h u at_p f = ground arith

  -- Where `uri_finish` answers `true` for an object that was not finished, its data was retrieved, the
  -- object is finished, and it has no public key, or `sign_verify` accepted the data that the caller
  -- gets, or the output file that it was written to, with the content of the object's signature, which
  -- was finished then, and with the keys that were then collected of the object's public keys.
  pub uri_finish-IsAccepted :
      (depth p : ℕ) (h : Heap K) (u : UriObj) (h' : Heap K)
      → h.uris p ≡ some u
      → u.finished ≡ false
      → uri_finish env lib (suc depth) p h ≡ returns true h'
      → (h₁ : Heap K) × (retrieve env lib depth p u h ≡ returns true h₁)
        × IsAccepted (uri_finish env lib depth) (uri_free depth) p h₁ (h'.uris p)
  uri_finish-IsAccepted depth p h u h' at_p f e =
      let (got, h₁, e₁, f₁) =
        bind-returns (retrieve env lib depth p u h)
          (finish_retrieved env lib (uri_finish env lib depth) (uri_free depth) p)
          (sym (uri_finish_at depth p h u at_p f) ∙ e) in
      by_answer got h₁ e₁ f₁
    where
      by_answer :
          (got : Bool) (h₁ : Heap K)
          → retrieve env lib depth p u h ≡ returns got h₁
          → finish_retrieved env lib (uri_finish env lib depth) (uri_free depth) p got h₁
            ≡ returns true h'
          → (h₁ : Heap K) × (retrieve env lib depth p u h ≡ returns true h₁)
            × IsAccepted (uri_finish env lib depth) (uri_free depth) p h₁ (h'.uris p)
      by_answer true h₁ e₁ f₁ =
          (h₁, e₁, finish_retrieved-IsAccepted (uri_finish env lib depth) (uri_free depth) p h₁ f₁)
      by_answer false h₁ e₁ f₁ = unfold finish_retrieved in cc
