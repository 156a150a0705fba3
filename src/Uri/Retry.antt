-- ===== src/Uri/Retry.antt =====
-- A second `uri_finish` of src/lib/uri.c after the first has refused the data.
use turris_updater.Base.{
  ℕ, suc, ◌≡◌, ◌≢◌, refl, sym, ◌∙◌, ap, Bool, true, false, List, [], ◌∷◌, Option, none, some, Bytes,
  Bool-cases, Option-cases, inl, inr, arith,
}
use turris_updater.Uri.State.{
  verify_fail, UriObj, file, inline, Scheme, Heap, Outcome, returns, M, bind_outcome, load,
}
use turris_updater.Uri.Canonize.{UriParser, uri_path, uri_is_local}
use turris_updater.Uri.Config.{uri_free}
use turris_updater.Uri.Finish.{
  Env, flushed, signed_data, bytes_of, write_output, write_text, copy_file, copy_path,
  uri_finish_file, finish_data, uri_finish_data, finish_local, finish_remote, ensure_output,
  ensure_default_signature, collect, check_signature, verify_received, verify_keys,
  verify_signature, retrieve_local, retrieve, close_output, seal_object, seal, finish_retrieved,
  uri_finish,
}
use turris_updater.Uri.Verified.{
  bind-returns, check_signature-stored, load-returns, verify_signature_at, sealed, begun,
  uri_finish_at,
}

module _ {K : Type 0} (env : Env K) (lib : UriParser) where
  -- The call failed, and not over a signature that is wrong.
  abbrev Refuses : Outcome K Bool → Type 0
  Refuses o = (h' : Heap K) → o ≡ returns false h' → h'.errno ≢ some verify_fail

  write_output-Refuses :
      (p : ℕ) (u : UriObj) (bytes : Bytes) (h : Heap K) → Refuses (write_output env lib p u bytes h)
  unfolding write_output
  write_output-Refuses p u bytes h h' e f = ground arith

  write_text-Refuses :
      (p : ℕ) (u : UriObj) (text : Bytes) (h : Heap K) → Refuses (write_text env lib p u text h)
  unfolding write_text
  write_text-Refuses p u text h h' e f = ground arith

  copy_file-Refuses :
      (p : ℕ) (u : UriObj) (o : Option Bytes) (h : Heap K) → Refuses (copy_file env lib p u o h)
  unfolding copy_file
  copy_file-Refuses p u none h h' e f = ground arith
  copy_file-Refuses p u (some bytes) h h' e f = write_output-Refuses p u bytes h h' e f

  copy_path-Refuses :
      (p : ℕ) (u : UriObj) (o : Option Bytes) (h : Heap K) → Refuses (copy_path env lib p u o h)
  unfolding copy_path
  copy_path-Refuses p u none h h' e f = cc
  copy_path-Refuses p u (some path) h h' e f = copy_file-Refuses p u (env.files path) h h' e f

  finish_data-Refuses :
      (p : ℕ) (u : UriObj) (o : Option (Bool × Bytes)) (h : Heap K)
      → Refuses (finish_data env lib p u o h)
  unfolding finish_data
  finish_data-Refuses p u none h h' e f = cc
  finish_data-Refuses p u (some (true, start)) h h' e f =
      write_output-Refuses p u (env.base64_decode start) h h' e f
  finish_data-Refuses p u (some (false, start)) h h' e f = write_text-Refuses p u start h h' e f

  finish_remote-Refuses : (p : ℕ) (u : UriObj) (h : Heap K) → Refuses (finish_remote env lib p u h)
  unfolding finish_remote
  finish_remote-Refuses p u h h' e f = ground arith

  finish_local-Refuses :
      (p : ℕ) (u : UriObj) (s : Scheme) (h : Heap K) → Refuses (finish_local env lib p u s h)
  unfolding finish_local uri_finish_file uri_finish_data
  finish_local-Refuses p u file h h' e f = copy_path-Refuses p u (uri_path lib u) h h' e f
  finish_local-Refuses p u inline h h' e f = finish_data-Refuses p u _ h h' e f
  finish_local-Refuses p u _ h h' e f = cc

  retrieve_local-Refuses : (depth p : ℕ) (h : Heap K) → Refuses (retrieve_local env lib depth p h)
  unfolding retrieve_local
  retrieve_local-Refuses depth p h h' e f =
      let last : UriObj → M K Bool = λ u. finish_local env lib p u u.scheme in
      let after : M K Bool = λ h₂. bind_outcome (load p h₂) last in
      let (_, h₁, e₁, f₁) =
        bind-returns (ensure_output env lib p h)
          (λ _ h₁. bind_outcome (ensure_default_signature env lib depth p h₁) (λ _. after)) e in
      let (_, h₂, e₂, f₂) =
        bind-returns (ensure_default_signature env lib depth p h₁) (λ _. after) f₁ in
      let (u, h₃, e₃, f₃) = bind-returns (load p h₂) last f₂ in
      finish_local-Refuses p u u.scheme h₃ h' f₃ f

  retrieve-Refuses :
      (depth p : ℕ) (u : UriObj) (h : Heap K) → Refuses (retrieve env lib depth p u h)
  unfolding retrieve
  retrieve-Refuses depth p u h h' e f = elim (Bool-cases (uri_is_local u)) [
    | inl local ↦ retrieve_local-Refuses depth p h h' (ground arith) f
    | inr remote ↦ finish_remote-Refuses p u h h' (ground arith) f
  ]

  -- The object is stored as it was checked, but without its signature, and the check refused its data.
  abbrev Marked : UriObj → Option UriObj → Type 0
  Marked u o =
      (o ≡ some (record u { sig_uri = none }))
      × (sign : Bytes) × (keys : List K) × (env.sign_verify (signed_data u) sign keys ≡ false)

  verify_keys-Marked :
      (finish : ℕ → M K Bool) (free_uri : ℕ → M K (Unit {0})) (p : ℕ) (u : UriObj) (h : Heap K)
      (keys : List ℕ) (sig : Option ℕ) (h' : Heap K)
      → verify_keys env lib finish free_uri p u keys sig h ≡ returns false h'
      → h'.errno ≡ some verify_fail
      → Marked u (h'.uris p)
  unfolding verify_keys
  verify_keys-Marked finish free_uri p u h [] sig h' e f = cc
  verify_keys-Marked finish free_uri p u h (n ∷ ns) none h' e f = cc
  verify_keys-Marked finish free_uri p u h (n ∷ ns) (some q) h' e f =
      let (good, h₁, e₁, f₁) =
        bind-returns (finish q h) (verify_received env lib finish free_uri p u q) e in
      received good h₁ f₁
    where
      received :
          (good : Bool) (h₁ : Heap K)
          → verify_received env lib finish free_uri p u q good h₁ ≡ returns false h'
          → Marked u (h'.uris p)
      received false h₁ f₁ = unfold verify_received in ground arith
      received true h₁ f₁ =
          unfold verify_received in
          let check : UriObj → List K → M K Bool =
            λ s keys. check_signature env lib free_uri p u q (bytes_of s) keys in
          let keys_of : M K (List K) = collect env lib finish free_uri env.load_key u.pubkey in
          let (s, h₂, e₂, f₂) =
            bind-returns (load q h₁) (λ s h₂. bind_outcome (keys_of h₂) (check s)) f₁ in
          let (keys, h₃, e₃, f₃) = bind-returns (keys_of h₂) (check s) f₂ in
          let (stored, bad) =
            check_signature-stored env lib free_uri p u q (bytes_of s) keys h₃ f₃ in
          (stored, bytes_of s, keys, bad)

  close_output-ne-false : (p : ℕ) (h h' : Heap K) → close_output env lib p true h ≢ returns false h'
  unfolding close_output
  close_output-ne-false p h h' e = ground arith

  returned : {h h' : Heap K} → returns false h ≡ returns false h' → h ≡ h'
  returned e = cc

  seal_object-Marked :
      (finish : ℕ → M K Bool) (free_uri : ℕ → M K (Unit {0})) (p : ℕ) (u : UriObj) (h h' : Heap K)
      → seal_object env lib finish free_uri p u h ≡ returns false h'
      → h'.errno ≡ some verify_fail
      → Marked (sealed env lib u) (h'.uris p)
  unfolding seal_object
  seal_object-Marked finish free_uri p u h h' e f =
      let (good, h₁, e₁, f₁) =
        bind-returns (verify_signature env lib finish free_uri p (begun env lib p u h))
          (close_output env lib p) e in
      by_answer good h₁ e₁ f₁
    where
      by_answer :
          (good : Bool) (h₁ : Heap K)
          → verify_signature env lib finish free_uri p (begun env lib p u h) ≡ returns good h₁
          → close_output env lib p good h₁ ≡ returns false h'
          → Marked (sealed env lib u) (h'.uris p)
      by_answer true h₁ e₁ f₁ = absurd (close_output-ne-false p h₁ h' f₁)
      by_answer false h₁ e₁ f₁ =
          let same : h₁ ≡ h' = returned (unfold close_output in f₁) in
          verify_keys-Marked finish free_uri p (sealed env lib u) (begun env lib p u h)
            (sealed env lib u).pubkey (sealed env lib u).sig_uri h'
            (sym (
                verify_signature_at env lib finish free_uri p (sealed env lib u)
                  (begun env lib p u h) (ground arith))
              ∙ e₁
              ∙ ap (returns false) same)
            f

  -- The data that was there when it was retrieved was refused and is kept.
  abbrev pub RefusedIn : ℕ → Heap K → Option UriObj → Type 0
  RefusedIn p h o =
      (u : UriObj) × (w : UriObj) × (h.uris p ≡ some u)
      × (o ≡ some w)
      × (w.content ≡ (flushed u).content)
      × (w.output ≡ u.output)
      × (sign : Bytes) × (keys : List K) × (env.sign_verify (signed_data (flushed u)) sign keys
          ≡ false)

  flushed_output : (u : UriObj) → (flushed u).output ≡ u.output
  flushed_output u = elim (Option-cases u.output) [
    | inl n ↦ ground (arith, n)
    | inr (o, k) ↦ ground (arith, k)
  ]

  finish_retrieved-RefusedIn :
      (finish : ℕ → M K Bool) (free_uri : ℕ → M K (Unit {0})) (p : ℕ) (h h' : Heap K)
      → finish_retrieved env lib finish free_uri p true h ≡ returns false h'
      → h'.errno ≡ some verify_fail
      → RefusedIn p h (h'.uris p) × (w : UriObj) × (h'.uris p ≡ some w) × (w.finished ≡ true)
  unfolding finish_retrieved seal
  finish_retrieved-RefusedIn finish free_uri p h h' e f =
      let (u, h₁, e₁, f₁) = bind-returns (load p h) (seal_object env lib finish free_uri p) e in
      let (at, same) = load-returns p h e₁ in
      let (stored, sign, keys, bad) = seal_object-Marked finish free_uri p u h₁ h' f₁ f in
      let w = record (sealed env lib u) { sig_uri = none } in
      ((u, w, at, stored, refl, flushed_output u, sign, keys, bad), w, stored, refl)

  -- Where `uri_finish` refuses an object because its signature does not fit, the object counts as
  -- finished all the same: the next call answers `true` in the same state, and what it hands out, or
  -- leaves in the output file, is the data that was retrieved and that `sign_verify` refused.
  pub uri_finish_again :
      (depth depth' p : ℕ) (h : Heap K) (u : UriObj) (h' : Heap K)
      → h.uris p ≡ some u
      → u.finished ≡ false
      → uri_finish env lib (suc depth) p h ≡ returns false h'
      → h'.errno ≡ some verify_fail
      → (uri_finish env lib (suc depth') p h' ≡ returns true h')
        × (h₁ : Heap K) × (retrieve env lib depth p u h ≡ returns true h₁)
        × RefusedIn p h₁ (h'.uris p)
  uri_finish_again depth depth' p h u h' at_p m e f =
      let (got, h₁, e₁, f₁) =
        bind-returns (retrieve env lib depth p u h)
          (finish_retrieved env lib (uri_finish env lib depth) (uri_free depth) p)
          (sym (uri_finish_at env lib depth p h u at_p m) ∙ e) in
      by_answer got h₁ e₁ f₁
    where
      by_answer :
          (got : Bool) (h₁ : Heap K)
          → retrieve env lib depth p u h ≡ returns got h₁
          → finish_retrieved env lib (uri_finish env lib depth) (uri_free depth) p got h₁
            ≡ returns false h'
          → (uri_finish env lib (suc depth') p h' ≡ returns true h')
            × (h₁ : Heap K) × (retrieve env lib depth p u h ≡ returns true h₁)
            × RefusedIn p h₁ (h'.uris p)
      by_answer true h₁ e₁ f₁ =
          let (refused, w, at_w, marked) =
            finish_retrieved-RefusedIn (uri_finish env lib depth) (uri_free depth) p h₁ h' f₁ f in
          (unfold uri_finish in ground (arith, at_w, marked), h₁, e₁, refused)
      by_answer false h₁ e₁ f₁ =
          let same : h₁ ≡ h' = returned (unfold finish_retrieved in f₁) in
          absurd (retrieve-Refuses depth p u h h' (e₁ ∙ ap (returns false) same) f)
