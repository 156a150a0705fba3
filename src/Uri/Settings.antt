-- ===== src/Uri/Settings.antt =====
-- What the calls of src/lib/uri.c that make and configure objects change, and what they leave alone.
use turris_updater.Base.{
  ℕ, suc, ◌≡◌, ◌≢◌, refl, subst, Bool, false, not, ◌&&◌, List, ◌∷◌, Option, none, some, Bytes,
  if◌then◌else◌, arith,
}
use turris_updater.Uri.State.{UriError, UriObj, Heap, returns, dies, put}
use turris_updater.Uri.Lists.{list_refup}
use turris_updater.Uri.Counting.{Counted, shared-Counted}
use turris_updater.Uri.Canonize.{
  UriParser, canonize_uri, Canonized, canonized, refused, asserts, new_object, make_uri, uri,
}
use turris_updater.Uri.Config.{is_none, uri_set_ssl_verify, uri_set_ca_pin, uri_set_ocsp}

-- Neither registered with a downloader nor finished.
abbrev pub is_open : UriObj → Bool
is_open u = is_none u.download_instance && not u.finished

-- The settings that a new object takes from its parent, and those it does not.
pub record Inherits (parent child : UriObj) : Type 0 where
  pub ssl_verify_same : child.ssl_verify ≡ parent.ssl_verify
  pub ocsp_same : child.ocsp ≡ parent.ocsp
  pub ca_pin_same : child.ca_pin ≡ parent.ca_pin
  pub pem_same : child.pem ≡ parent.pem
  pub pubkey_same : child.pubkey ≡ parent.pubkey
  pub no_signature : child.sig_uri ≡ none
  pub not_finished : child.finished ≡ false
  pub no_output : child.output ≡ none
  pub not_registered : child.download_instance ≡ none

module _ {K : Type 0} where
  abbrev pub with_object : Heap K → ℕ → UriObj → Heap K
  with_object h p u = record h { uris = put h.uris p (some u) }

  -- The three settings of HTTPS are written, and nothing else is, on an object that is neither
  -- registered nor finished; on any other the process dies.
  pub settings_guarded :
      (p : ℕ) (value : Bool) (u : UriObj) (h : Heap K)
      → h.uris p ≡ some u
      → (uri_set_ssl_verify p value h ≡ (
          if is_open u
          then returns tt (with_object h p (record u { ssl_verify = value }))
          else dies))
        × (uri_set_ca_pin p value h ≡ (
            if is_open u then returns tt (with_object h p (record u { ca_pin = value })) else dies))
        × (uri_set_ocsp p value h ≡ (
            if is_open u then returns tt (with_object h p (record u { ocsp = value })) else dies))
  unfolding uri_set_ssl_verify uri_set_ca_pin uri_set_ocsp
  settings_guarded p value u h at_p = ground arith

-- What a creation leaves. `ls` are the lists of the other objects.
abbrev pub IsCreated : {K : Type 0} → UriObj → List (List ℕ) → Heap K → Option ℕ → Heap K → Type 0
IsCreated parent ls h (some q) h' =
    (child : UriObj) × (h'.uris q ≡ some child)
    × Inherits parent child
    × Counted h'.nodes (child.pem ∷ child.pubkey ∷ parent.pem ∷ parent.pubkey ∷ ls)
    × (q ≡ h.fresh)
    × ((r : ℕ) → r ≢ q → h'.uris r ≡ h.uris r)
IsCreated parent ls h none h' =
    (h'.uris ≡ h.uris) × (h'.nodes ≡ h.nodes) × (e : UriError) × (h'.errno ≡ some e)

module _ (lib : UriParser) {K : Type 0} where
  make_uri-IsCreated :
      (c : Canonized) (parent : UriObj) (ls : List (List ℕ)) (h : Heap K) (o : Option ℕ)
      (h' : Heap K)
      → Counted h.nodes (parent.pem ∷ parent.pubkey ∷ ls)
      → make_uri lib c (some parent) h ≡ returns o h'
      → IsCreated parent ls h o h'
  unfolding make_uri new_object
  make_uri-IsCreated (canonized s text) parent ls h o h' counted e =
      let child = new_object lib s text (some parent) in
      let made : Heap K = record h {
        uris = put h.uris h.fresh (some child);
        nodes = list_refup parent.pubkey (list_refup parent.pem h.nodes);
        fresh = suc h.fresh;
      } in
      let same : (some h.fresh ≡ o) × (made ≡ h') = ground (arith, e) in
      let is : IsCreated parent ls h (some h.fresh) made = (
        child,
        ground arith,
        ground arith,
        shared-Counted h.nodes parent.pem parent.pubkey ls counted,
        refl,
        λ r ne. ground (arith, ne),
      ) in
      subst (λ x. IsCreated parent ls h x h') same.0
        (subst (λ k. IsCreated parent ls h (some h.fresh) k) same.1 is)
  make_uri-IsCreated (refused x) parent ls h o h' counted e =
      let made : Heap K = record h { errno = some x } in
      let same : (none ≡ o) × (made ≡ h') = ground (arith, e) in
      let is : IsCreated parent ls h none made = (refl, refl, x, refl) in
      subst (λ x. IsCreated parent ls h x h') same.0
        (subst (λ k. IsCreated parent ls h none k) same.1 is)
  make_uri-IsCreated asserts parent ls h o h' counted e = cc

  -- If the counters of the lists are exact, `uri` with a parent makes an object that has the parent's
  -- settings, certificates and keys but not its signature; the counters are exact again, with the
  -- lists of both objects, and no other object changes. Or it makes none, sets the error, and changes
  -- no object and no list.
  pub uri-IsCreated :
      (text : Bytes) (p : ℕ) (parent : UriObj) (ls : List (List ℕ)) (h : Heap K) (o : Option ℕ)
      (h' : Heap K)
      → h.uris p ≡ some parent
      → Counted h.nodes (parent.pem ∷ parent.pubkey ∷ ls)
      → uri lib text (some p) h ≡ returns o h'
      → IsCreated parent ls h o h'
  unfolding uri
  uri-IsCreated text p parent ls h o h' at_p counted e =
      make_uri-IsCreated (canonize_uri lib text (some parent)) parent ls h o h' counted
        (ground arith)
