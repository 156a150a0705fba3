-- ===== src/Uri/Config.antt =====
-- src/lib/uri.c: the calls that configure an object, and `uri_free`. `depth` bounds how deep objects
-- own one another: signature, key of the signature.
use turris_updater.Base.{
  ℕ, zero, suc, Bool, true, false, not, ◌&&◌, List, [], ◌∷◌, ◌++◌, Option, none, some, Bytes, codes,
  if◌then◌else◌,
}
use turris_updater.Uri.State.{
  nonlocal, output_open_fail, UriObj, to_file, returns, wild, too_deep, M, ◌>>=◌, ◌>>◌, pure,
  assert, put, load, store, set_errno, fail,
}
use turris_updater.Uri.Lists.{list_add, list_dealloc, freed_uris}
use turris_updater.Uri.Canonize.{UriParser, uri, uri_is_local}

abbrev pub is_none {ℓ} : {A : Type ℓ} → Option A → Bool
is_none none = true
is_none (some a) = false

module _ {K : Type 0} where
  abbrev pub for_each : (ℕ → M K (Unit {0})) → List ℕ → M K (Unit {0})
  for_each f [] = pure tt
  for_each f (p ∷ ps) = f p >> for_each f ps

  -- `list_dealloc` with its handler: the nodes, then the objects that they own.
  unfoldable pub drop_list : (ℕ → M K (Unit {0})) → List ℕ → M K (Unit {0})
  unfolding list_dealloc freed_uris
  drop_list free_uri l h =
      for_each free_uri (freed_uris l h.nodes) (record h { nodes = list_dealloc l h.nodes })

  abbrev pub free_sig : (ℕ → M K (Unit {0})) → Option ℕ → M K (Unit {0})
  free_sig free_uri none = pure tt
  free_sig free_uri (some p) = free_uri p

  unfoldable pub uri_free : ℕ → ℕ → M K (Unit {0})
  unfolding drop_list
  uri_free zero p h = too_deep
  uri_free (suc depth) p h = elim (h.uris p) [
    | none ↦ wild
    | some u ↦
        (free_sig (uri_free depth) u.sig_uri
            >> drop_list (uri_free depth) u.pem
            >> drop_list (uri_free depth) u.pubkey)
          (record h { uris = put h.uris p none })
  ]

  -- CONFIG_GUARD
  abbrev pub config_guard : UriObj → M K (Unit {0})
  config_guard u = assert (is_none u.download_instance && not u.finished)

  unfoldable pub uri_set_ssl_verify : ℕ → Bool → M K (Unit {0})
  uri_set_ssl_verify p verify = do
    u ← load p
    config_guard u
    store p (record u { ssl_verify = verify })

  unfoldable pub uri_set_ca_pin : ℕ → Bool → M K (Unit {0})
  uri_set_ca_pin p enabled = do u ← load p; config_guard u; store p (record u { ca_pin = enabled })

  unfoldable pub uri_set_ocsp : ℕ → Bool → M K (Unit {0})
  uri_set_ocsp p enabled = do u ← load p; config_guard u; store p (record u { ocsp = enabled })

  -- A new node for `list_add`, with its object.
  abbrev pub new_node : ℕ → M K ℕ
  new_node q h = returns h.fresh (record h {
    nodes =
        put (list_add h.fresh h.nodes) h.fresh
          (some (record { ref_count = 1; uri = some q; loaded = none }));
    fresh = suc h.fresh;
  })

  -- OUTPUT_GUARD, and fopen(3) or mkstemp(3), whose answer is the argument.
  unfoldable pub uri_output : ℕ → Bool → M K Bool
  uri_output p opened = do
    u ← load p
    assert (is_none u.output && not u.finished)
    if opened
        then (do store p (record u { output = some (to_file []) }); pure true)
        else fail output_open_fail

-- The signature's text; the default is the object's own with ".sig" behind it.
abbrev pub sig_text : UriObj → Option Bytes → Bytes
sig_text u (some text) = text
sig_text u none = u.uri ++ codes ".sig"

module _ (lib : UriParser) (depth : ℕ) {K : Type 0} where
  -- The object of a key or certificate, which has to be local; `none` where an error is reported.
  unfoldable pub local_uri : Bytes → M K (Option ℕ)
  unfolding uri uri_free uri_is_local
  local_uri text = do
    made ← uri lib text none
    elim made [
      | none ↦ pure none
      | some q ↦ do
        u ← load q
        if uri_is_local u
            then pure (some q)
            else (do set_errno nonlocal; uri_free depth q; pure none)
    ]

  -- A null text drops all certificates.
  unfoldable pub uri_add_pem : ℕ → Option Bytes → M K Bool
  unfolding drop_list uri_free local_uri list_add
  uri_add_pem p none = do
    u ← load p
    config_guard u
    drop_list (uri_free depth) u.pem
    store p (record u { pem = [] })
    pure true
  uri_add_pem p (some text) = do
    u ← load p
    config_guard u
    made ← local_uri text
    elim made [
      | none ↦ pure false
      | some q ↦ do n ← new_node q; store p (record u { pem = n ∷ u.pem }); pure true
    ]

  unfoldable pub uri_add_pubkey : ℕ → Option Bytes → M K Bool
  unfolding drop_list uri_free local_uri list_add
  uri_add_pubkey p none = do
    u ← load p
    config_guard u
    drop_list (uri_free depth) u.pubkey
    store p (record u { pubkey = [] })
    pure true
  uri_add_pubkey p (some text) = do
    u ← load p
    config_guard u
    made ← local_uri text
    elim made [
      | none ↦ pure false
      | some q ↦ do n ← new_node q; store p (record u { pubkey = n ∷ u.pubkey }); pure true
    ]

  unfoldable pub uri_set_sig : ℕ → Option Bytes → M K Bool
  unfolding uri uri_free uri_add_pubkey
  uri_set_sig p text = do
    u ← load p
    config_guard u
    free_sig (uri_free depth) u.sig_uri
    made ← uri lib (sig_text u text) (some p)
    store p (record u { sig_uri = made })
    elim made [ none ↦ pure false | some q ↦ uri_add_pubkey q none >>= λ _. pure true ]
