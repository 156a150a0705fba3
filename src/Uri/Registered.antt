-- ===== src/Uri/Registered.antt =====
-- What `uri_downloader_register` of src/lib/uri.c answers, and which downloads it asks for.
use turris_updater.Base.{
  ℕ, zero, suc, ◌≡◌, refl, sym, subst, ap, ◌∙◌, ◌⊎◌, inl, inr, Bool, true, false, not, ◌&&◌, List,
  [], ◌∷◌, ◌++◌, Option, none, some, Bytes, ==_refl, if◌then◌else◌, arith,
}
use turris_updater.Uri.State.{UriObj, Heap, returns, pure, assert, put, load}
use turris_updater.Uri.Canonize.{UriParser, uri_is_local}
use turris_updater.Uri.Config.{is_none, uri_free}
use turris_updater.Uri.Finish.{Env, ensure_output, ensure_default_signature, collect, uri_finish}
use turris_updater.Uri.Verified.{bind-returns, load-returns}
use turris_updater.Uri.Register.{
  Registered, opts_of, after_signature, register_signature, start_download, register_remote,
  uri_downloader_register,
}
use turris_updater.Download.State.{
  Setting, opt_url, opt_cainfo, opt_capath, opt_ssl_ctx, opt_verifystatus, opt_no_verifypeer, Inst,
  Downloader, ssl_settings, settings, download,
}

abbrev pub Among : Setting → List Setting → Type 0
Among s [] = ⊥
Among s (t ∷ ts) = (s ≡ t) ⊎ Among s ts

-- What curl is told of an object: where it is, and either not to verify the server, or the object's
-- certificates and whether it wants OCSP. With the pinning of certificates the system's are not used.
pub record Requests (u : UriObj) (pems : List ℕ) (told : List Setting) : Type 0 where
  pub url : Among (opt_url u.uri) told
  pub insecure : u.ssl_verify ≡ false → Among opt_no_verifypeer told
  pub secure : u.ssl_verify ≡ true → ¬ Among opt_no_verifypeer told
  pub status : u.ssl_verify ≡ true → Among (opt_verifystatus u.ocsp) told
  pub certificates : u.ssl_verify ≡ true → Among (opt_ssl_ctx pems) told
  pub pinned :
      u.ssl_verify ≡ true
      → u.ca_pin ≡ true
      → Among (opt_cainfo none) told × Among (opt_capath none) told

settings-Requests :
    (u : UriObj) (pems : List ℕ) (user_agent : Bytes)
    → Requests u pems (settings u.uri user_agent (opts_of u pems))
unfolding settings ssl_settings
settings-Requests u pems user_agent = record {
  url = inl refl;
  insecure = λ n. rw n (ground arith);
  secure = λ y a. ground (arith, y, a);
  status = λ y. ground (arith, y);
  certificates = λ y. ground (arith, y);
  pinned = λ y c. ground (arith, y, c);
}

-- A new instance stands at the end of the array, not done, with what curl is told of the object.
abbrev pub IsRequested : UriObj → List ℕ → ℕ → Downloader → Downloader → Type 0
IsRequested u pems a d d' =
    (d'.instances ≡ d.instances ++ a ∷ [])
    × (i : Inst) × (d'.memory a ≡ some i)
    × (i.done ≡ false)
    × (i.success ≡ false)
    × Requests u pems i.told

download-IsRequested :
    (u : UriObj) (pems : List ℕ) (a : ℕ) (user_agent : Bytes) (d : Downloader)
    → IsRequested u pems a d (download a u.uri user_agent (opts_of u pems) d)
unfolding download
download-IsRequested u pems a user_agent d = (
  refl,
  record {
    done = false;
    success = false;
    output = [];
    told = settings u.uri user_agent (opts_of u pems);
  },
  ground (arith, ==_refl a),
  refl,
  refl,
  settings-Requests u pems user_agent,
)

-- The object has its instance, which stands at a fresh address.
abbrev pub with_instance : ℕ → UriObj → Heap ℕ → Heap ℕ
with_instance p u h = record h {
  uris = put h.uris p (some (record u { download_instance = some h.fresh }));
  downloads = put h.downloads h.fresh (some (record { is_done = false; is_success = false }));
  fresh = suc h.fresh;
}

returns-value : {A : Type 0} {a b : A} {h h' : Heap ℕ} → returns a h ≡ returns b h' → a ≡ b
returns-value e = ground (arith, e)

module _ (env : Env ℕ) (lib : UriParser) (user_agent : Bytes) where
  -- The certificates of the object were collected after it had its output and its signature; `v` is the
  -- object then.
  abbrev pub IsPrepared : ℕ → ℕ → Heap ℕ → List ℕ → UriObj → Heap ℕ → Type 0
  IsPrepared depth p h pems v k =
      (h₁ : Heap ℕ) × (h₂ : Heap ℕ) × (u : UriObj) × (ensure_output env lib p h ≡ returns tt h₁)
      × (ensure_default_signature env lib depth p h₁ ≡ returns tt h₂)
      × (h₂.uris p ≡ some u)
      × (collect env lib (uri_finish env lib depth) (uri_free depth) env.load_pem u.pem h₂
          ≡ returns pems k)
      × (k.uris p ≡ some v)

  -- A local object asks for nothing. Any other asks for its own download, and then, if it has public
  -- keys, its signature asks for what it needs in turn.
  abbrev pub IsRegistered : ℕ → ℕ → Downloader → Heap ℕ → Downloader → Type 0
  IsRegistered zero p d h d' = ⊥
  IsRegistered (suc depth) p d h d' =
      (u : UriObj) × (h.uris p ≡ some u)
      × (((uri_is_local u ≡ true) × (d' ≡ d))
          ⊎ ((uri_is_local u ≡ false)
              × (pems : List ℕ) × (v : UriObj) × (k : Heap ℕ) × (d₁ : Downloader) × IsPrepared depth
                  p h pems v k
              × IsRequested v pems k.fresh d d₁
              × (((v.pubkey ≡ []) × (d' ≡ d₁))
                  ⊎ ((q : ℕ) × (v.sig_uri ≡ some q)
                      × IsRegistered depth q d₁ (with_instance p v k) d'))))

  abbrev AllRegister : ℕ → Type 0
  AllRegister depth =
      (q : ℕ) (d : Downloader) (h : Heap ℕ) (r : Registered) (h' : Heap ℕ)
      → uri_downloader_register env lib user_agent depth q d h ≡ returns r h'
      → (r.0 ≡ true) × IsRegistered depth q d h r.1

  -- The answer for the signature is true, so it is the answer.
  answered :
      (p q a : ℕ) (answer r : Registered) (h : Heap ℕ) {h' : Heap ℕ}
      → answer.0 ≡ true
      → after_signature p q a answer h ≡ returns r h'
      → answer ≡ r
  answered p q a (true, d) r h y e = returns-value e
  answered p q a (false, d) r h y e = absurd (ground (arith, y))

  register_signature_lem :
      (depth p a : ℕ) (keys : List ℕ) (sig : Option ℕ) (d : Downloader) (h : Heap ℕ)
      (r : Registered) {h' : Heap ℕ}
      → AllRegister depth
      → register_signature (uri_downloader_register env lib user_agent depth) p a keys sig d h
        ≡ returns r h'
      → (r.0 ≡ true)
        × (((keys ≡ []) × (r.1 ≡ d)) ⊎ ((q : ℕ) × (sig ≡ some q) × IsRegistered depth q d h r.1))
  register_signature_lem depth p a [] sig d h r all e =
      let same = returns-value e in (sym (ap (λ x. x.0) same), inl (refl, sym (ap (λ x. x.1) same)))
  register_signature_lem depth p a (n ∷ ns) none d h r all e = cc
  register_signature_lem depth p a (n ∷ ns) (some q) d h r all e =
      let (answer, h₁, e₁, f₁) =
        bind-returns (uri_downloader_register env lib user_agent depth q d h)
          (after_signature p q a) e in
      let (y, is) = all q d h answer h₁ e₁ in
      let same = answered p q a answer r h₁ y f₁ in
      (
        subst (λ x. x.0 ≡ true) same y,
        inr (q, refl, subst (λ x. IsRegistered depth q d h x.1) same is),
      )

  -- What stands behind a true answer for an object that is not local.
  abbrev IsRemote : ℕ → ℕ → Downloader → Heap ℕ → Registered → Type 0
  IsRemote depth p d h r =
      (r.0 ≡ true)
      × (pems : List ℕ) × (v : UriObj) × (k : Heap ℕ) × (d₁ : Downloader) × IsPrepared depth p h
          pems v k
      × IsRequested v pems k.fresh d d₁
      × (((v.pubkey ≡ []) × (r.1 ≡ d₁))
          ⊎ ((q : ℕ) × (v.sig_uri ≡ some q) × IsRegistered depth q d₁ (with_instance p v k) r.1))

  register_remote_lem :
      (depth p : ℕ) (d : Downloader) (h : Heap ℕ) (r : Registered) {h' : Heap ℕ}
      → AllRegister depth
      → register_remote env lib user_agent
          (uri_downloader_register env lib user_agent depth)
          depth
          p
          d
          h
        ≡ returns r h'
      → IsRemote depth p d h r
  unfolding register_remote start_download
  register_remote_lem depth p d h r all e =
      let register = uri_downloader_register env lib user_agent depth in
      let (x, h₁, e₁, f₁) = bind-returns (ensure_output env lib p h) _ e in
      let (y, h₂, e₂, f₂) = bind-returns (ensure_default_signature env lib depth p h₁) _ f₁ in
      let (u, h₃, e₃, f₃) = bind-returns (load p h₂) _ f₂ in
      let collecting = collect env lib (uri_finish env lib depth) (uri_free depth) env.load_pem in
      let (pems, h₄, e₄, f₄) = bind-returns (collecting u.pem h₃) _ f₃ in
      let (v, h₅, e₅, f₅) =
        bind-returns (load p h₄) (λ v. start_download env lib user_agent register p v pems d) f₄ in
      let (at_u, same_u) = load-returns p h₂ e₃ in
      let (at_v, same_v) = load-returns p h₄ e₅ in
      let d₁ = download h₄.fresh v.uri user_agent (opts_of v pems) d in
      let (answer, rest) =
        register_signature_lem depth p h₄.fresh v.pubkey v.sig_uri d₁ (with_instance p v h₄) r all
          (ap (start_download env lib user_agent register p v pems d) same_v ∙ f₅) in
      let prepared : IsPrepared depth p h pems v h₄ =
        (h₁, h₂, u, e₁, e₂, at_u, ap (collecting u.pem) same_u ∙ e₄, at_v) in
      (answer, pems, v, h₄, d₁, prepared, download-IsRequested v pems h₄.fresh user_agent d, rest)

  by_scheme :
      (depth p : ℕ) (u : UriObj) (d : Downloader) (h : Heap ℕ) (r : Registered) (is_local : Bool)
      {h' : Heap ℕ}
      → AllRegister depth
      → h.uris p ≡ some u
      → uri_is_local u ≡ is_local
      → (if is_local
            then pure (true, d)
            else register_remote env lib user_agent
                (uri_downloader_register env lib user_agent depth)
                depth
                p
                d)
          h
        ≡ returns r h'
      → (r.0 ≡ true) × IsRegistered (suc depth) p d h r.1
  by_scheme depth p u d h r true all at l e =
      let same = returns-value e in
      (sym (ap (λ x. x.0) same), (u, at, inl (l, sym (ap (λ x. x.1) same))))
  by_scheme depth p u d h r false all at l e =
      let (y, pems, v, k, d₁, prepared, requested, rest) =
        register_remote_lem depth p d h r all e in
      (y, (u, at, inr (l, pems, v, k, d₁, prepared, requested, rest)))

  -- Whenever `uri_downloader_register` comes back, its answer is true. A local object has then added
  -- nothing to the downloader. Any other has added an instance for its own text, settings and
  -- certificates, as the object was once these were collected; and if it has public keys, its signature
  -- has then been registered in the same way.
  pub uri_downloader_register-IsRegistered :
      (depth p : ℕ) (d : Downloader) (h : Heap ℕ) (r : Registered) (h' : Heap ℕ)
      → uri_downloader_register env lib user_agent depth p d h ≡ returns r h'
      → (r.0 ≡ true) × IsRegistered depth p d h r.1
  unfolding uri_downloader_register
  uri_downloader_register-IsRegistered zero p d h r h' e = cc
  uri_downloader_register-IsRegistered (suc depth) p d h r h' e =
      let (u, h₁, e₁, f₁) = bind-returns (load p h) _ e in
      let (at, same) = load-returns p h e₁ in
      let allowed = is_none u.download_instance && not u.finished in
      let (x, h₂, e₂, f₂) = bind-returns (assert allowed h₁) _ f₁ in
      let unchanged : h ≡ h₂ = same ∙ assert-same allowed h₁ h₂ e₂ in
      subst (λ k. (r.0 ≡ true) × IsRegistered (suc depth) p d k r.1) (sym unchanged)
        (by_scheme depth p u d h₂ r (uri_is_local u) (uri_downloader_register-IsRegistered depth)
          (subst (λ k. k.uris p ≡ some u) unchanged at) refl f₂)
    where
      assert-same : (b : Bool) (k k' : Heap ℕ) {x : Unit {0}} → assert b k ≡ returns x k' → k ≡ k'
      assert-same true k k' e = cc
      assert-same false k k' e = cc
