-- ===== src/Uri/Register.antt =====
-- src/lib/uri.c: `uri_downloader_register`, with the downloader of src/lib/download.c. A key or
-- certificate is its address, and the instance of a download stands at a fresh one.
use turris_updater.Base.{
  ℕ, zero, suc, Bool, true, false, not, ◌&&◌, List, [], ◌∷◌, Option, none, some, Bytes,
  if◌then◌else◌,
}
use turris_updater.Uri.State.{
  sig_fail, UriObj, M, ◌>>=◌, ◌>>◌, returns, wild, too_deep, pure, assert, put, load,
}
use turris_updater.Uri.Canonize.{UriParser, uri_is_local}
use turris_updater.Uri.Config.{is_none, uri_free}
use turris_updater.Uri.Finish.{Env, ensure_output, ensure_default_signature, collect, uri_finish}
use turris_updater.Download.State
use turris_updater.Download.State.{
  Opts, ca_null, download_opts_def, Downloader, download, download_i_free,
}

-- download_opts_def and what is set behind it.
abbrev pub opts_of : UriObj → List ℕ → Opts
opts_of u pems = record download_opts_def {
  ssl_verify = u.ssl_verify;
  ocsp = u.ocsp;
  pems = some pems;
  cacert_file = if u.ca_pin then ca_null else download_opts_def.cacert_file;
  capath = if u.ca_pin then ca_null else download_opts_def.capath;
}

-- The answer and the downloader.
abbrev pub Registered : Type 0
Registered = Bool × Downloader

abbrev pub set_instance : ℕ → UriObj → M ℕ (Unit {0})
set_instance p u h =
    let a = h.fresh in
    returns tt (record h {
      uris = put h.uris p (some (record u { download_instance = some a }));
      downloads = put h.downloads a (some (record { is_done = false; is_success = false }));
      fresh = suc a;
    })

-- `download_i_free`, and false.
unfoldable pub given_up : ℕ → ℕ → ℕ → Downloader → M ℕ Registered
unfolding download_i_free
given_up p q a d h = elim (download_i_free a d) [
  | State.returns d' ↦
      (do
        u ← load p
        λ h'.
            returns (false, d')
              (record h' {
                uris = put h'.uris p (some (record u { download_instance = none }));
                downloads = put h'.downloads a none;
                errno = some sig_fail;
                sub_errno = h'.errno;
                sub_err_uri = some q;
              }))
        h
  | _ ↦ wild
]

-- With the answer for the signature.
abbrev pub after_signature : ℕ → ℕ → ℕ → Registered → M ℕ Registered
after_signature p q a (true, d) = pure (true, d)
after_signature p q a (false, d) = given_up p q a d

abbrev pub register_signature :
    (ℕ → Downloader → M ℕ Registered) → ℕ → ℕ → List ℕ → Option ℕ → Downloader → M ℕ Registered
register_signature register p a [] sig d = pure (true, d)
register_signature register p a (n ∷ ns) none d = λ h. wild
register_signature register p a (n ∷ ns) (some q) d = register q d >>= after_signature p q a

module _ (env : Env ℕ) (lib : UriParser) (user_agent : Bytes) where
  -- From the collected certificates on.
  unfoldable pub start_download :
      (ℕ → Downloader → M ℕ Registered) → ℕ → UriObj → List ℕ → Downloader → M ℕ Registered
  unfolding download given_up
  start_download register p u pems d h =
      (set_instance p u
          >> register_signature register p h.fresh u.pubkey u.sig_uri
              (download h.fresh u.uri user_agent (opts_of u pems) d))
        h

  unfoldable pub register_remote :
      (ℕ → Downloader → M ℕ Registered) → ℕ → ℕ → Downloader → M ℕ Registered
  unfolding ensure_output ensure_default_signature collect uri_finish uri_free start_download
  register_remote register depth p d = do
    ensure_output env lib p
    ensure_default_signature env lib depth p
    u ← load p
    pems ← collect env lib (uri_finish env lib depth) (uri_free depth) env.load_pem u.pem
    v ← load p
    start_download register p v pems d

  -- `depth` bounds the signatures of signatures.
  unfoldable pub uri_downloader_register : ℕ → ℕ → Downloader → M ℕ Registered
  unfolding register_remote uri_is_local
  uri_downloader_register zero p d = λ h. too_deep
  uri_downloader_register (suc depth) p d = do
    u ← load p
    assert (is_none u.download_instance && not u.finished)
    if uri_is_local u
        then pure (true, d)
        else register_remote (uri_downloader_register depth) depth p d
