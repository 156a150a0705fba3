-- ===== src/Uri/Finish.antt =====
-- src/lib/uri.c: how an object gets its data and how the signature is checked, `uri_finish` and the
-- registration with a downloader. The files, the streams, base64, OpenSSL and the downloader are the
-- parameter `Env`.
use turris_updater.Base.{
  ℕ, zero, suc, Bool, true, false, not, ◌||◌, List, [], ◌∷◌, ◌++◌, Option, none, some, Bytes, codes,
  length, take, drop, bytes_eq, ltb, ◌==◌, if◌then◌else◌,
}
use turris_updater.Uri.State.{
  unfinished_download, download_fail, file_input_error, output_write_fail, sig_fail, verify_fail,
  Scheme, file, inline, UriObj, Output, to_file, to_memory, returns, dies, wild, too_deep, M,
  bind_outcome, ◌>>=◌, ◌>>◌, pure, assert, put, load, store, set_errno, fail,
}
use turris_updater.Uri.Canonize.{UriParser, uri_path, uri_is_local}
use turris_updater.Uri.Config.{is_none, uri_free, uri_set_sig}

pub record Env (K : Type 0) : Type 0 where
  -- What can be read of a file; `none` if it does not open.
  pub files : Bytes → Option Bytes
  -- How many of these bytes an output stream takes.
  pub taken : Bytes → ℕ
  -- Whether fputs gives a positive number: it may give 0 on success.
  pub fputs_positive : Bytes → Bool
  pub base64_decode : Bytes → Bytes
  -- download_pem and sign_pubkey
  pub load_pem : Bytes → Option K
  pub load_key : Bytes → Option K
  -- sign_verify, on the data, the signature and the keys
  pub sign_verify : Bytes → Bytes → List K → Bool

abbrev pub written : Output → Bytes
written (to_file bytes) = bytes
written (to_memory bytes) = bytes

abbrev pub add_bytes : Output → Bytes → Output
add_bytes (to_file bytes) more = to_file (bytes ++ more)
add_bytes (to_memory bytes) more = to_memory (bytes ++ more)

-- fflush: the memory stream sets `data` and `data_len`.
abbrev pub flushed : UriObj → UriObj
flushed u = elim u.output [
  | none ↦ u
  | some o ↦ elim o [ to_file bytes ↦ u | to_memory bytes ↦ record u { content = some bytes } ]
]

abbrev pub output_of : UriObj → Output
output_of u = elim u.output [ none ↦ to_memory [] | some o ↦ o ]

-- The bytes that are verified: `data`, or the mapped output file.
abbrev pub signed_data : UriObj → Bytes
signed_data u = elim u.content [ some bytes ↦ bytes | none ↦ written (output_of u) ]

-- mmap of an empty output file fails, and the assertion with it.
abbrev pub maps_nothing : UriObj → Bool
maps_nothing u = elim u.content [
  | some bytes ↦ false
  | none ↦ elim (written (output_of u)) [ [] ↦ true | b ∷ bs ↦ false ]
]

abbrev pub bytes_of : UriObj → Bytes
bytes_of u = elim u.content [ none ↦ [] | some bytes ↦ bytes ]

-- strncmp("base64", start, 6) == 0
unfoldable pub is_base64_param : Bytes → Bool
is_base64_param start = bytes_eq (codes "base64") (take 6 start)

-- strchr(start, ','), and the text behind it
unfoldable pub after_comma : Bytes → Option Bytes
after_comma [] = none
after_comma (c ∷ cs) = if c == b',' then some cs else after_comma cs

-- The loop over the parameters of a data URI: the flag and the start of the data.
unfoldable pub data_params : ℕ → Bool → Bytes → Option (Bool × Bytes)
unfolding after_comma is_base64_param
data_params zero is_base64 start = none
data_params (suc fuel) is_base64 start = elim (after_comma start) [
  | none ↦ some (is_base64, start)
  | some next ↦ data_params fuel (is_base64 || is_base64_param start) next
]

module _ {K : Type 0} (env : Env K) (lib : UriParser) where
  -- fwrite: what the stream does not take is an error.
  unfoldable pub write_output : ℕ → UriObj → Bytes → M K Bool
  write_output p u bytes =
      let count = env.taken bytes in
      if ltb count (length bytes)
      then (store p (record u { output = some (add_bytes (output_of u) (take count bytes)) })
          >> fail output_write_fail)
      else (store p (record u { output = some (add_bytes (output_of u) bytes) }) >> pure true)

  -- fputs, with what the stream then holds.
  unfoldable pub write_text : ℕ → UriObj → Bytes → M K Bool
  write_text p u text =
      if env.fputs_positive text
      then (store p (record u { output = some (add_bytes (output_of u) text) }) >> pure true)
      else (store p
            (record u { output = some (add_bytes (output_of u) (take (env.taken text) text)) })
          >> fail output_write_fail)

  unfoldable pub copy_file : ℕ → UriObj → Option Bytes → M K Bool
  unfolding write_output
  copy_file p u none = fail file_input_error
  copy_file p u (some bytes) = write_output p u bytes

  unfoldable pub copy_path : ℕ → UriObj → Option Bytes → M K Bool
  unfolding copy_file
  copy_path p u none = λ h. dies
  copy_path p u (some path) = copy_file p u (env.files path)

  unfoldable pub uri_finish_file : ℕ → UriObj → M K Bool
  unfolding copy_path uri_path
  uri_finish_file p u = copy_path p u (uri_path lib u)

  unfoldable pub finish_data : ℕ → UriObj → Option (Bool × Bytes) → M K Bool
  unfolding write_output write_text
  finish_data p u none = λ h. too_deep
  finish_data p u (some (true, start)) = write_output p u (env.base64_decode start)
  finish_data p u (some (false, start)) = write_text p u start

  -- `uri->uri + 5` is behind "data:".
  unfoldable pub uri_finish_data : ℕ → UriObj → M K Bool
  unfolding finish_data data_params
  uri_finish_data p u =
      let start = drop 5 u.uri in finish_data p u (data_params (suc (length start)) false start)

  -- The switch on the scheme of a local object.
  unfoldable pub finish_local : ℕ → UriObj → Scheme → M K Bool
  unfolding uri_finish_file uri_finish_data
  finish_local p u file = uri_finish_file p u
  finish_local p u inline = uri_finish_data p u
  finish_local p u _ = λ h. dies

  -- ensure_output
  unfoldable pub ensure_output : ℕ → M K (Unit {0})
  ensure_output p = do u ← load p; store p (record u { output = some (output_of u) })

  unfoldable pub ensure_default_signature : ℕ → ℕ → M K (Unit {0})
  unfolding uri_set_sig
  ensure_default_signature depth p = do
    u ← load p
    elim u.pubkey [
      | [] ↦ pure tt
      | n ∷ ns ↦ if is_none u.sig_uri then uri_set_sig lib depth p none >>= assert else pure tt
    ]

  -- One node of `list_pem_collect` and `list_pubkey_collect`: its object is finished once, and freed.
  unfoldable pub load_node :
      (ℕ → M K Bool) → (ℕ → M K (Unit {0})) → (Bytes → Option K) → ℕ → M K (Option K)
  load_node finish free_uri parse p h = elim (h.nodes p) [
    | none ↦ wild
    | some n ↦ elim n.uri [
      | none ↦ returns n.loaded h
      | some q ↦
          (do
            good ← finish q
            u ← load q
            let loaded =
                if good then elim u.content [ none ↦ none | some bytes ↦ parse bytes ] else n.loaded
            free_uri q
            λ h'. returns loaded (record h' {
              nodes = put h'.nodes p (some (record n { uri = none; loaded = loaded }));
            }))
            h
    ]
  ]

  abbrev pub cons_some : Option K → List K → List K
  cons_some none ks = ks
  cons_some (some k) ks = k ∷ ks

  unfoldable pub collect :
      (ℕ → M K Bool) → (ℕ → M K (Unit {0})) → (Bytes → Option K) → List ℕ → M K (List K)
  unfolding load_node
  collect finish free_uri parse [] = pure []
  collect finish free_uri parse (p ∷ ps) = do
    k ← load_node finish free_uri parse p
    ks ← collect finish free_uri parse ps
    pure (cons_some k ks)

  -- The end of `verify_signature`, with the signature's bytes and the keys at hand. `u` is the object as
  -- it was when the function began: the calls in between work on other objects.
  unfoldable pub check_signature : (ℕ → M K (Unit {0})) → ℕ → UriObj → ℕ → Bytes → List K → M K Bool
  check_signature free_uri p u q sign keys = do
    assert (not (maps_nothing u))
    let verified = env.sign_verify (signed_data u) sign keys
    (if verified then pure tt else set_errno verify_fail)
    free_uri q
    store p (record u { sig_uri = none })
    pure verified

  -- `uri_sub_errno = uri_errno; uri_sub_err_uri = uri->sig_uri; uri_errno = URI_E_SIG_FAIL;`
  abbrev pub fail_sig : ℕ → M K Bool
  fail_sig q h =
      returns false (record h { errno = some sig_fail; sub_errno = h.errno; sub_err_uri = some q })

  -- After `uri_finish` of the signature, with its answer.
  unfoldable pub verify_received :
      (ℕ → M K Bool) → (ℕ → M K (Unit {0})) → ℕ → UriObj → ℕ → Bool → M K Bool
  unfolding collect check_signature
  verify_received finish free_uri p u q false = fail_sig q
  verify_received finish free_uri p u q true = do
    s ← load q
    keys ← collect finish free_uri env.load_key u.pubkey
    check_signature free_uri p u q (bytes_of s) keys

  -- On the lists `pubkey` and the pointer `sig_uri` of the object.
  unfoldable pub verify_keys :
      (ℕ → M K Bool) → (ℕ → M K (Unit {0})) → ℕ → UriObj → List ℕ → Option ℕ → M K Bool
  unfolding verify_received
  verify_keys finish free_uri p u [] sig = pure true
  verify_keys finish free_uri p u (n ∷ ns) none = λ h. dies
  verify_keys finish free_uri p u (n ∷ ns) (some q) =
      finish q >>= λ good. verify_received finish free_uri p u q good

  unfoldable pub verify_signature : (ℕ → M K Bool) → (ℕ → M K (Unit {0})) → ℕ → M K Bool
  unfolding verify_keys
  verify_signature finish free_uri p = do
    u ← load p
    verify_keys finish free_uri p u u.pubkey u.sig_uri

  unfoldable pub finish_remote : ℕ → UriObj → M K Bool
  finish_remote p u h = elim u.download_instance [
    | none ↦ dies
    | some i ↦ elim (h.downloads i) [
      | none ↦ wild
      | some d ↦
          if not d.is_done
          then fail unfinished_download h
          else if not d.is_success
          then fail download_fail h
          else returns true (record h {
            downloads = put h.downloads i none;
            uris = put h.uris p (some (record u { download_instance = none }));
          })
    ]
  ]

  unfoldable pub retrieve_local : ℕ → ℕ → M K Bool
  unfolding ensure_output ensure_default_signature finish_local
  retrieve_local depth p = do
    ensure_output p
    ensure_default_signature depth p
    u ← load p
    finish_local p u u.scheme

  -- Up to the point where the data is there.
  unfoldable pub retrieve : ℕ → ℕ → UriObj → M K Bool
  unfolding retrieve_local finish_remote uri_is_local
  retrieve depth p u = if uri_is_local u then retrieve_local depth p else finish_remote p u

  unfoldable pub close_output : ℕ → Bool → M K Bool
  close_output p false = pure false
  close_output p true = do u ← load p; store p (record u { output = none }); pure true

  unfoldable pub seal_object : (ℕ → M K Bool) → (ℕ → M K (Unit {0})) → ℕ → UriObj → M K Bool
  unfolding verify_signature close_output
  seal_object finish free_uri p u h =
      bind_outcome
        (verify_signature finish free_uri p
          (record h { uris = put h.uris p (some (record (flushed u) { finished = true })) }))
        (close_output p)

  -- From `fflush(uri->output)` on.
  unfoldable pub seal : (ℕ → M K Bool) → (ℕ → M K (Unit {0})) → ℕ → M K Bool
  unfolding seal_object
  seal finish free_uri p = load p >>= seal_object finish free_uri p

  -- With the answer of the retrieval.
  unfoldable pub finish_retrieved : (ℕ → M K Bool) → (ℕ → M K (Unit {0})) → ℕ → Bool → M K Bool
  unfolding seal
  finish_retrieved finish free_uri p false = pure false
  finish_retrieved finish free_uri p true = seal finish free_uri p

  -- The data and length that the caller gets are `content` of the object.
  unfoldable pub uri_finish : ℕ → ℕ → M K Bool
  unfolding retrieve finish_retrieved uri_free
  uri_finish zero p = λ h. too_deep
  uri_finish (suc depth) p = do
    u ← load p
    if u.finished
        then pure true
        else retrieve depth p u >>= finish_retrieved (uri_finish depth) (uri_free depth) p
