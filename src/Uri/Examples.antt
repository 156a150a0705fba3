-- ===== src/Uri/Examples.antt =====
-- Runs of the model of src/lib/uri.c, and its theorems at concrete inputs. Keys are numbers.
use turris_updater.Base.{
  ℕ, ◌≡◌, refl, Bool, true, false, List, [], ◌∷◌, ◌++◌, Option, none, some, Bytes, codes, bytes_eq,
  drop, take, length, All, if◌then◌else◌, arith,
}
use turris_updater.Signature.Keys.{Crypto, sign_verify, verified, refused, sign_pubkey}
use turris_updater.Uri.State.{Scheme, inline, unknown, UriObj, Node, Heap, Outcome, returns, put}
use turris_updater.Uri.Lists.{list_refup, list_add, list_dealloc}
use turris_updater.Uri.Counting.{Counted, lists-Counted}
use turris_updater.Uri.Canonize.{UriParser, find_scheme, known_schemes, uri}
use turris_updater.Uri.Config.{uri_set_ssl_verify, uri_set_ca_pin, uri_set_ocsp}
use turris_updater.Uri.Finish.{Env, retrieve, uri_finish, data_params}
use turris_updater.Uri.Signed.{signing, IsAuthentic, uri_finish-IsAuthentic}
use turris_updater.Uri.Register.{Registered, uri_downloader_register}
use turris_updater.Uri.Registered.{IsRegistered, uri_downloader_register-IsRegistered}
use turris_updater.Download.State.{downloader_new}
use turris_updater.Uri.Retry.{RefusedIn, uri_finish_again}
use turris_updater.Uri.Settings.{settings_guarded, with_object, IsCreated, uri-IsCreated}
use turris_updater.Uri.Data.{joined, NoComma, any_base64, data_params_lem}

scheme_letters : find_scheme (codes "HtTpS") known_schemes ≡ Scheme.https
unfolding find_scheme
scheme_letters = refl

scheme_prefix : find_scheme (codes "httpx") known_schemes ≡ unknown
unfolding find_scheme
scheme_prefix = refl

base64_data : data_params 30 false (codes "base64,QQ==") ≡ some (true, codes "QQ==")
unfolding data_params bytes_eq
base64_data = refl

-- Every text is a path.
abbrev paths_only : UriParser
paths_only = record {
  Parsed = Bytes;
  parse = λ text. some text;
  scheme_of = λ text. none;
  add_base = λ text base. some (base ++ text);
  normalize = λ text. text;
  print = λ text. text;
  from_path = λ path. codes "file://" ++ path;
  to_path = λ text. some (drop 7 text);
  cwd = codes "/";
}

-- Every stream takes everything; `good` is the answer of the verification.
abbrev env_with : Bool → Env ℕ
env_with good = record {
  files = λ path. none;
  taken = λ bytes. length bytes;
  fputs_positive = λ bytes. true;
  base64_decode = λ bytes. bytes;
  load_pem = λ bytes. none;
  load_key = λ bytes. none;
  sign_verify = λ bytes sign keys. good;
}

abbrev object : Scheme → Bytes → List ℕ → Option ℕ → UriObj
object s text keys sig = record {
  scheme = s;
  finished = false;
  uri = text;
  output = none;
  content = none;
  download_instance = none;
  ssl_verify = true;
  ocsp = false;
  ca_pin = true;
  pem = [];
  pubkey = keys;
  sig_uri = sig;
}

abbrev index : UriObj
index = object inline (codes "data:,hello") (5 ∷ []) (some 2)

abbrev heap : Heap ℕ
heap = record {
  uris = put (put (λ _. none) 2 (some (object inline (codes "data:,sig") [] none))) 1 (some index);
  nodes = put (λ _. none) 5 (some (record { ref_count = 1; uri = none; loaded = some 7 }));
  downloads = λ _. none;
  fresh = 9;
  errno = none;
  sub_errno = none;
  sub_err_uri = none;
}

abbrev heap_of : {A : Type 0} → Outcome ℕ A → Heap ℕ
heap_of (returns a h) = h
heap_of _ = heap

-- A signature is good with a key if both have the same letter A behind the fingerprint.
abbrev plain : Crypto
plain = record {
  is_base64 = λ t. true;
  base64_decode = λ t. t;
  can_load = λ k. true;
  can_init = λ k. true;
  verify = λ key sig content. if bytes_eq (take 1 sig) (codes "A") then verified else refused;
}

-- The key and the signature stand in data URIs, and the data too.
abbrev signed_heap : Heap Bytes
signed_heap = record {
  uris =
      put
        (put
          (put (λ _. none) 3
            (some (
              object inline (codes "data:,c\nEdABCDEFGH01234567890123456789012345678901\n") []
                none)))
          2
          (some (
            object inline
              (codes
                "data:,c\nEdABCDEFGHAAAAAAAAAAAAAAAAAAAAAAAAAAAAAAAAAAAAAAAAAAAAAAAAAAAAAAAAAAAAAAAA\n")
              [] none)))
        1 (some index);
  nodes = put (λ _. none) 5 (some (record { ref_count = 1; uri = some 3; loaded = none }));
  downloads = λ _. none;
  fresh = 9;
  errno = none;
  sub_errno = none;
  sub_err_uri = none;
}

abbrev base : Env Bytes
base = record {
  files = λ path. none;
  taken = λ bytes. length bytes;
  fputs_positive = λ bytes. true;
  base64_decode = λ bytes. bytes;
  load_pem = λ bytes. none;
  load_key = λ bytes. none;
  sign_verify = λ bytes sign keys. false;
}

signed_after : Heap Bytes
unfolding uri_finish
signed_after = elim (uri_finish (signing plain base) paths_only 2 1 signed_heap) [
  | returns a h ↦ h
  | _ ↦ signed_heap
]

signed_run : uri_finish (signing plain base) paths_only 2 1 signed_heap ≡ returns true signed_after
unfolding uri_finish signed_after bytes_eq sign_verify sign_pubkey
signed_run = refl

uri_finish-IsAuthentic_example :
    (h₁ : Heap Bytes) × (retrieve (signing plain base) paths_only 1 1 index signed_heap
      ≡ returns true h₁)
    × IsAuthentic plain base paths_only 1 1 h₁ (signed_after.uris 1)
uri_finish-IsAuthentic_example =
    uri_finish-IsAuthentic plain base paths_only 1 1 signed_heap index signed_after refl refl
      signed_run

after_first : Bool → Heap ℕ
unfolding uri_finish
after_first good = heap_of (uri_finish (env_with good) paths_only 2 1 heap)

accepted : uri_finish (env_with true) paths_only 2 1 heap ≡ returns true (after_first true)
unfolding uri_finish after_first bytes_eq
accepted = refl

refused_run : uri_finish (env_with false) paths_only 2 1 heap ≡ returns false (after_first false)
unfolding uri_finish after_first bytes_eq
refused_run = refl

uri_finish_again_example :
    (uri_finish (env_with false) paths_only 1 1 (after_first false)
      ≡ returns true (after_first false))
    × (h₁ : Heap ℕ) × (retrieve (env_with false) paths_only 1 1 index heap ≡ returns true h₁)
    × RefusedIn (env_with false) paths_only 1 h₁ ((after_first false).uris 1)
unfolding after_first uri_finish bytes_eq
uri_finish_again_example =
    uri_finish_again (env_with false) paths_only 1 0 1 heap index (after_first false) refl refl
      refused_run refl

settings_guarded_run :
    (uri_set_ssl_verify 1 false heap
      ≡ returns tt (with_object heap 1 (record index { ssl_verify = false })))
    × (uri_set_ca_pin 1 false heap
        ≡ returns tt (with_object heap 1 (record index { ca_pin = false })))
    × (uri_set_ocsp 1 false heap ≡ returns tt (with_object heap 1 (record index { ocsp = false })))
settings_guarded_run = settings_guarded 1 false index heap refl

child_heap : Heap ℕ
unfolding uri
child_heap = heap_of (uri paths_only (codes "/a") (some 1) heap)

heap-Counted : Counted heap.nodes ([] ∷ (5 ∷ []) ∷ [])
heap-Counted = record { exact = λ p. ground arith; live = λ p n e. ground arith }

uri-IsCreated_example : IsCreated index [] heap (some 9) child_heap
unfolding child_heap uri
uri-IsCreated_example =
    uri-IsCreated paths_only (codes "/a") 1 index [] heap (some 9) child_heap refl heap-Counted refl

abbrev two_nodes : ℕ → Option (Node ℕ)
two_nodes = put (λ _. none) 5 (some (record { ref_count = 2; uri = none; loaded = some 7 }))

two_nodes-Counted : Counted two_nodes ((5 ∷ []) ∷ (5 ∷ []) ∷ [])
two_nodes-Counted = record { exact = λ p. ground arith; live = λ p n e. ground arith }

lists-Counted_example :
    Counted (list_refup (5 ∷ []) two_nodes) ((5 ∷ []) ∷ (5 ∷ []) ∷ (5 ∷ []) ∷ [])
    × Counted (list_add 6 two_nodes) ((6 ∷ 5 ∷ []) ∷ (5 ∷ []) ∷ [])
    × Counted (list_dealloc (5 ∷ []) two_nodes) ((5 ∷ []) ∷ [])
lists-Counted_example = lists-Counted two_nodes (5 ∷ []) ((5 ∷ []) ∷ []) 6 two_nodes-Counted refl

data_params_lem_run :
    (ps : List Bytes) × (last : Bytes) × (joined ps last ≡ codes "x,y")
    × All NoComma ps
    × NoComma last
    × (data_params 4 false (codes "x,y") ≡ some (any_base64 ps last, last))
data_params_lem_run = data_params_lem 4 false (codes "x,y") (omega arith)

-- The package list and its signature are both downloaded.
abbrev remote : UriObj
remote = object Scheme.https (codes "https://a/Packages") (5 ∷ []) (some 2)

abbrev remote_heap : Heap ℕ
remote_heap = record heap {
  uris =
      put (put (λ _. none) 2 (some (object Scheme.https (codes "https://a/sig") [] none))) 1
        (some remote);
}

remote_registered : Registered × Heap ℕ
unfolding uri_downloader_register
remote_registered =
    elim (uri_downloader_register (env_with true) paths_only (codes "u") 2 1 downloader_new
      remote_heap) [ returns r h ↦ (r, h) | _ ↦ ((false, downloader_new), remote_heap) ]

remote_run :
    uri_downloader_register (env_with true) paths_only (codes "u") 2 1 downloader_new remote_heap
    ≡ returns remote_registered.0 remote_registered.1
unfolding uri_downloader_register remote_registered
remote_run = refl

two_downloads : remote_registered.0.1.instances ≡ 9 ∷ 10 ∷ []
unfolding remote_registered uri_downloader_register
two_downloads = refl

uri_downloader_register-IsRegistered_example :
    (remote_registered.0.0 ≡ true)
    × IsRegistered
        (env_with true)
        paths_only
        (codes "u")
        2
        1
        downloader_new
        remote_heap
        remote_registered.0.1
uri_downloader_register-IsRegistered_example =
    uri_downloader_register-IsRegistered (env_with true) paths_only (codes "u") 2 1 downloader_new
      remote_heap remote_registered.0 remote_registered.1 remote_run
