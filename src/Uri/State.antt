-- ===== src/Uri/State.antt =====
-- src/lib/uri.c and uri.h: the objects behind `uri_t`, their lists of local URIs and the error
-- variables. A pointer is a number; a list of `uri_local_list` is the list of its nodes, whose `next`
-- never changes once `list_add` has set it.
use turris_updater.Base.{ℕ, Bool, true, false, List, Option, none, some, Bytes, ◌==◌, if◌then◌else◌}

-- enum uri_error
pub data UriError : Type 0 where
  invalid_uri unknown_scheme unfinished_download download_fail file_input_error output_open_fail :
      UriError
  output_write_fail sig_fail verify_fail nonlocal : UriError

-- enum uri_scheme
pub data Scheme : Type 0 where
  http https file inline unknown : Scheme

-- `FILE *output` with what was written to it: a file, or the stream over `data` and `data_len`.
pub data Output : Type 0 where
  to_file : Bytes → Output
  to_memory : Bytes → Output

-- struct uri
pub record UriObj : Type 0 where
  pub scheme : Scheme
  pub finished : Bool
  pub uri : Bytes
  pub output : Option Output
  pub content : Option Bytes
  pub download_instance : Option ℕ
  pub ssl_verify : Bool
  pub ocsp : Bool
  pub ca_pin : Bool
  pub pem : List ℕ
  pub pubkey : List ℕ
  pub sig_uri : Option ℕ

-- struct uri_local_list; `loaded` is the union `dt`, with null as `none`.
pub record Node (K : Type 0) : Type 0 where
  pub ref_count : ℕ
  pub uri : Option ℕ
  pub loaded : Option K

-- struct download_i, as far as this file reads it
pub record Download : Type 0 where
  pub is_done : Bool
  pub is_success : Bool

pub record Heap (K : Type 0) : Type 0 where
  pub uris : ℕ → Option UriObj
  pub nodes : ℕ → Option (Node K)
  pub downloads : ℕ → Option Download
  pub fresh : ℕ
  pub errno : Option UriError
  pub sub_errno : Option UriError
  pub sub_err_uri : Option ℕ

-- `dies` is a failed assertion, `wild` the use of a pointer to nothing, `too_deep` a nesting of
-- signatures and keys beyond the bound given to the call.
pub data Outcome (K : Type 0) (A : Type 0) : Type 0 where
  returns : A → Heap K → Outcome K A
  dies : Outcome K A
  wild : Outcome K A
  too_deep : Outcome K A

abbrev pub M : Type 0 → Type 0 → Type 0
M K A = Heap K → Outcome K A

abbrev pub bind_outcome : {K A B : Type 0} → Outcome K A → (A → M K B) → Outcome K B
bind_outcome (returns a h) f = f a h
bind_outcome dies f = dies
bind_outcome wild f = wild
bind_outcome too_deep f = too_deep

infixl 5 ◌>>=◌ ◌>>◌
abbrev pub ◌>>=◌ : {K A B : Type 0} → M K A → (A → M K B) → M K B
◌>>=◌ m f h = bind_outcome (m h) f

abbrev pub ◌>>◌ : {K B : Type 0} → M K (Unit {0}) → M K B → M K B
m >> k = m >>= λ _. k

abbrev pub pure : {K A : Type 0} → A → M K A
pure a h = returns a h

abbrev pub assert : {K : Type 0} → Bool → M K (Unit {0})
assert true h = returns tt h
assert false h = dies

abbrev pub put : {A : Type 0} → (ℕ → Option A) → ℕ → Option A → ℕ → Option A
put f p v q = if q == p then v else f q

module _ {K : Type 0} where
  abbrev pub load : ℕ → M K UriObj
  load p h = elim (h.uris p) [ none ↦ wild | some u ↦ returns u h ]

  abbrev pub store : ℕ → UriObj → M K (Unit {0})
  store p u h = returns tt (record h { uris = put h.uris p (some u) })

  abbrev pub set_errno : UriError → M K (Unit {0})
  set_errno e h = returns tt (record h { errno = some e })

  -- `uri_errno = e; return false;`
  abbrev pub fail : UriError → M K Bool
  fail e h = returns false (record h { errno = some e })
