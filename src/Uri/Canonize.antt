-- ===== src/Uri/Canonize.antt =====
-- src/lib/uri.c: `canonize_uri`, `uri`, and the functions that only read an object. The library
-- uriparser and the working directory are a parameter.
use Prim.Native.Nat.{compare, Ordering}
use turris_updater.Base.{
  ℕ, suc, ◌+◌, Bool, true, false, ◌&&◌, List, [], ◌∷◌, ◌++◌, Option, none, some, Bytes, codes,
  length, leb, ◌==◌, if◌then◌else◌,
}
use turris_updater.Uri.State.{
  UriError, invalid_uri, unknown_scheme, Scheme, http, https, file, inline, unknown, UriObj,
  returns, dies, wild, M, put,
}
use turris_updater.Uri.Lists.{list_refup}

-- schemes_table
unfoldable pub uri_scheme_string : Scheme → Bytes
uri_scheme_string http = codes "http"
uri_scheme_string https = codes "https"
uri_scheme_string file = codes "file"
uri_scheme_string inline = codes "data"
uri_scheme_string unknown = codes "?"

unfoldable pub to_lower : ℕ → ℕ
to_lower c = if leb b'A' c && leb c b'Z' then c + 32 else c

-- ! strncasecmp(a, b, n) for two texts of the same length n
unfoldable pub same_letters : Bytes → Bytes → Bool
unfolding to_lower
same_letters [] [] = true
same_letters (x ∷ a) (y ∷ b) = elim (compare (to_lower x) (to_lower y)) [
  | Ordering.eq ↦ same_letters a b
  | _ ↦ false
]
same_letters _ _ = false

-- The loop over `schemes_table`, up to URI_S_UNKNOWN.
unfoldable pub find_scheme : Bytes → List Scheme → Scheme
unfolding same_letters uri_scheme_string
find_scheme text [] = unknown
find_scheme text (s ∷ ss) =
    if length (uri_scheme_string s) == length text && same_letters (uri_scheme_string s) text
    then s
    else find_scheme text ss

abbrev pub known_schemes : List Scheme
known_schemes = http ∷ https ∷ file ∷ inline ∷ []

abbrev pub scheme_eq : Scheme → Scheme → Bool
scheme_eq http http = true
scheme_eq https https = true
scheme_eq file file = true
scheme_eq inline inline = true
scheme_eq unknown unknown = true
scheme_eq _ _ = false

-- uriparser, and what `default_file_parent` makes of the working directory. `add_base` is `none` where
-- it answers anything but URI_SUCCESS.
pub record UriParser : Type 1 where
  pub Parsed : Type 0
  pub parse : Bytes → Option Parsed
  pub scheme_of : Parsed → Option Bytes
  pub add_base : Parsed → Parsed → Option Parsed
  pub normalize : Parsed → Parsed
  pub print : Parsed → Bytes
  pub from_path : Bytes → Bytes
  pub to_path : Bytes → Option Bytes
  pub cwd : Bytes

-- What `canonize_uri` leaves: the scheme and the text, an error, or a failed assertion.
pub data Canonized : Type 0 where
  canonized : Scheme → Bytes → Canonized
  refused : UriError → Canonized
  asserts : Canonized

-- The scheme of the text, that of the parent, or that of a path.
unfoldable pub identify : Option Bytes → Option UriObj → Scheme
unfolding find_scheme
identify (some text) parent = find_scheme text known_schemes
identify none (some p) = p.scheme
identify none none = file

module _ (lib : UriParser) where
  open lib use {Parsed, parse, scheme_of, add_base, normalize, print, from_path, cwd}

  unfoldable pub default_file_parent : Bytes
  default_file_parent = from_path cwd ++ b'/' ∷ []

  -- The parent's text that counts: only one of the same scheme does.
  unfoldable pub base_of : Scheme → Option UriObj → Option Bytes
  unfolding default_file_parent
  base_of s (some p) =
      if scheme_eq s p.scheme
      then some p.uri
      else if scheme_eq s file
      then some default_file_parent
      else none
  base_of s none = if scheme_eq s file then some default_file_parent else none

  unfoldable pub resolve : Parsed → Option Bytes → Option Parsed
  resolve p none = some p
  resolve p (some base) = elim (parse base) [ none ↦ none | some b ↦ add_base p b ]

  unfoldable pub canonize_as : Scheme → Parsed → Option UriObj → Canonized
  unfolding base_of resolve
  canonize_as unknown p parent = refused unknown_scheme
  canonize_as s p parent = elim (resolve p (base_of s parent)) [
    | none ↦ asserts
    | some q ↦ canonized s (print (normalize q))
  ]

  unfoldable pub canonize_uri : Bytes → Option UriObj → Canonized
  unfolding identify canonize_as
  canonize_uri text parent = elim (parse text) [
    | none ↦ refused invalid_uri
    | some p ↦ canonize_as (identify (scheme_of p) parent) p parent
  ]

  -- The new object: the macros SET and SET_LIST take the settings from the parent.
  unfoldable pub new_object : Scheme → Bytes → Option UriObj → UriObj
  new_object s text none = record {
    scheme = s;
    finished = false;
    uri = text;
    output = none;
    content = none;
    download_instance = none;
    ssl_verify = true;
    ocsp = true;
    ca_pin = false;
    pem = [];
    pubkey = [];
    sig_uri = none;
  }
  new_object s text (some p) = record {
    scheme = s;
    finished = false;
    uri = text;
    output = none;
    content = none;
    download_instance = none;
    ssl_verify = p.ssl_verify;
    ocsp = p.ocsp;
    ca_pin = p.ca_pin;
    pem = p.pem;
    pubkey = p.pubkey;
    sig_uri = none;
  }

  module _ {K : Type 0} where
    unfoldable pub make_uri : Canonized → Option UriObj → M K (Option ℕ)
    unfolding new_object list_refup
    make_uri (canonized s text) parent h =
        let u = new_object s text parent in
        returns (some h.fresh) (record h {
          uris = put h.uris h.fresh (some u);
          nodes = list_refup u.pubkey (list_refup u.pem h.nodes);
          fresh = suc h.fresh;
        })
    make_uri (refused e) parent h = returns none (record h { errno = some e })
    make_uri asserts parent h = dies

    -- `uri(uri_str, parent)`
    unfoldable pub uri : Bytes → Option ℕ → M K (Option ℕ)
    unfolding canonize_uri make_uri
    uri text none h = make_uri (canonize_uri text none) none h
    uri text (some p) h = elim (h.uris p) [
      | none ↦ wild
      | some parent ↦ make_uri (canonize_uri text (some parent)) (some parent) h
    ]

  -- The Unix path of an object of scheme file. `none` is a failed assertion.
  unfoldable pub uri_path : UriObj → Option Bytes
  uri_path u = if scheme_eq u.scheme file then lib.to_path u.uri else none

unfoldable pub is_local_scheme : Scheme → Bool
is_local_scheme file = true
is_local_scheme inline = true
is_local_scheme _ = false

unfoldable pub uri_is_local : UriObj → Bool
unfolding is_local_scheme
uri_is_local u = is_local_scheme u.scheme
