-- ===== src/Signature/Loaded.antt =====
-- src/lib/signature.c: a key file that is written is loaded again.
use turris_updater.Base.{
  ℕ, ◌≡◌, refl, ap, ◌∙◌, true, false, [], ◌∷◌, ◌++◌, none, some, Bytes, All, codes, bytes_eq_refl,
  length, ◌==◌, ==_refl, Bool-cases, inl, inr, arith,
}
use turris_updater.Signature.Keys.{
  Crypto, pkalg, loaded, check_key, load_line, load_behind, behind_feed, until_feed,
  key_load_generic,
}

abbrev pub HasNoFeed : Bytes → Type 0
HasNoFeed line = All (λ c. (c == b'\n') ≡ false) line

-- The file of a key: a comment, and the key as text.
abbrev pub key_file : (Bytes → Bytes) → Bytes → Bytes → Bytes
key_file encode comment key = comment ++ (codes "\n" ++ (encode key ++ codes "\n"))

pub behind_feed-HasNoFeed : (line : Bytes) → behind_feed line ≡ none → HasNoFeed line
unfolding behind_feed
behind_feed-HasNoFeed [] h = tt
behind_feed-HasNoFeed (c ∷ cs) h = elim (Bool-cases (c == b'\n')) [
  | inl y ↦ ground arith
  | inr n ↦ (n, behind_feed-HasNoFeed cs (ground arith))
]

behind_feed-line :
    (line rest : Bytes) → HasNoFeed line → behind_feed (line ++ b'\n' ∷ rest) ≡ some rest
unfolding behind_feed
behind_feed-line [] rest h = refl
behind_feed-line (c ∷ cs) rest h = ground (arith, h.0, behind_feed-line cs rest h.1)

until_feed-line : (line rest : Bytes) → HasNoFeed line → until_feed (line ++ b'\n' ∷ rest) ≡ line
unfolding until_feed
until_feed-line [] rest h = refl
until_feed-line (c ∷ cs) rest h = ground (arith, h.0, until_feed-line cs rest h.1)

-- On a key, the encoding goes with the decoding of the parameter.
abbrev pub IsEncoding : Crypto → (Bytes → Bytes) → Bytes → Type 0
IsEncoding crypto encode key =
    HasNoFeed (encode key)
    × (crypto.is_base64 (encode key) ≡ true)
    × (crypto.base64_decode (encode key) ≡ key)

check_key-good :
    (crypto : Crypto) (n : ℕ) (key : Bytes)
    → length key ≡ n
    → pkalg key ≡ codes "Ed"
    → check_key crypto n key ≡ loaded key
unfolding check_key
check_key-good crypto n key l p = ground (arith, l, p, ==_refl n, bytes_eq_refl (codes "Ed"))

-- A key or signature file is loaded as it was written: if the comment has no line feed, the text is an
-- encoding that base64 decodes, and the key has the size and the algorithm "Ed".
pub key_load_generic-file :
    (crypto : Crypto) (encode : Bytes → Bytes) (n : ℕ) (comment key : Bytes)
    → HasNoFeed comment
    → IsEncoding crypto encode key
    → length key ≡ n
    → pkalg key ≡ codes "Ed"
    → key_load_generic crypto (key_file encode comment key) n ≡ loaded key
unfolding key_load_generic load_behind load_line
key_load_generic-file crypto encode n comment key c (f, b, d) l p =
    ap (load_behind crypto n) (behind_feed-line comment (encode key ++ codes "\n") c)
    ∙ ap (load_line crypto n) (until_feed-line (encode key) [] f)
    ∙ ground (arith, b, d, check_key-good crypto n key l p)
