-- ===== src/Signature/Examples.antt =====
-- Runs of src/lib/signature.c.
use turris_updater.Base.{◌≡◌, refl, true, false, [], ◌∷◌, Bytes, bytes_eq, codes, if◌then◌else◌}
use turris_updater.Signature.Keys.{
  no_error, no_matching_key, verified, refused, Crypto, loaded, behind_feed, key_load_generic,
  sign_verify,
}
use turris_updater.Signature.Accepted.{IsSigned, sign_verify-IsJustified}
use turris_updater.Signature.Loaded.{behind_feed-HasNoFeed, key_load_generic-file}

-- Text that stands for itself, and signatures that are good if they start with an A.
abbrev plain : Crypto
plain = record {
  is_base64 = λ t. true;
  base64_decode = λ t. t;
  can_load = λ k. true;
  can_init = λ k. true;
  verify = λ key sig content. elim sig [
    | [] ↦ refused
    | c ∷ cs ↦ if bytes_eq (c ∷ []) (codes "A") then verified else refused
  ];
}

-- A key of 42 bytes and a signature of 74.
abbrev key : Bytes
key = codes "EdABCDEFGH01234567890123456789012345678901"

abbrev sig : Bytes
sig = codes "EdABCDEFGHAAAAAAAAAAAAAAAAAAAAAAAAAAAAAAAAAAAAAAAAAAAAAAAAAAAAAAAAAAAAAAAA"

key_load_generic-file_run :
    key_load_generic plain (codes "comment\nEdABCDEFGH01234567890123456789012345678901\n") 42
    ≡ loaded key
unfolding behind_feed
key_load_generic-file_run =
    key_load_generic-file plain (λ k. k) 42 (codes "comment") key
      (behind_feed-HasNoFeed (codes "comment") refl) (behind_feed-HasNoFeed key refl, refl, refl)
      refl refl

abbrev sign : Bytes
sign = codes "c\nEdABCDEFGHAAAAAAAAAAAAAAAAAAAAAAAAAAAAAAAAAAAAAAAAAAAAAAAAAAAAAAAAAAAAAAAA\n"

sign_verify-IsJustified_example :
    IsSigned plain (codes "data") sign (key ∷ []) × (no_error ≡ no_error)
unfolding sign_verify bytes_eq
sign_verify-IsJustified_example =
    sign_verify-IsJustified plain no_error (codes "data") sign (key ∷ [])

no_key : sign_verify plain no_error (codes "data") sign [] ≡ (false, no_matching_key)
unfolding sign_verify bytes_eq
no_key = refl
