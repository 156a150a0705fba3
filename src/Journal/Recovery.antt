-- ===== src/Journal/Recovery.antt =====
-- What `journal_read` makes of the bytes that `journal_write` lays out.
use mathlib.Core.List.{map}
use turris_updater.Base.{
  ℕ, ◌+◌, ◌*◌, ◌%◌, ◌^◌, ◌<◌, ◌≡◌, refl, ◌∙◌, List, [], ◌∷◌, ◌++◌, Option, some, Bytes, length,
  append_assoc, append-nil, length-append, take-append_self, drop-append_self, arith,
}
use turris_updater.Journal.Format.{
  Header, le16, le32, magic, param_len, fill_params, make_header, header_bytes, record_bytes,
  lens_region, body_region,
}
use turris_updater.Journal.Read.{
  parse_header, magic_tail, read_lens, read_params, loaded, finish_params, read_body, one,
}

-- The loop that fills the message lays the lengths out before the bytes.
fill_params-regions :
    (params : List Bytes) (lens body : Bytes)
    → fill_params lens body params ≡ (lens ++ lens_region params) ++ (body ++ body_region params)
unfolding fill_params lens_region body_region
fill_params-regions [] lens body = rw (append-nil lens, append-nil body)
fill_params-regions (p ∷ ps) lens body =
    fill_params-regions ps (lens ++ le32 (length p % 2 ^ 32)) (body ++ p)
    ∙ rw (append_assoc lens, append_assoc body)

pub length-lens_region : (params : List Bytes) → length (lens_region params) ≡ 4 * length params
unfolding lens_region
length-lens_region [] = omega arith
length-lens_region (p ∷ ps) = omega (arith, length-lens_region ps)

pub length-regions :
    (params : List Bytes)
    → length (lens_region params) + length (body_region params) ≡ param_len params
unfolding lens_region body_region param_len
length-regions [] = omega arith
length-regions (p ∷ ps) = omega (arith, length-append p (body_region ps), length-regions ps)

-- The record as it stands in the file.
pub record_bytes-regions :
    (type : ℕ) (params : List Bytes)
    → record_bytes type params
      ≡ header_bytes (make_header type params)
        ++ ((lens_region params ++ body_region params)
            ++ le16 (make_header type params).magic_value)
unfolding record_bytes
record_bytes-regions type params = rw (fill_params-regions params [] [])

pub magic-lt : (n : ℕ) → magic n < 65536
unfolding magic
magic-lt n = omega arith

-- The record fits its header: `uint8_t`, `uint8_t` and `uint32_t`.
pub record Fits (type : ℕ) (params : List Bytes) : Type 0 where
  pub type_fits : type < 256
  pub count_fits : length params < 256
  pub size_fits : param_len params < 2 ^ 32

pub parse_header-header_bytes :
    (h : Header)
    → h.magic_value < 65536
    → h.total_size < 2 ^ 32
    → parse_header (header_bytes h) ≡ some h
unfolding parse_header header_bytes
parse_header-header_bytes h m t = ground arith

pub length-header_bytes : (h : Header) → length (header_bytes h) ≡ 8
unfolding header_bytes
length-header_bytes h = refl

read_lens-lens_region :
    (params : List Bytes) (rest : Bytes)
    → param_len params < 2 ^ 32
    → read_lens (length params) (lens_region params ++ rest) ≡ some (map length params, rest)
unfolding read_lens lens_region param_len
read_lens-lens_region [] rest h = refl
read_lens-lens_region (p ∷ ps) rest h = ground (arith, read_lens-lens_region ps rest)

magic_tail-le16 : (m : ℕ) → m < 65536 → magic_tail (le16 m) ≡ some m
unfolding magic_tail
magic_tail-le16 m h = ground arith

module _ {ℓ} {V : Type ℓ} (load : Bytes → Option V) (dump : V → Bytes)
    (load-dump : (v : V) → load (dump v) ≡ some v) where
  read_params-body_region :
      (vs : List V) (pos : ℕ) (tail : Bytes) (done : List V)
      → read_params load (map length (map dump vs)) pos (body_region (map dump vs) ++ tail) done
        ≡ loaded (done ++ vs) (pos + length (body_region (map dump vs)))
  unfolding read_params body_region
  read_params-body_region [] pos tail done = ground (arith, append-nil done)
  read_params-body_region (v ∷ vs) pos tail done =
      let body = body_region (map dump vs) in
      ground (
        arith,
        append_assoc (dump v) body tail,
        length-append (dump v) (body ++ tail),
        length-append (dump v) body,
        take-append_self (dump v) (body ++ tail),
        drop-append_self (dump v) (body ++ tail),
        load-dump v,
        append_assoc done (v ∷ []) vs,
        read_params-body_region vs (pos + length (dump v)) tail (done ++ v ∷ []),
      )

  pub read_body-record :
      (h : Header) (vs : List V) (rest : Bytes)
      → h.param_count ≡ length (map dump vs)
      → h.total_size ≡ param_len (map dump vs)
      → h.magic_value < 65536
      → param_len (map dump vs) < 2 ^ 32
      → read_body load h
          ((lens_region (map dump vs) ++ body_region (map dump vs)) ++ le16 h.magic_value)
          rest
        ≡ one (record { type = h.record_type; params = vs }) rest
  unfolding read_body finish_params
  read_body-record h vs rest c t m s =
      let params = map dump vs in
      let lens = lens_region params in
      let body = body_region params in
      ground (
        arith,
        length-append lens body,
        length-regions params,
        length-lens_region params,
        drop-append_self (lens ++ body) (le16 h.magic_value),
        magic_tail-le16 h.magic_value m,
        append_assoc lens body (le16 h.magic_value),
        read_lens-lens_region params (body ++ le16 h.magic_value) s,
        read_params-body_region vs (4 * h.param_count) (le16 h.magic_value) [],
      )
