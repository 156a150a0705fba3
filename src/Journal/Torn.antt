-- ===== src/Journal/Torn.antt =====
-- `journal_read` on a whole record of `journal_write`, and on one that was cut.
use mathlib.Core.List.{map}
use native.Mathlib.Decide.{dec_lt}
use turris_updater.Base.{
  ℕ, zero, suc, ◌+◌, ◌≤◌, ◌<◌, ◌≡◌, refl, ◌∙◌, sym, ap, List, [], ◌∷◌, ◌++◌, Option, some, Bytes,
  length, take, drop, append_assoc, length-append, length-drop, take-append_self, drop-append_self,
  arith,
}
use turris_updater.Journal.Format.{
  Header, le16, magic, param_len, make_header, header_bytes, record_bytes, lens_region, body_region,
}
use turris_updater.Journal.Read.{ReadAnswer, read_rest, journal_read, one, broken}
use turris_updater.Journal.Loops.{patience, do_read_lem}
use turris_updater.Journal.Recovery.{
  Fits, length-regions, record_bytes-regions, magic-lt, parse_header-header_bytes,
  length-header_bytes, read_body-record,
}

take-append_le {ℓ} :
    {A : Type ℓ} (n : ℕ) (xs ys : List A) → n ≤ length xs → take n (xs ++ ys) ≡ take n xs
take-append_le zero xs ys h = refl
take-append_le (suc n) [] ys h = absurd (omega arith)
take-append_le (suc n) (x ∷ xs) ys h = ap (◌∷◌ x) (take-append_le n xs ys (omega arith))

split_at {ℓ} :
    {A : Type ℓ} (n : ℕ) (xs ys : List A)
    → n ≡ length xs
    → (take n (xs ++ ys) ≡ xs) × (drop n (xs ++ ys) ≡ ys)
split_at n xs ys e = rw e (take-append_self xs ys, drop-append_self xs ys)

-- What stands behind the header.
abbrev tail_bytes : ℕ → List Bytes → Bytes
tail_bytes type params =
    (lens_region params ++ body_region params) ++ le16 (make_header type params).magic_value

length-tail_bytes :
    (type : ℕ) (params : List Bytes) → length (tail_bytes type params) ≡ param_len params + 2
length-tail_bytes type params =
    let lens = lens_region params in
    let body = body_region params in
    omega (
      arith,
      length-append (lens ++ body) (le16 (make_header type params).magic_value),
      length-append lens body,
      length-regions params,
    )

-- A record takes 10 bytes more than its parameters and their lengths.
pub length-record_bytes :
    (type : ℕ) (params : List Bytes) → length (record_bytes type params) ≡ param_len params + 10
length-record_bytes type params =
    let h = make_header type params in
    rw (record_bytes-regions type params) (
      omega (
        arith,
        length-append (header_bytes h) (tail_bytes type params),
        length-header_bytes h,
        length-tail_bytes type params,
      ))

make_header_fields :
    (type : ℕ) (params : List Bytes)
    → Fits type params
    → (make_header type params ≡ record {
      record_type = type;
      param_count = length params;
      magic_value = magic (param_len params);
      total_size = param_len params;
    })
unfolding make_header
make_header_fields type params f = ground (arith, f.size_fits)

module _ {ℓ} {V : Type ℓ} (load : Bytes → Option V) (dump : V → Bytes)
    (load-dump : (v : V) → load (dump v) ≡ some v) where
  journal_read-header :
      (first second : List ReadAnswer) (type : ℕ) (params : List Bytes) (bytes rest : Bytes)
      → Fits type params
      → length bytes < patience first
      → 8 ≤ length bytes
      → take 8 bytes ≡ header_bytes (make_header type params)
      → drop 8 bytes ≡ rest
      → journal_read load first second bytes ≡ read_rest load second (make_header type params) rest
  unfolding journal_read
  journal_read-header first second type params bytes rest f p l t d =
      let h = make_header type params in
      ground (
        arith,
        (do_read_lem first 8 bytes p).0 l,
        t,
        d,
        make_header_fields type params f,
        magic-lt (param_len params),
        parse_header-header_bytes h,
        f.size_fits,
      )

  read_rest-record :
      (second : List ReadAnswer) (type : ℕ) (vs : List V) (rest : Bytes)
      → Fits type (map dump vs)
      → length (tail_bytes type (map dump vs) ++ rest) < patience second
      → read_rest load second
          (make_header type (map dump vs))
          (tail_bytes type (map dump vs) ++ rest)
        ≡ one (record { type = type; params = vs }) rest
  unfolding read_rest
  read_rest-record second type vs rest f q =
      let params = map dump vs in
      let h = make_header type params in
      let tail = tail_bytes type params in
      let fields = make_header_fields type params f in
      let total : h.total_size ≡ param_len params = ap (λ (g : Header). g.total_size) fields in
      let magical : h.magic_value ≡ magic (param_len params) =
        ap (λ (g : Header). g.magic_value) fields in
      let count : h.param_count ≡ length params = ap (λ (g : Header). g.param_count) fields in
      let typed : h.record_type ≡ type = ap (λ (g : Header). g.record_type) fields in
      let size : h.total_size + 2 ≡ length tail = omega (arith, length-tail_bytes type params) in
      let cut = split_at (h.total_size + 2) tail rest size in
      ground (
        arith,
        total,
        magical,
        typed,
        (do_read_lem second (h.total_size + 2) (tail ++ rest) q).0
            (omega (arith, length-append tail rest)),
        cut.0,
        cut.1,
        read_body-record load dump load-dump h vs rest count total
            (omega (arith, magical, magic-lt (param_len params))) f.size_fits,
      )

  pub journal_read-record :
      (first second : List ReadAnswer) (type : ℕ) (vs : List V) (rest : Bytes)
      → Fits type (map dump vs)
      → length (record_bytes type (map dump vs) ++ rest) < patience first
      → length (record_bytes type (map dump vs) ++ rest) < patience second
      → journal_read load first second (record_bytes type (map dump vs) ++ rest)
        ≡ one (record { type = type; params = vs }) rest
  journal_read-record first second type vs rest f p q =
      let params = map dump vs in
      let h = make_header type params in
      let tail = tail_bytes type params in
      let cut = split_at 8 (header_bytes h) (tail ++ rest) (sym (length-header_bytes h)) in
      let e : record_bytes type params ++ rest ≡ header_bytes h ++ (tail ++ rest) =
        ap (λ (r : Bytes). r ++ rest) (record_bytes-regions type params)
        ∙ append_assoc (header_bytes h) tail rest in
      let long : 8 ≤ length (record_bytes type params ++ rest) =
        omega
          (arith, length-append (record_bytes type params) rest, length-record_bytes type params) in
      journal_read-header first second type params _ (tail ++ rest) f p long (ap (take 8) e ∙ cut.0)
        (ap (drop 8) e ∙ cut.1)
      ∙ read_rest-record second type vs rest f (
          omega (
            arith,
            length-append (record_bytes type params) rest,
            length-record_bytes type params,
            length-append tail rest,
            length-tail_bytes type params,
          ))

  pub journal_read-short :
      (first second : List ReadAnswer) (front : Bytes)
      → length front < patience first
      → length front < 8
      → journal_read load first second front ≡ broken
  unfolding journal_read
  journal_read-short first second front p short =
      let (z, e) = (do_read_lem first 8 front p).1 short in ground (arith, e)

  read_rest-short :
      (second : List ReadAnswer) (type : ℕ) (params : List Bytes) (rest : Bytes)
      → Fits type params
      → length rest < patience second
      → length rest < param_len params + 2
      → read_rest load second (make_header type params) rest ≡ broken
  unfolding read_rest
  read_rest-short second type params rest f q short =
      let h = make_header type params in
      let fields = make_header_fields type params f in
      let total : h.total_size ≡ param_len params = ap (λ (g : Header). g.total_size) fields in
      let (z, e) = (do_read_lem second (h.total_size + 2) rest q).1 (omega arith) in
      ground (arith, e)

  -- A record that was cut anywhere is refused.
  pub journal_read-torn :
      (first second : List ReadAnswer) (type : ℕ) (params : List Bytes) (front : Bytes) (b : ℕ)
      (back : Bytes)
      → Fits type params
      → record_bytes type params ≡ front ++ b ∷ back
      → length front < patience first
      → length front < patience second
      → journal_read load first second front ≡ broken
  journal_read-torn first second type params front b back f e p q = elim (dec_lt (length front) 8) [
    | yes short ↦ journal_read-short first second front p short
    | no long ↦
        let h = make_header type params in
        let tail = tail_bytes type params in
        let cut = split_at 8 (header_bytes h) tail (sym (length-header_bytes h)) in
        let l : 8 ≤ length front = omega arith in
        journal_read-header first second type params front (drop 8 front) f p l
          (sym (take-append_le 8 front (b ∷ back) l)
            ∙ ap (take 8) (sym e ∙ record_bytes-regions type params)
            ∙ cut.0)
          refl
        ∙ read_rest-short second type params (drop 8 front) f (omega (arith, length-drop 8 front)) (
            omega (
              arith,
              length-drop 8 front,
              ap length e,
              length-append front (b ∷ back),
              length-record_bytes type params,
            ))
  ]
