-- ===== src/Uri/Data.antt =====
-- The data URIs of src/lib/uri.c: the parameters before the last comma, and the data behind it.
use turris_updater.Base.{
  ℕ, zero, suc, ◌<◌, ◌≡◌, refl, sym, ◌∙◌, ap, Bool, false, ◌||◌, List, [], ◌∷◌, ◌++◌, none, some,
  Bytes, length, ◌==◌, Bool-cases, Option-cases, inl, inr, All, length-append, arith,
}
use turris_updater.Uri.Finish.{after_comma, is_base64_param, data_params}

-- `text` is split at its commas: the parameters and the last part.
abbrev pub joined : List Bytes → Bytes → Bytes
joined [] last = last
joined (p ∷ ps) last = p ++ b',' ∷ joined ps last

abbrev pub NoComma : Bytes → Type 0
NoComma text = after_comma text ≡ none

-- Some parameter begins with "base64".
abbrev pub any_base64 : List Bytes → Bytes → Bool
any_base64 [] last = false
any_base64 (p ∷ ps) last = is_base64_param (p ++ b',' ∷ joined ps last) || any_base64 ps last

after_comma-split :
    (text next : Bytes)
    → after_comma text ≡ some next
    → (p : Bytes) × (text ≡ p ++ b',' ∷ next) × NoComma p
unfolding after_comma
after_comma-split [] next e = cc
after_comma-split (c ∷ cs) next e = elim (Bool-cases (c == b',')) [
  | inl comma ↦ ([], ground arith, refl)
  | inr other ↦
      let (p, split, clean) = after_comma-split cs next (ground arith) in
      (c ∷ p, ap (◌∷◌ c) split, ground (arith, clean))
]

after_comma-shorter : (p next : Bytes) → length next < length (p ++ b',' ∷ next)
after_comma-shorter p next = omega (arith, length-append p (b',' ∷ next))

-- With as much fuel as the text is long, the loop over the parameters ends: it finds the data behind
-- the last comma, and the flag tells whether a part before a comma begins with "base64".
pub data_params_lem :
    (fuel : ℕ) (b : Bool) (start : Bytes)
    → length start < fuel
    → (ps : List Bytes) × (last : Bytes) × (joined ps last ≡ start)
      × All NoComma ps
      × NoComma last
      × (data_params fuel b start ≡ some (b || any_base64 ps last, last))
unfolding data_params
data_params_lem zero b start h = absurd (omega arith)
data_params_lem (suc fuel) b start h = elim (Option-cases (after_comma start)) [
  | inl clean ↦ ([], start, refl, tt, clean, ground (arith, clean))
  | inr (next, e) ↦
      let (p, split, clean) = after_comma-split start next e in
      let short : length next < fuel = omega (arith, ap length split, after_comma-shorter p next) in
      let (ps, last, whole, cleans, end, run) =
        data_params_lem fuel (b || is_base64_param start) next short in
      (
        p ∷ ps,
        last,
        ap (λ (r : Bytes). p ++ b',' ∷ r) whole ∙ sym split,
        (clean, cleans),
        end,
        ground (arith, e, run, whole, split),
      )
]
