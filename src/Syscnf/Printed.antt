-- ===== src/Syscnf/Printed.antt =====
-- src/lib/syscnf.c: what is read of an os-release file as it is written, and the life of the two
-- tables.
use turris_updater.Base.{
  ℕ, ◌+◌, ◌-◌, ◌^◌, ◌<◌, ◌≤◌, ◌≡◌, ◌≢◌, refl, ap, ◌∙◌, Bool, true, false, List, [], ◌∷◌, ◌++◌,
  Option, some, Bytes, codes, All, length, get_elem?, take-append_self, length-append, arith,
}
use turris_updater.Syscnf.Release.{
  Field, split_at_eq, size_minus, is_quote, value_of, parsed, parse_line, cons_field, read_lines,
}

-- A line as os-release files have it, with the value in quotes or without.
abbrev pub print_line : Bool → Field → Bytes
print_line true f = f.field ++ (codes "=\"" ++ (f.content ++ codes "\"\n"))
print_line false f = f.field ++ (codes "=" ++ (f.content ++ codes "\n"))

abbrev pub print_lines : List (Bool × Field) → List Bytes
print_lines [] = []
print_lines ((quoted, f) ∷ fs) = print_line quoted f ∷ print_lines fs

abbrev pub fields_of : List (Bool × Field) → List Field
fields_of [] = []
fields_of ((quoted, f) ∷ fs) = f ∷ fields_of fs

-- No equals sign in the name, a length that fits, and no quote at the start of a value that is not in
-- quotes.
abbrev pub IsPrintable : Bool × Field → Type 0
IsPrintable (quoted, f) =
    All (λ c. c ≢ b'=') f.field
    × (length f.content + 3 < 2 ^ 64)
    × ((quoted ≡ false) → is_quote (get_elem? f.content 0) ≡ false)

split_at_eq-name :
    (name rest : Bytes)
    → All (λ c. c ≢ b'=') name
    → split_at_eq (name ++ b'=' ∷ rest) ≡ some (name, rest)
unfolding split_at_eq
split_at_eq-name [] rest h = refl
split_at_eq-name (c ∷ cs) rest h = ground (arith, split_at_eq-name cs rest h.1, h.0)

get_elem?-append : (xs ys : Bytes) → get_elem? (xs ++ ys) (length xs) ≡ get_elem? ys 0
get_elem?-append [] ys = refl
get_elem?-append (x ∷ xs) ys = get_elem?-append xs ys

size_minus-small : (a b : ℕ) → b ≤ a → a < 2 ^ 64 → size_minus a b ≡ a - b
size_minus-small a b h g = omega arith

value-quoted :
    (content : Bytes)
    → length content + 3 < 2 ^ 64
    → value_of (codes "\"" ++ (content ++ codes "\"\n")) ≡ content
unfolding value_of
value-quoted content h = ground (
  arith,
  length-append content (codes "\"\n"),
  get_elem?-append content (codes "\"\n"),
  size_minus-small (length content + 3) 3,
  take-append_self content (codes "\"\n"),
)

value-plain :
    (content : Bytes)
    → length content + 3 < 2 ^ 64
    → is_quote (get_elem? content 0) ≡ false
    → value_of (content ++ codes "\n") ≡ content
unfolding value_of
value-plain [] h n = refl
value-plain (c ∷ cs) h n = ground (
  arith,
  length-append cs (codes "\n"),
  size_minus-small (length cs + 2) 1,
  take-append_self (c ∷ cs) (codes "\n"),
)

abbrev some_field : Bytes → Bytes → Option Field
some_field name value = some (record { field = name; content = value })

parse_line-print :
    (quoted : Bool) (f : Field)
    → IsPrintable (quoted, f)
    → parse_line (print_line quoted f) ≡ some f
unfolding parse_line parsed
parse_line-print true f h =
    ap parsed (split_at_eq-name f.field (codes "\"" ++ (f.content ++ codes "\"\n")) h.0)
    ∙ ap (some_field f.field) (value-quoted f.content h.1)
parse_line-print false f h =
    ap parsed (split_at_eq-name f.field (f.content ++ codes "\n") h.0)
    ∙ ap (some_field f.field) (value-plain f.content h.1 (h.2 refl))

-- Reading a file of printed lines gives the fields in their order, with their values: when no name has
-- an equals sign, the values that are not in quotes do not start with one, and no line is
-- longer than memory allows.
pub read_lines-print :
    (fs : List (Bool × Field)) → All IsPrintable fs → read_lines (print_lines fs) ≡ fields_of fs
unfolding read_lines
read_lines-print [] h = refl
read_lines-print ((quoted, f) ∷ fs) h =
    ap (λ o. cons_field o (read_lines (print_lines fs))) (parse_line-print quoted f h.0)
    ∙ ap (◌∷◌ f) (read_lines-print fs h.1)
