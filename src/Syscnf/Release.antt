-- ===== src/Syscnf/Release.antt =====
-- src/lib/syscnf.c: reading os-release, and the two tables of `system_detect`. The files are given as
-- lines, each with its line feed. The hash table of uthash is its list of additions; the search in it
-- is an argument.
use turris_updater.Base.{
  ℕ, zero, suc, ◌+◌, ◌-◌, ◌^◌, ◌%◌, Bool, true, false, ◌&&◌, List, [], ◌∷◌, ◌++◌, Option, none,
  some, Bytes, codes, length, take, drop, get_elem?, ◌==◌, if◌then◌else◌,
}
use turris_updater.Syscnf.Paths.{Paths, root_dir, root_dir_is_root}

-- `os_release_data`
pub record Field : Type 0 where
  pub field : Bytes
  pub content : Bytes

-- strchr(line, '='): what is before and behind it.
unfoldable pub split_at_eq : Bytes → Option (Bytes × Bytes)
split_at_eq [] = none
split_at_eq (c ∷ cs) =
    let rest = split_at_eq cs in
    if c == b'='
    then some ([], cs)
    else elim rest [ none ↦ none | some (before, behind) ↦ some (c ∷ before, behind) ]

-- size_t
abbrev pub size_minus : ℕ → ℕ → ℕ
size_minus a b = (a + (2 ^ 64 - b)) % 2 ^ 64

abbrev pub is_quote : Option ℕ → Bool
is_quote none = false
is_quote (some c) = c == b'"'

-- `(eq+1)[val_len-2]`: for an empty value it is far outside, for one byte it is the equals sign.
abbrev pub quote_before_end : Bytes → Bool
quote_before_end value = elim (length value) [
  | zero ↦ false
  | suc zero ↦ false
  | suc (suc n) ↦ is_quote (get_elem? value n)
]

-- strndup
unfoldable pub value_of : Bytes → Bytes
value_of value =
    if is_quote (get_elem? value 0) && quote_before_end value
    then take (size_minus (length value) 3) (drop 1 value)
    else take (size_minus (length value) 1) value

unfoldable pub parsed : Option (Bytes × Bytes) → Option Field
unfolding value_of
parsed none = none
parsed (some (before, behind)) = some (record { field = before; content = value_of behind })

unfoldable pub parse_line : Bytes → Option Field
unfolding split_at_eq parsed
parse_line line = parsed (split_at_eq line)

abbrev pub cons_field : Option Field → List Field → List Field
cons_field none fs = fs
cons_field (some f) fs = f ∷ fs

-- A line without an equals sign is reported and left out.
unfoldable pub read_lines : List Bytes → List Field
unfolding parse_line
read_lines [] = []
read_lines (line ∷ lines) = cons_field (parse_line line) (read_lines lines)

unfoldable pub read_os_release : Option (List Bytes) → List Field
unfolding read_lines
read_os_release none = []
read_os_release (some lines) = read_lines lines

-- `osr`, `osr_host` and the tables that they point to.
pub record Detected : Type 0 where
  pub osr : Option ℕ
  pub osr_host : Option ℕ
  pub tables : ℕ → Option (List Field)

abbrev pub put_table : ℕ → Option (List Field) → Detected → Detected
put_table a t d = record d { tables = λ b. if a == b then t else d.tables b }

-- `none` is a second release of the same table.
unfoldable pub os_release_free : Option ℕ → Detected → Option Detected
os_release_free none d = some d
os_release_free (some a) d = elim (d.tables a) [ none ↦ none | some t ↦ some (put_table a none d) ]

-- A table without fields is NULL.
abbrev pub pointer_to : ℕ → List Field → Option ℕ
pointer_to a [] = none
pointer_to a (f ∷ fs) = some a

abbrev pub put_new : ℕ → List Field → Detected → Detected
put_new a [] d = d
put_new a (f ∷ fs) d = put_table a (some (f ∷ fs)) d

abbrev pub same_pointer : Option ℕ → Option ℕ → Bool
same_pointer none none = true
same_pointer (some a) (some b) = a == b
same_pointer _ _ = false

-- What the two files hold becomes the two tables, at the addresses `a` and `b`; the running system has
-- one.
abbrev pub install : Bool → ℕ → ℕ → List Field → List Field → Detected → Detected
install true a b host own d = record (put_new a host d) {
  osr = pointer_to a host;
  osr_host = pointer_to a host;
}
install false a b host own d = record (put_new b own (put_new a host d)) {
  osr = pointer_to b own;
  osr_host = pointer_to a host;
}

unfoldable pub detect : (Bytes → Option (List Bytes)) → Paths → ℕ → ℕ → Detected → Detected
unfolding read_os_release root_dir_is_root
detect files ps a b d =
    install (root_dir_is_root ps) a b (read_os_release (files (codes "/etc/os-release")))
      (read_os_release (files (root_dir ps ++ codes "etc/os-release"))) d

-- `if (osr == osr_host) osr = NULL;` keeps a shared table from being freed twice.
unfoldable pub free_tables : Detected → Option Detected
unfolding os_release_free
free_tables d =
    let own = if same_pointer d.osr d.osr_host then none else d.osr in
    elim (os_release_free d.osr_host d) [ none ↦ none | some d1 ↦ os_release_free own d1 ]

unfoldable pub system_detect :
    (Bytes → Option (List Bytes)) → Paths → ℕ → ℕ → Detected → Option Detected
unfolding free_tables detect
system_detect files ps a b d = elim (free_tables d) [
  | none ↦ none
  | some d1 ↦ some (detect files ps a b (record d1 { osr = none; osr_host = none }))
]

-- `os_release_get`, given the search in the table.
abbrev pub os_release_get :
    (List Field → Bytes → Option Field) → Option ℕ → Bytes → Detected → Option Bytes
os_release_get find table option d = elim table [
  | none ↦ none
  | some a ↦ elim (d.tables a) [
    | none ↦ none
    | some fs ↦ elim (find fs option) [ none ↦ none | some f ↦ some f.content ]
  ]
]
