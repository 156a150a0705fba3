-- ===== src/Util/Files.antt =====
-- src/lib/util.c: reading and writing whole files. What the kernel permits is an argument.
use turris_updater.Base.{
  ℕ, Bool, true, false, not, ◌++◌, Option, none, some, Bytes, bytes_eq, codes, length, take, ◌==◌,
  if◌then◌else◌,
}

-- The files by their paths.
abbrev pub Files : Type 0
Files = Bytes → Option Bytes

abbrev pub put_file : Bytes → Option Bytes → Files → Files
put_file path content files = λ p. if bytes_eq path p then content else files p

-- `opens` is whether fopen succeeds.
unfoldable pub dump2file : Bool → Bytes → Bytes → Files → Files × Bool
unfolding bytes_eq
dump2file opens file text files =
    if opens then (put_file file (some text) files, true) else (files, false)

-- The memory that `readfile` gives without the zero at its end: as much as the size that ftell has
-- told. `opens` is whether a file that exists can be opened.
unfoldable pub readfile : Bool → Bytes → Files → Option Bytes
readfile opens file files = elim (files file) [
  | none ↦ none
  | some content ↦ (if opens then some (take (length content) content) else none)
]

-- What stat and access tell of a path.
pub record FileStatus : Type 0 where
  pub regular : Bool
  pub accessible : ℕ → Bool

unfoldable pub statfile : Option FileStatus → ℕ → Bool
statfile st mode = elim st [
  | none ↦ false
  | some s ↦ (if not s.regular then false else s.accessible mode)
]

abbrev pub temp_template : Bytes
temp_template = codes "/tmp/updater-temp-"

-- How `writetempfile` ends: a path, NULL, or a failed assertion.
pub data Temporary : Type 0 where
  temporary : Bytes → Temporary
  not_opened : Temporary
  dies : Temporary

-- mkstemp makes up the suffix, or fails; `taken` is what fwrite takes.
unfoldable pub writetempfile : Option Bytes → ℕ → Bytes → Files → Files × Temporary
writetempfile suffix taken buf files = elim suffix [
  | none ↦ (files, not_opened)
  | some s ↦
      (let fpath = temp_template ++ s in
        if taken == length buf
        then (put_file fpath (some buf) files, temporary fpath)
        else (put_file fpath (some (take taken buf)) files, dies))
]
