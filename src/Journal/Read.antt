-- ===== src/Journal/Read.antt =====
-- src/lib/journal.c: `do_read`, `journal_read` and `lua_recover`. `load` stands for Lua: it loads a
-- parameter's text and runs it in an empty environment.
use Prim.Native.Nat.{min}
use turris_updater.Base.{
  ℕ, zero, suc, ◌+◌, ◌-◌, ◌*◌, Bool, false, not, List, [], ◌∷◌, ◌++◌, Option, none, some, Bytes,
  length, take, drop, ltb, ◌==◌, if◌then◌else◌,
}
use turris_updater.Journal.Format.{Header, magic}

-- read(2): at most as many bytes as asked, and at least one if any are left; none at the end.
pub data ReadAnswer : Type 0 where
  got : ℕ → ReadAnswer
  interrupted : ReadAnswer
  io_error : ReadAnswer
  bad_call : ReadAnswer

-- `filled` has the bytes and what is left of the file; `refused` is `false`, with the flag `*zero`.
pub data Filled : Type 0 where
  filled : Bytes → Bytes → Filled
  refused : Bool → Filled
  dies : Filled
  waiting : Filled

-- `size` bytes are still wanted, `dst` is what was read, `rest` the file from the offset on.
unfoldable pub do_read : List ReadAnswer → ℕ → Bytes → Bytes → Filled
do_read answers zero dst rest = filled dst rest
do_read [] (suc size) dst rest = waiting
do_read (got n ∷ answers) (suc size) dst [] = refused (length dst == 0)
do_read (got n ∷ answers) (suc size) dst (b ∷ rest) =
    let count = min n (min size (length rest)) in
    do_read answers (size - count) (dst ++ b ∷ take count rest) (drop count rest)
do_read (interrupted ∷ answers) (suc size) dst rest = do_read answers (suc size) dst rest
do_read (io_error ∷ answers) (suc size) dst rest = refused false
do_read (bad_call ∷ answers) (suc size) dst rest = dies

abbrev pub from_le16 : ℕ → ℕ → ℕ
from_le16 a b = a + 256 * b

abbrev pub from_le32 : ℕ → ℕ → ℕ → ℕ → ℕ
from_le32 a b c d = a + 256 * b + 65536 * c + 16777216 * d

-- The bytes of the buffer seen as `struct journal_record`.
unfoldable pub parse_header : Bytes → Option Header
parse_header (t ∷ n ∷ m ∷ m' ∷ a ∷ b ∷ c ∷ d ∷ []) = some (record {
  record_type = t;
  param_count = n;
  magic_value = from_le16 m m';
  total_size = from_le32 a b c d;
})
parse_header _ = none

-- `memcpy(&magic_tail, data + record.total_size, 2)`
unfoldable pub magic_tail : Bytes → Option ℕ
magic_tail (m ∷ m' ∷ _) = some (from_le16 m m')
magic_tail _ = none

-- `lens`, and what stands behind it. `none` is a read past the end of the buffer.
unfoldable pub read_lens : ℕ → Bytes → Option (List ℕ × Bytes)
read_lens zero bytes = some ([], bytes)
read_lens (suc n) (a ∷ b ∷ c ∷ d ∷ bytes) = elim (read_lens n bytes) [
  | none ↦ none
  | some (lens, rest) ↦ some (from_le32 a b c d ∷ lens, rest)
]
read_lens (suc n) _ = none

pub record Record {ℓ} (V : Type ℓ) : Type ℓ where
  pub type : ℕ
  pub params : List V

pub data Params {ℓ} (V : Type ℓ) : Type ℓ where
  loaded : List V → ℕ → Params V
  unparsed : Params V
  out_of_buffer : Params V

module _ {ℓ} {V : Type ℓ} (load : Bytes → Option V) where
  -- The loop over the parameters; `bytes` is `data + pos`. Gives the values and the last `pos`.
  unfoldable pub read_params : List ℕ → ℕ → Bytes → List V → Params V
  read_params [] pos bytes done = loaded done pos
  read_params (len ∷ lens) pos bytes done =
      if ltb (length bytes) len then out_of_buffer else elim (load (take len bytes)) [
        | none ↦ unparsed
        | some v ↦ read_params lens (pos + len) (drop len bytes) (done ++ v ∷ [])
      ]

-- What one call of `journal_read` does: a record and the rest of the file; the answer `false`; an
-- assertion or DIE; memory outside of the buffer; a read that never ends.
pub data Reading {ℓ} (V : Type ℓ) : Type ℓ where
  one : Record V → Bytes → Reading V
  broken : Reading V
  dies : Reading V
  undefined : Reading V
  waiting : Reading V

module _ {ℓ} {V : Type ℓ} (load : Bytes → Option V) where
  -- From the comparison of the lengths on: `ASSERT(pos == record.total_size)`.
  unfoldable pub finish_params : Header → Bytes → Params V → Reading V
  finish_params h rest (loaded values pos) =
      if pos == h.total_size
      then one (record { type = h.record_type; params = values }) rest
      else dies
  finish_params h rest unparsed = broken
  finish_params h rest out_of_buffer = undefined

  -- The record's body is in `body`.
  unfoldable pub read_body : Header → Bytes → Bytes → Reading V
  unfolding magic_tail read_lens read_params finish_params
  read_body h body rest = elim (magic_tail (drop h.total_size body)) [
    | none ↦ undefined
    | some m ↦ if not (h.magic_value == m) then broken else elim (read_lens h.param_count body) [
      | none ↦ undefined
      | some (lens, bytes) ↦
          finish_params h rest (read_params load lens (4 * h.param_count) bytes [])
    ]
  ]

  -- `answers` are those to the second `do_read`.
  unfoldable pub read_rest : List ReadAnswer → Header → Bytes → Reading V
  unfolding do_read read_body magic
  read_rest answers h rest =
      if not (h.magic_value == magic h.total_size)
      then broken
      else elim (do_read answers (h.total_size + 2) [] rest) [
        | filled body rest' ↦ read_body h body rest'
        | refused _ ↦ broken
        | Filled.dies ↦ dies
        | Filled.waiting ↦ waiting
      ]

  -- The two calls of `do_read` get the lists of answers `first` and `second`.
  unfoldable pub journal_read : List ReadAnswer → List ReadAnswer → Bytes → Reading V
  unfolding do_read parse_header read_rest
  journal_read first second rest = elim (do_read first 8 [] rest) [
    | filled header rest' ↦ elim (parse_header header) [
      | none ↦ undefined
      | some h ↦ read_rest second h rest'
    ]
    | refused _ ↦ broken
    | Filled.dies ↦ dies
    | Filled.waiting ↦ waiting
  ]

-- `recovered` has the table and the file as `ftruncate` leaves it, at the end of the last good record.
pub data Recovered {ℓ} (V : Type ℓ) : Type ℓ where
  recovered : List (Record V) → Bytes → Recovered V
  dies : Recovered V
  undefined : Recovered V
  waiting : Recovered V
  out_of_fuel : Recovered V

module _ {ℓ} {V : Type ℓ} (load : Bytes → Option V) (reads : ℕ → List ReadAnswer) where
  -- The loop of `lua_recover`: `file` is the whole file, `rest` stands at the position, `offset` is
  -- the variable. The answers to call `k` of `do_read` are `reads k`.
  unfoldable pub recover_loop : ℕ → ℕ → Bytes → Bytes → ℕ → List (Record V) → Recovered V
  unfolding journal_read
  recover_loop zero k file rest offset done = out_of_fuel
  recover_loop (suc fuel) k file rest offset done =
      elim (journal_read load (reads k) (reads (suc k)) rest) [
        | one r rest' ↦
            recover_loop fuel (k + 2) file rest' (length file - length rest') (done ++ r ∷ [])
        | broken ↦ recovered done (take offset file)
        | Reading.dies ↦ dies
        | Reading.undefined ↦ undefined
        | Reading.waiting ↦ waiting
      ]

  unfoldable pub recover : Bytes → Recovered V
  unfolding recover_loop
  recover file = recover_loop (suc (length file)) 0 file file 0 []
