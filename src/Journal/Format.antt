-- ===== src/Journal/Format.antt =====
-- src/lib/journal.c: the record types and the bytes of one record. `struct journal_record` has no
-- padding; integers stand in memory lowest byte first, as on the routers.
use Prim.Native.Nat.{bit_and, bit_xor}
use turris_updater.Base.{ℕ, ◌+◌, ◌/◌, ◌%◌, ◌^◌, List, [], ◌∷◌, ◌++◌, Bytes, length}

pub data RecordType : Type 0 where
  start finish unpacked checked changelog_start moved scripts changelog_end cleaned : RecordType

-- The values of `enum record_type`; `rt_invalid` is its end.
unfoldable pub rt : RecordType → ℕ
rt start = 0
rt finish = 1
rt unpacked = 2
rt checked = 3
rt changelog_start = 4
rt moved = 5
rt scripts = 6
rt changelog_end = 7
rt cleaned = 8

abbrev pub rt_invalid : ℕ
rt_invalid = 9

abbrev pub magic_base : ℕ
magic_base = 0x2a7c

-- uint16_t magic(uint32_t len)
unfoldable pub magic : ℕ → ℕ
magic len =
    bit_xor (bit_xor magic_base (bit_and len 0xffff)) (bit_and len 0xffff0000 / 2 ^ 16) % 2 ^ 16

abbrev pub le16 : ℕ → Bytes
le16 n = n % 256 ∷ (n / 256) % 256 ∷ []

abbrev pub le32 : ℕ → Bytes
le32 n = n % 256 ∷ (n / 256) % 256 ∷ (n / 65536) % 256 ∷ (n / 16777216) % 256 ∷ []

-- The first loop of `journal_write`: `param_len += lens[i] + sizeof(uint32_t)`.
unfoldable pub param_len : List Bytes → ℕ
param_len [] = 0
param_len (p ∷ ps) = length p + 4 + param_len ps

-- The second loop. It writes the length of parameter `i` at `i * 4` and its bytes at `pos`: the ends
-- of two regions, `lens` and `body`, which grow side by side.
unfoldable pub fill_params : Bytes → Bytes → List Bytes → Bytes
fill_params lens body [] = lens ++ body
fill_params lens body (p ∷ ps) = fill_params (lens ++ le32 (length p % 2 ^ 32)) (body ++ p) ps

pub record Header : Type 0 where
  pub record_type : ℕ
  pub param_count : ℕ
  pub magic_value : ℕ
  pub total_size : ℕ

-- The fields as the assignments to `uint8_t`, `uint16_t` and `uint32_t` leave them.
unfoldable pub make_header : ℕ → List Bytes → Header
unfolding param_len magic
make_header type params = record {
  record_type = type % 256;
  param_count = length params % 256;
  magic_value = magic (param_len params % 2 ^ 32);
  total_size = param_len params % 2 ^ 32;
}

unfoldable pub header_bytes : Header → Bytes
header_bytes h = h.record_type ∷ h.param_count ∷ (le16 h.magic_value ++ le32 h.total_size)

-- The whole message that `journal_write` builds before it writes.
unfoldable pub record_bytes : ℕ → List Bytes → Bytes
unfolding make_header header_bytes fill_params
record_bytes type params =
    let h = make_header type params in
    header_bytes h ++ (fill_params [] [] params ++ le16 h.magic_value)

-- A plain account of the two regions.
unfoldable pub lens_region : List Bytes → Bytes
lens_region [] = []
lens_region (p ∷ ps) = le32 (length p % 2 ^ 32) ++ lens_region ps

unfoldable pub body_region : List Bytes → Bytes
body_region [] = []
body_region (p ∷ ps) = p ++ body_region ps
