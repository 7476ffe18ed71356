-- ===== src/Index/Offset.antt =====
-- `OffsetCodec` (parakv/core/index/offset.h): a 64-bit address of three tag bits and a payload.
-- A `uint64_t` is a number below `2 ^ 64`; `<<` wraps there. The assertions of the source are
-- hypotheses of the theorems. A pointer is the number that `reinterpret_cast` gives.
pub mod RoundTrip
use para_kv.Prelude.{ℕ, ◌+◌, ◌-◌, ◌*◌, ◌/◌, ◌%◌, ◌^◌, bit_and, bit_or}
use para_kv.Prelude.Bits.{shl, shr, ones}

pub data OffsetFlag : Type 0 where
  file_offset segment_slot memory : OffsetFlag

-- The value of the enumerator.
abbrev pub flag_value : OffsetFlag → ℕ
flag_value file_offset = 0
flag_value segment_slot = 1
flag_value memory = 2

abbrev pub flag_bits : ℕ
flag_bits = 3

abbrev pub flag_shift : ℕ
flag_shift = 61

abbrev pub flag_mask : ℕ
flag_mask = ones flag_bits

abbrev pub slot_id_bits : ℕ
slot_id_bits = 28

abbrev pub segment_id_bits : ℕ
segment_id_bits = 20

abbrev pub slot_id_mask : ℕ
slot_id_mask = ones slot_id_bits

abbrev pub segment_id_mask : ℕ
segment_id_mask = ones segment_id_bits

abbrev pub file_offset_mask : ℕ
file_offset_mask = ones 48

abbrev pub memory_addr_mask : ℕ
memory_addr_mask = ones 48

unfoldable pub encode_file_offset : ℕ → ℕ
encode_file_offset off =
    bit_or (shl (flag_value file_offset) flag_shift) (bit_and off file_offset_mask)

unfoldable pub encode_segment_slot : ℕ → ℕ → ℕ
encode_segment_slot segment_id slot_id =
    let payload = bit_or (shl segment_id slot_id_bits) slot_id in
    bit_or (shl (flag_value segment_slot) flag_shift) payload

unfoldable pub encode_memory_address : ℕ → ℕ
encode_memory_address addr =
    bit_or (shl (flag_value memory) flag_shift) (bit_and addr memory_addr_mask)

-- The number that is cast to `OffsetFlag`.
unfoldable pub get_flag : ℕ → ℕ
get_flag encoded = bit_and (shr encoded flag_shift) flag_mask

unfoldable pub get_file_offset : ℕ → ℕ
get_file_offset encoded = bit_and encoded file_offset_mask

-- The masks are below `2 ^ 32`, and the cast to `uint32_t` is written out.
unfoldable pub get_segment_id : ℕ → ℕ
get_segment_id encoded = bit_and (shr encoded slot_id_bits) segment_id_mask % 2 ^ 32

unfoldable pub get_slot_id : ℕ → ℕ
get_slot_id encoded = bit_and encoded slot_id_mask % 2 ^ 32

unfoldable pub get_memory_address : ℕ → ℕ
get_memory_address encoded = bit_and encoded memory_addr_mask
