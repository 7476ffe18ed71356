-- ===== src/Index/Offset/RoundTrip.antt =====
-- What the codec's getters return on encoded addresses (parakv/core/index/offset.h).
use para_kv.Prelude.{ℕ, ◌+◌, ◌*◌, ◌/◌, ◌%◌, ◌^◌, ◌<◌, ◌≡◌, arith}
use para_kv.Prelude.Bits.{bit_or-add, bit_and-ones}
use para_kv.Index.Offset.{
  flag_value, segment_slot, file_offset, memory, encode_file_offset, encode_segment_slot,
  encode_memory_address, get_flag, get_file_offset, get_segment_id, get_slot_id, get_memory_address,
}

-- The encoded address as a sum.
encode_segment_slot-add :
    (seg slot : ℕ)
    → seg < 2 ^ 20
    → slot < 2 ^ 28
    → encode_segment_slot seg slot ≡ 2 ^ 61 + seg * 2 ^ 28 + slot
unfolding encode_segment_slot
encode_segment_slot-add seg slot hs hl =
    ground (arith, bit_or-add 28 seg slot, bit_or-add 61 1 (seg * 2 ^ 28 + slot))

-- The getters as quotients and remainders.
get_flag-div : (e : ℕ) → get_flag e ≡ e / 2 ^ 61 % 8
unfolding get_flag
get_flag-div e = bit_and-ones 3 (e / 2 ^ 61)

get_segment_id-div : (e : ℕ) → get_segment_id e ≡ e / 2 ^ 28 % 2 ^ 20
unfolding get_segment_id
get_segment_id-div e = omega (arith, bit_and-ones 20 (e / 2 ^ 28))

get_slot_id-mod : (e : ℕ) → get_slot_id e ≡ e % 2 ^ 28
unfolding get_slot_id
get_slot_id-mod e = omega (arith, bit_and-ones 28 e)

-- For a segment id below 2^20 and a slot id below 2^28, the flag, the segment id and the slot id
-- of the encoded address are those that were encoded.
pub encode_segment_slot_fields :
    (seg slot : ℕ)
    → seg < 2 ^ 20
    → slot < 2 ^ 28
    → (get_flag (encode_segment_slot seg slot) ≡ flag_value segment_slot)
      × (get_segment_id (encode_segment_slot seg slot) ≡ seg)
      × (get_slot_id (encode_segment_slot seg slot) ≡ slot)
encode_segment_slot_fields seg slot hs hl = omega (
  arith,
  encode_segment_slot-add seg slot hs hl,
  get_flag-div (encode_segment_slot seg slot),
  get_segment_id-div (encode_segment_slot seg slot),
  get_slot_id-mod (encode_segment_slot seg slot),
)

-- For payloads below 2^48, an encoded file offset and an encoded memory address give back their
-- payloads, and their flags tell the two tiers apart.
pub encode_payload_fields :
    (off addr : ℕ)
    → off < 2 ^ 48
    → addr < 2 ^ 48
    → (get_flag (encode_file_offset off) ≡ flag_value file_offset)
      × (get_file_offset (encode_file_offset off) ≡ off)
      × (get_flag (encode_memory_address addr) ≡ flag_value memory)
      × (get_memory_address (encode_memory_address addr) ≡ addr)
unfolding encode_file_offset encode_memory_address get_flag get_file_offset get_memory_address
encode_payload_fields off addr ho ha = ground (
  arith,
  bit_and-ones 48 off,
  bit_and-ones 48 addr,
  bit_or-add 61 0 off,
  bit_or-add 61 2 addr,
  bit_and-ones 3 (off / 2 ^ 61),
  bit_and-ones 3 ((2 * 2 ^ 61 + addr) / 2 ^ 61),
  bit_and-ones 48 (2 * 2 ^ 61 + addr),
)
