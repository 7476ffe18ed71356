-- ===== src/Storage/Payload.antt =====
-- The contents of a slot of `IndexKVCacheStorageBackend`: `EncodePayload` and `DecodePayload`
-- (parakv/core/kvcache_storage/index_kvcache_storage_backend.h,
-- parakv/core/kvcache_storage/index_kvcache_storage_backend.cc).
pub mod RoundTrip
use para_kv.Prelude.{
  ℕ, ◌+◌, ◌-◌, ◌%◌, ◌^◌, Bool, true, false, not, List, [], ◌++◌, ltb, length, take, drop, replicate,
  if◌then◌else◌,
}
use para_kv.Prelude.Bytes.{Bytes, write_le32, read_le32}
use para_kv.Prelude.Text.{text}
use para_kv.Storage.{BackendCode, ok, value_too_large, corrupted}

-- `kHeaderBytes`
abbrev pub header_bytes : ℕ
header_bytes = 8

-- `memcpy` to an offset of a buffer.
abbrev pub copy_at : Bytes → ℕ → Bytes → Bytes
copy_at buffer off bytes = take off buffer ++ (bytes ++ drop (off + length bytes) buffer)

-- `slot_value_size - kHeaderBytes`, on 32 bits.
abbrev pub max_payload : ℕ → ℕ
max_payload slot_value_size = (slot_value_size + 2 ^ 32 - header_bytes) % 2 ^ 32

abbrev pub filled_payload : ℕ → Bytes → Bytes → Bytes
filled_payload slot_value_size value metadata =
    let zeros = replicate slot_value_size 0 in
    let with_value_len = copy_at zeros 0 (write_le32 (length value % 2 ^ 32)) in
    let header = copy_at with_value_len 4 (write_le32 (length metadata % 2 ^ 32)) in
    copy_at (copy_at header header_bytes value) (header_bytes + length value) metadata

-- `EncodePayload` into a payload that is there, and empty: the code, the payload and the error.
unfoldable pub encode_payload : ℕ → Bytes → Bytes → BackendCode × Bytes × Bytes
encode_payload slot_value_size value metadata =
    if ltb (max_payload slot_value_size) ((length value + length metadata) % 2 ^ 64)
    then (value_too_large, [], text "value+metadata exceeds slot_value_size")
    else (ok, filled_payload slot_value_size value metadata, [])

-- `DecodePayload` into strings that are there, and empty: the code, the value, the metadata and
-- the error.
unfoldable pub decode_payload : Bytes → BackendCode × Bytes × Bytes × Bytes
decode_payload payload =
    let value_len = read_le32 payload in
    let metadata_len = read_le32 (drop 4 payload) in
    if ltb (length payload) header_bytes
    then (corrupted, [], [], [])
    else if ltb (length payload) (header_bytes + (value_len + metadata_len))
    then (corrupted, [], [], text "corrupted payload header")
    else (
      ok,
      take value_len (drop header_bytes payload),
      take metadata_len (drop (header_bytes + value_len) payload),
      [],
    )
