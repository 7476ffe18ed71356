-- ===== src/Index/Wal/Record.antt =====
-- `WalRecord` (parakv/core/index/wal.h, `Encode` and `Decode` of parakv/core/index/wal.cc). A key
-- is its raw bytes, as `memcpy` takes them: 8 for `Key64`, 16 for `Key128`; the key size is a
-- parameter. The type is the byte under the enumeration, which `Decode` does not check.
pub mod RoundTrip
use para_kv.Prelude.{
  ℕ, ◌+◌, ◌-◌, ◌*◌, ◌/◌, ◌%◌, ◌^◌, ◌<◌, ◌≡◌, Option, none, some, List, [], ◌∷◌, ◌++◌, length, take,
  drop, get_or, replicate, ◌==◌, if◌then◌else◌,
}
use para_kv.Prelude.Bytes.{Bytes, write_le32, write_le64, read_le32, read_le64}
use para_kv.Index.Wal.Crc.{crc32}

-- The enumerators of `WalRecordType`.
abbrev pub k_insert : ℕ
k_insert = 1

abbrev pub k_update : ℕ
k_update = 2

abbrev pub k_delete : ℕ
k_delete = 3

pub record WalRecord : Type 0 where
  pub type : ℕ
  pub key : Bytes
  pub disk_addr : ℕ
  pub old_disk_addr : ℕ

abbrev pub magic : ℕ
magic = 0xA5

module _ (key_size : ℕ) where
  abbrev pub crc_offset : ℕ
  crc_offset = 2 + key_size + 16

  abbrev pub raw_size : ℕ
  raw_size = crc_offset + 4

  -- `(kRawSize + 7) & ~7`
  abbrev pub encoded_size : ℕ
  encoded_size = (raw_size + 7) / 8 * 8

-- The bytes that the checksum covers, in the order in which `Encode` writes them.
unfoldable pub payload : WalRecord → Bytes
payload rec =
    (magic ∷ rec.type % 256 ∷ [])
    ++ (rec.key ++ (write_le64 rec.disk_addr ++ write_le64 rec.old_disk_addr))

unfoldable pub encode : ℕ → WalRecord → Bytes
unfolding payload
encode key_size rec =
    payload rec
    ++ (write_le32 (crc32 (payload rec)) ++ replicate (encoded_size key_size - raw_size key_size) 0)

unfoldable pub decode : ℕ → Bytes → Option WalRecord
decode key_size in_ =
    if get_or in_ 0 0 == magic
    then (if read_le32 (drop (crc_offset key_size) in_) == crc32 (take (crc_offset key_size) in_)
        then some (record {
          type = get_or in_ 1 0;
          key = take key_size (drop 2 in_);
          disk_addr = read_le64 (drop (2 + key_size) in_);
          old_disk_addr = read_le64 (drop (10 + key_size) in_);
        })
        else none)
    else none

-- The values of a record that the C++ types allow, for a key of `key_size` bytes.
pub record IsRecord (key_size : ℕ) (rec : WalRecord) : Type 0 where
  pub type_fits : rec.type < 256
  pub key_fits : length rec.key ≡ key_size
  pub addr_fits : rec.disk_addr < 2 ^ 64
  pub old_addr_fits : rec.old_disk_addr < 2 ^ 64
