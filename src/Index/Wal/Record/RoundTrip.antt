-- ===== src/Index/Wal/Record/RoundTrip.antt =====
-- Encoded records have the fixed size and decode to themselves.
use para_kv.Prelude.{
  ℕ, ◌+◌, ◌-◌, ◌%◌, ◌≡◌, sym, ap, ◌∙◌, some, ◌∷◌, ◌++◌, append_assoc, length, take, drop, replicate,
  arith, length-append, length-replicate, take-append, drop-append,
}
use para_kv.Prelude.Bytes.{
  Bytes, write_le32, write_le64, length-write_le32, length-write_le64, read_le32-write_le32,
  read_le64-write_le64,
}
use para_kv.Index.Wal.Crc.{crc32, crc32-lt}
use para_kv.Index.Wal.Record.{
  WalRecord, IsRecord, magic, crc_offset, raw_size, encoded_size, payload, encode, decode,
}

module _ (k : ℕ) (rec : WalRecord) (h : IsRecord k rec) where
  length-payload : length (payload rec) ≡ crc_offset k
  unfolding payload
  length-payload = omega (
    arith,
    h.key_fits,
    length-append {0} rec.key (write_le64 rec.disk_addr ++ write_le64 rec.old_disk_addr),
    length-append {0} (write_le64 rec.disk_addr) (write_le64 rec.old_disk_addr),
    length-write_le64,
  )

  pub length-encode : length (encode k rec) ≡ encoded_size k
  unfolding encode
  length-encode = omega (
    arith,
    length-payload,
    length-append {0} (payload rec)
        (write_le32 (crc32 (payload rec)) ++ replicate (encoded_size k - raw_size k) 0),
    length-append {0} (write_le32 (crc32 (payload rec)))
        (replicate (encoded_size k - raw_size k) 0),
    length-write_le32,
    length-replicate {A = ℕ} (encoded_size k - raw_size k) 0,
  )

  module _ (rest : Bytes) where
    -- The checksum and what follows it.
    abbrev tail : Bytes
    tail = write_le32 (crc32 (payload rec)) ++ (replicate (encoded_size k - raw_size k) 0 ++ rest)

    -- The record with its tail, field after field.
    abbrev fields : Bytes
    fields =
        magic
        ∷ rec.type % 256
        ∷ (rec.key ++ (write_le64 rec.disk_addr ++ (write_le64 rec.old_disk_addr ++ tail)))

    encode-eq-fields : encode k rec ++ rest ≡ fields
    unfolding encode payload
    encode-eq-fields = simp append_assoc

    payload-eq-fields : payload rec ++ tail ≡ fields
    unfolding payload
    payload-eq-fields = simp append_assoc

    take-payload : take (crc_offset k) fields ≡ payload rec
    take-payload =
        ap (take (crc_offset k)) (sym payload-eq-fields)
        ∙ take-append (crc_offset k) (payload rec) tail length-payload

    drop_payload : drop (crc_offset k) fields ≡ tail
    drop_payload =
        ap (drop (crc_offset k)) (sym payload-eq-fields)
        ∙ drop-append (crc_offset k) (payload rec) tail length-payload

    drop_key :
        drop (2 + k) fields ≡ write_le64 rec.disk_addr ++ (write_le64 rec.old_disk_addr ++ tail)
    drop_key =
        drop-append (2 + k) (magic ∷ rec.type % 256 ∷ rec.key)
          (write_le64 rec.disk_addr ++ (write_le64 rec.old_disk_addr ++ tail))
          (omega (arith, h.key_fits))

    drop_addr : drop (10 + k) fields ≡ write_le64 rec.old_disk_addr ++ tail
    drop_addr =
        ap (drop (10 + k)) (
          sym (
            append_assoc (magic ∷ rec.type % 256 ∷ rec.key) (write_le64 rec.disk_addr)
              (write_le64 rec.old_disk_addr ++ tail)))
        ∙ drop-append (10 + k) ((magic ∷ rec.type % 256 ∷ rec.key) ++ write_le64 rec.disk_addr)
            (write_le64 rec.old_disk_addr ++ tail)
            (omega (
              arith,
              h.key_fits,
              length-append {0} (magic ∷ rec.type % 256 ∷ rec.key) (write_le64 rec.disk_addr),
              length-write_le64,
            ))

    decode-fields : decode k fields ≡ some rec
    unfolding decode
    decode-fields = ground (
      arith,
      take-payload,
      drop_payload,
      drop_key,
      drop_addr,
      h.type_fits,
      take-append k rec.key (write_le64 rec.disk_addr ++ (write_le64 rec.old_disk_addr ++ tail))
          h.key_fits,
      crc32-lt (payload rec),
      read_le32-write_le32 (crc32 (payload rec))
          (replicate (encoded_size k - raw_size k) 0 ++ rest),
      read_le64-write_le64 rec.disk_addr (write_le64 rec.old_disk_addr ++ tail) h.addr_fits,
      read_le64-write_le64 rec.old_disk_addr tail h.old_addr_fits,
    )

    -- For a record whose fields fit their C++ types, decoding its encoding, whatever follows it,
    -- gives the record.
    pub decode-encode : decode k (encode k rec ++ rest) ≡ some rec
    decode-encode = ap (decode k) encode-eq-fields ∙ decode-fields
