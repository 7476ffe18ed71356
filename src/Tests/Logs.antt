-- ===== src/Tests/Logs.antt =====
-- Runs of the log's codec, writer and reader, and of the address codec (parakv/core/index).
use para_kv.Prelude.{◌+◌, ◌*◌, ◌≡◌, ◌⊎◌, inl, refl, true, false, some, [], ◌∷◌, ◌++◌, arith}
use para_kv.Prelude.Bytes.{write_le64, write_le32}
use para_kv.Status.{ok, io_error}
use para_kv.Io.{File, moved, interrupted, write_range, read_range}
use para_kv.Index.Offset.{
  flag_value, segment_slot, encode_segment_slot, get_flag, get_segment_id, get_slot_id,
}
use para_kv.Index.Offset.RoundTrip.{encode_segment_slot_fields}
use para_kv.Index.Wal.Record.{WalRecord, IsRecord, encode, encoded_size, k_insert, k_update}
use para_kv.Index.Wal.Writer.{WalWriter, append}
use para_kv.Index.Wal.Writer.Log.{log, append-log, append_fsync_fails}
use para_kv.Index.Wal.Reader.{replay}
use para_kv.Index.Wal.Reader.Recovery.{encode_log, IsTail, replay-encode_log}

encode_segment_slot_fields_example :
    (get_flag (encode_segment_slot 7 11) ≡ flag_value segment_slot)
    × (get_segment_id (encode_segment_slot 7 11) ≡ 7)
    × (get_slot_id (encode_segment_slot 7 11) ≡ 11)
encode_segment_slot_fields_example = encode_segment_slot_fields 7 11 (omega arith) (omega arith)

-- A record with a key of two bytes.
abbrev a_record : WalRecord
a_record = record { type = k_insert; key = 5 ∷ 6 ∷ []; disk_addr = 300; old_disk_addr = 0 }

abbrev an_update : WalRecord
an_update = record { type = k_update; key = 5 ∷ 6 ∷ []; disk_addr = 301; old_disk_addr = 300 }

a_record-IsRecord : IsRecord 2 a_record
a_record-IsRecord = record {
  type_fits = omega arith;
  key_fits = refl;
  addr_fits = omega arith;
  old_addr_fits = omega arith;
}

an_update-IsRecord : IsRecord 2 an_update
an_update-IsRecord = record {
  type_fits = omega arith;
  key_fits = refl;
  addr_fits = omega arith;
  old_addr_fits = omega arith;
}

-- An open log that holds one byte; the next write is short, and the next `fsync` fails.
abbrev a_writer : WalWriter
a_writer = record {
  is_open = true;
  file = record { size = 1; byte = λ i. 9 };
  bytes_written = 1;
  script = moved 1 ∷ interrupted ∷ [];
  syncs = false ∷ [];
}

append-log_example :
    ((log (append a_writer (1 ∷ 2 ∷ [])).1 ≡ log a_writer)
      ⊎ (log (append a_writer (1 ∷ 2 ∷ [])).1 ≡ log a_writer ++ 1 ∷ 2 ∷ []))
    × ((append a_writer (1 ∷ 2 ∷ [])).0 ≡ ok
        → log (append a_writer (1 ∷ 2 ∷ [])).1 ≡ log a_writer ++ 1 ∷ 2 ∷ [])
append-log_example = append-log a_writer 1 (2 ∷ [])

append_fsync_fails_example :
    ((append a_writer (1 ∷ 2 ∷ [])).0 ≡ io_error)
    × (log (append a_writer (1 ∷ 2 ∷ [])).1 ≡ log a_writer ++ 1 ∷ 2 ∷ [])
append_fsync_fails_example = append_fsync_fails a_writer 1 (2 ∷ []) refl tt refl

-- A log of two records whose last bytes, of a third record, are torn.
abbrev torn_log : File
torn_log =
    write_range (record { size = 0; byte = λ i. 0 }) 0
      (encode_log 2 (a_record ∷ an_update ∷ []) ++ 0xA5 ∷ 1 ∷ [])

torn_log-records :
    read_range torn_log 0 (2 * encoded_size 2) ≡ encode_log 2 (a_record ∷ an_update ∷ [])
unfolding read_range write_range encode write_le64 write_le32
torn_log-records = refl

torn_log-IsTail : IsTail 2 torn_log (0 + 2 * encoded_size 2)
unfolding write_range encode write_le64 write_le32
torn_log-IsTail = (omega arith, inl (omega arith))

replay-encode_log_example :
    replay 2 3 (moved 3 ∷ interrupted ∷ []) torn_log 0 0
    ≡ some (record {
      status = ok;
      records = a_record ∷ an_update ∷ [];
      last_good_offset = 0 + 2 * encoded_size 2;
    })
replay-encode_log_example =
    replay-encode_log 2 (a_record ∷ an_update ∷ []) 3 (moved 3 ∷ interrupted ∷ []) torn_log 0 0 tt
      (a_record-IsRecord, (an_update-IsRecord, tt)) torn_log-records torn_log-IsTail (omega arith)
