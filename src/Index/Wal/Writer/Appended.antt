-- ===== src/Index/Wal/Writer/Appended.antt =====
-- What a successful append leaves in the writer (parakv/core/index/wal.cc).
use para_kv.Prelude.{
  ℕ, ◌+◌, ◌<◌, ◌≡◌, refl, sym, ap, ◌∙◌, inl, inr, List, ◌++◌, length, arith, Bool-cases,
}
use para_kv.Prelude.Bytes.{Bytes}
use para_kv.Status.{Status, ok, io_error}
use para_kv.Io.{File, Transfer, read_range, write_range, pwrite_all}
use para_kv.Io.Loops.{pwrite_all-ok}
use para_kv.Index.Wal.Record.{WalRecord, IsRecord, encode, encoded_size}
use para_kv.Index.Wal.Record.RoundTrip.{length-encode}
use para_kv.Index.Wal.Writer.{
  WalWriter, wrote, write_locked, synced, then_sync, append, append_record,
}
use para_kv.Index.Wal.Writer.Log.{log, log-write_range, then_sync-ok}

-- The buffer stands behind the log, and the log ends behind it.
abbrev pub Extended : WalWriter → Bytes → WalWriter → Type 0
Extended w buf w' =
    (w'.file ≡ write_range w.file w.bytes_written buf)
    × (w'.bytes_written ≡ w.bytes_written + length buf)

wrote-Extended :
    (w : WalWriter) (buf : Bytes) (s : Status) (f : File) (sc : List Transfer)
    → (s ≡ ok → f ≡ write_range w.file w.bytes_written buf)
    → (wrote w (length buf) (record { status = s; file = f; script = sc })).0 ≡ ok
    → Extended w buf (wrote w (length buf) (record { status = s; file = f; script = sc })).1
wrote-Extended w buf ok f sc file done = (file refl, refl)
wrote-Extended w buf s f sc file done = cc

then_sync-Extended :
    (w : WalWriter) (buf : Bytes) (r : Status × WalWriter)
    → Extended w buf r.1
    → Extended w buf (then_sync r).1
unfolding synced
then_sync-Extended w buf (ok, w') e = ground (arith, e)
then_sync-Extended w buf (s, w') e = e

write_locked-Extended :
    (w : WalWriter) (buf : Bytes)
    → (write_locked w buf).0 ≡ ok
    → Extended w buf (write_locked w buf).1
unfolding write_locked
write_locked-Extended w buf = elim (Bool-cases w.is_open) [
  | inl o ↦ simp o (
      let r = pwrite_all w.script w.file buf w.bytes_written in
      wrote-Extended w buf r.status r.file r.script
        (pwrite_all-ok w.script w.file buf w.bytes_written))
  | inr o ↦ simp o (λ done. absurd (error_is_not_ok done))
]
  where
    error_is_not_ok : io_error ≡ ok → ⊥
    error_is_not_ok e = cc

append_record-Extended :
    (k : ℕ) (w : WalWriter) (rec : WalRecord)
    → (append_record k w rec).0 ≡ ok
    → Extended w (encode k rec) (append_record k w rec).1
unfolding append_record append encode para_kv.Index.Wal.Record.payload
append_record-Extended k w rec done =
    let r = write_locked w (encode k rec) in
    then_sync-Extended w (encode k rec) r
      (write_locked-Extended w (encode k rec) (then_sync-ok r done))

-- After a successful append of a record to a log behind which less than a record is in the file,
-- the record is the log's last, and the log ends where the file ends.
pub append_record-log :
    (k : ℕ) (w : WalWriter) (rec : WalRecord)
    → IsRecord k rec
    → w.file.size < w.bytes_written + encoded_size k
    → (append_record k w rec).0 ≡ ok
    → (log (append_record k w rec).1 ≡ log w ++ encode k rec)
      × ((append_record k w rec).1.file.size ≡ (append_record k w rec).1.bytes_written)
unfolding write_range encode para_kv.Index.Wal.Record.payload
append_record-log k w rec fine short done =
    let (file, bytes) = append_record-Extended k w rec done in
    let w' = (append_record k w rec).1 in
    (
      ap (λ (n : ℕ). read_range w'.file 0 n) bytes
          ∙ ap (λ (f : File). read_range f 0 (w.bytes_written + length (encode k rec))) file
          ∙ log-write_range w.file w.bytes_written (encode k rec),
      ap (λ (f : File). f.size) file ∙ ground (arith, length-encode k rec fine, short) ∙ sym bytes,
    )
