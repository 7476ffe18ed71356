-- ===== src/Index/Wal/Writer.antt =====
-- `WalWriter` (parakv/core/index/wal.h, parakv/core/index/wal.cc). The state holds the log file,
-- which outlives the writer, and what the operating system will answer: the outcomes of the
-- writes to come, and of the calls of `fsync` to come. A call beyond a list succeeds.
pub mod Log
pub mod Appended
use para_kv.Prelude.{
  ℕ, zero, suc, ◌+◌, ◌*◌, Bool, true, false, List, [], ◌∷◌, length, take, drop, if◌then◌else◌,
}
use para_kv.Prelude.Bytes.{Bytes}
use para_kv.Status.{Status, ok, io_error, invalid_argument}
use para_kv.Io.{File, Transfer, Written, pwrite_all}
use para_kv.Index.Wal.Record.{WalRecord, encode}

pub record WalWriter : Type 0 where
  -- whether `fd_ >= 0`
  pub is_open : Bool
  pub file : File
  pub bytes_written : ℕ
  pub script : List Transfer
  pub syncs : List Bool

abbrev pub next_sync : List Bool → Bool
next_sync [] = true
next_sync (b ∷ bs) = b

abbrev pub later_syncs : List Bool → List Bool
later_syncs [] = []
later_syncs (b ∷ bs) = bs

abbrev pub truncated : File → File
truncated f = record f { size = 0 }

-- `Open`: whether `open` and `fstat` succeed are arguments.
unfoldable pub open_writer : WalWriter → Bool → Bool → Bool → Status × WalWriter
open_writer w truncate opened stated =
    if w.is_open
    then (ok, w)
    else if opened
    then (let f = if truncate then truncated w.file else w.file in
        if stated
        then (ok, record w { is_open = true; file = f; bytes_written = f.size })
        else (io_error, record w { file = f }))
    else (io_error, w)

-- `Close`: the result of its `fsync` is dropped.
unfoldable pub close_writer : WalWriter → Status × WalWriter
close_writer w =
    if w.is_open then (ok, record w { is_open = false; syncs = later_syncs w.syncs }) else (ok, w)

-- The end of `WriteLocked`, by the result of `PWriteAll`.
abbrev pub wrote : WalWriter → ℕ → Written → Status × WalWriter
wrote w n r = elim r.status [
  | ok ↦ (ok, record w { file = r.file; bytes_written = w.bytes_written + n; script = r.script })
  | s ↦ (s, record w { file = r.file; script = r.script })
]

unfoldable pub write_locked : WalWriter → Bytes → Status × WalWriter
write_locked w buf =
    if w.is_open
    then wrote w (length buf) (pwrite_all w.script w.file buf w.bytes_written)
    else (io_error, w)

-- The `fsync` with which `Append` and `AppendBatch` end.
unfoldable pub synced : WalWriter → Status × WalWriter
synced w =
    if next_sync w.syncs
    then (ok, record w { syncs = later_syncs w.syncs })
    else (io_error, record w { syncs = later_syncs w.syncs })

abbrev pub then_sync : Status × WalWriter → Status × WalWriter
then_sync (ok, w) = synced w
then_sync (s, w) = (s, w)

unfoldable pub append : WalWriter → Bytes → Status × WalWriter
append w [] = (invalid_argument, w)
append w (b ∷ buf) = then_sync (write_locked w (b ∷ buf))

-- The loop of `AppendBatch`: `n` records of `size` bytes are left in `buf`.
unfoldable pub batch_loop : ℕ → ℕ → WalWriter → Bytes → Status × WalWriter
batch_loop size zero w buf = (ok, w)
batch_loop size (suc n) w buf =
    let (s, w') = write_locked w (take size buf) in
    let rest = batch_loop size n w' (drop size buf) in elim s [ ok ↦ rest | other ↦ (other, w') ]

unfoldable pub append_batch : WalWriter → Bytes → ℕ → ℕ → Status × WalWriter
append_batch w buf zero count = (invalid_argument, w)
append_batch w buf (suc size) zero = (invalid_argument, w)
append_batch w buf (suc size) (suc count) = then_sync (batch_loop (suc size) (suc count) w buf)

-- `Append` of a typed record.
unfoldable pub append_record : ℕ → WalWriter → WalRecord → Status × WalWriter
append_record key_size w rec = append w (encode key_size rec)
