-- ===== src/Index/Store.antt =====
-- The state of `Index` (parakv/core/index/index.h) and its persistence (parakv/core/index/index.cc):
-- the log, checkpoints and recovery. A key is its raw bytes. The files are part of the state:
-- the log's in `wal`, also while `wal_` is null, and the snapshot.
pub mod Access
pub mod Durable
pub mod Others
pub mod Written
pub mod Freed
pub mod Served
pub mod Serving
pub mod Removing
pub mod RoundTrip
use mathlib.Core.Option
use para_kv.Prelude.{
  ℕ, ◌+◌, Bool, true, false, not, ◌&&◌, Option, none, some, List, [], ◌∷◌, ltb, leb, ◌==◌,
  if◌then◌else◌,
}
use para_kv.Prelude.Bytes.{Bytes}
use para_kv.Status.{Status, ok, io_error, invalid_argument, not_found, corruption}
use para_kv.Io.{File, Transfer}
use para_kv.Index.Table.{MapCalls}
use para_kv.Index.Wal.Record.{WalRecord, k_insert, k_update, k_delete}
use para_kv.Index.Wal.Writer.{WalWriter, open_writer, close_writer, append_record}
use para_kv.Index.Wal.Reader.{Replayed, replay}
use para_kv.Segment.Manager.{SegmentManager}

-- `key_size` is `sizeof(KeyT)`; the paths are modelled by whether they are empty.
pub record Options : Type 0 where
  pub key_size : ℕ
  pub segment_key_size : ℕ
  pub value_size : ℕ
  pub has_wal_path : Bool
  pub has_snapshot_dir : Bool
  pub wal_checkpoint_bytes : ℕ

pub record Index (o : MapCalls) : Type 0 where
  pub map : o.Map
  -- whether `wal_` is not null
  pub logging : Bool
  pub wal : WalWriter
  pub wal_bytes : ℕ
  pub snapshot : Option o.Archive
  pub opened : Bool
  pub manager : SegmentManager

-- Whether the calls of one checkpoint succeed: writing the snapshot, `rename`, and `open` and
-- `fstat` of the fresh log.
pub record CheckpointCalls : Type 0 where
  pub dumped : Bool
  pub renamed : Bool
  pub reopened : Bool
  pub stated : Bool

module _ (o : MapCalls) where
  abbrev pub rotated : Index o → Status × WalWriter → Status × Index o
  rotated ix (ok, w) = (ok, record ix { logging = true; wal = w; wal_bytes = 0 })
  rotated ix (e, w) = (e, record ix { logging = false; wal = w })

  unfoldable pub rotate_wal : CheckpointCalls → Index o → Status × Index o
  rotate_wal c ix =
      if not ix.logging
      then (ok, ix)
      else rotated ix (open_writer (close_writer ix.wal).1 true c.reopened c.stated)

  -- `LoadSnapshot`.
  unfoldable pub load_snapshot : Index o → o.Archive → Status × Index o
  load_snapshot ix file = elim (o.phmap_load file) [
    | none ↦ (corruption, ix)
    | some fresh ↦ (ok, record ix { map = fresh })
  ]

  unfoldable pub apply_record : o.Map → WalRecord → o.Map
  apply_record m rec =
      if rec.type == k_insert
      then o.assign m rec.key rec.disk_addr
      else if rec.type == k_update
      then o.assign m rec.key rec.disk_addr
      else if rec.type == k_delete
      then o.erase m rec.key
      else m

  abbrev pub apply_records : o.Map → List WalRecord → o.Map
  apply_records m [] = m
  apply_records m (rec ∷ recs) = apply_records (apply_record m rec) recs

module _ (o : MapCalls) (opts : Options) where
  unfoldable pub checkpoint : CheckpointCalls → Index o → Status × Index o
  unfolding rotate_wal
  checkpoint c ix =
      if not opts.has_snapshot_dir
      then (invalid_argument, ix)
      else if not c.dumped
      then (io_error, ix)
      else if not c.renamed
      then (io_error, ix)
      else rotate_wal o c (record ix { snapshot = some (o.phmap_dump ix.map) })

  abbrev pub appended : CheckpointCalls → Index o → Status × WalWriter → Status × Index o
  appended c ix (ok, w) =
      let logged = record ix { wal = w; wal_bytes = w.bytes_written } in
      let due =
        ltb 0 opts.wal_checkpoint_bytes
        && (leb opts.wal_checkpoint_bytes w.bytes_written && opts.has_snapshot_dir) in
      (ok, if due then (checkpoint c logged).1 else logged)
  appended c ix (e, w) = (e, record ix { wal = w })

  unfoldable pub append_wal : CheckpointCalls → Index o → WalRecord → Status × Index o
  unfolding checkpoint
  append_wal c ix rec =
      if not ix.logging then (ok, ix) else appended c ix (append_record opts.key_size ix.wal rec)

  -- The steps of `Open`: the snapshot, where its file is there; the log, where its file is there
  -- (`logged`), with what the calls of `read` answer; and the writer.
  abbrev pub open_snapshot : Index o → Option o.Archive → Status × Index o
  open_snapshot ix none = (ok, ix)
  open_snapshot ix (some file) = if opts.has_snapshot_dir then load_snapshot o ix file else (ok, ix)

  -- `truncate`.
  abbrev pub cut : File → ℕ → File
  cut f n = record f { size = n }

  abbrev pub replayed : Index o → Bool → Option Replayed → Status × Index o
  replayed ix truncated none = (corruption, ix)
  replayed ix truncated (some r) =
      let applied = record ix { map = apply_records o ix.map r.records } in
      elim r.status [
        | ok ↦
            if truncated
            then (
              ok,
              record applied { wal = record ix.wal { file = cut ix.wal.file r.last_good_offset } },
            )
            else (io_error, applied)
        | e ↦ (e, applied)
      ]

-- The calls of `Open`: whether the log's file is there, whether `open` succeeds for reading, what
-- the reads answer, whether `truncate` succeeds, and `open` and `fstat` of the writer.
pub record OpenCalls : Type 0 where
  pub wal_exists : Bool
  pub reader_opened : Bool
  pub reads : List Transfer
  pub truncated : Bool
  pub writer_opened : Bool
  pub writer_stated : Bool

module _ (o : MapCalls) (opts : Options) where
  abbrev pub writer_started : Index o → Status × WalWriter → Status × Index o
  writer_started ix (ok, w) =
      (ok, record ix { logging = true; wal = w; wal_bytes = w.bytes_written })
  writer_started ix (e, w) = (e, record ix { logging = true; wal = w })

  unfoldable pub start_writer : OpenCalls → Status × Index o → Status × Index o
  start_writer c (ok, ix) =
      if not opts.has_wal_path
      then (ok, ix)
      else writer_started ix
          (open_writer (record ix.wal { is_open = false }) false c.writer_opened c.writer_stated)
  start_writer c (e, ix) = (e, ix)

  -- The fuel is one more than the bytes of the log, since a record has at least one byte.
  unfoldable pub replay_wal : OpenCalls → Status × Index o → Status × Index o
  unfolding apply_record
  replay_wal c (ok, ix) =
      if not (opts.has_wal_path && c.wal_exists)
      then (ok, ix)
      else if not c.reader_opened
      then (io_error, ix)
      else replayed o opts ix c.truncated
          (replay opts.key_size (ix.wal.file.size + 1) c.reads ix.wal.file 0 0)
  replay_wal c (e, ix) = (e, ix)

  unfoldable pub open_index : OpenCalls → Index o → Status × Index o
  unfolding start_writer replay_wal load_snapshot
  open_index c ix =
      if ix.opened
      then (ok, ix)
      else if not (opts.segment_key_size == opts.key_size)
      then (invalid_argument, record ix { opened = true })
      else start_writer c
          (replay_wal c (open_snapshot o opts (record ix { opened = true }) ix.snapshot))

  unfoldable pub close_index : Index o → Status × Index o
  close_index ix =
      if not ix.opened
      then (ok, ix)
      else if not ix.logging
      then (ok, record ix { opened = false })
      else (ok, record ix { opened = false; logging = false; wal = (close_writer ix.wal).1 })
