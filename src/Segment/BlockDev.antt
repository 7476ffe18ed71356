-- ===== src/Segment/BlockDev.antt =====
-- `SegmentBlockDev` (parakv/core/segment/segment_block_dev.h, parakv/core/segment/segment_block_dev.cc):
-- a segment in a range of a block device. The device is reached through `BlockDeviceIO` only, is
-- shared by the segments on it, and so is a state of its own, which each operation takes and
-- returns. A null pointer is `none`; the pointers for the results are taken to be there. The lock
-- is held throughout each operation, which is one step.
pub mod Batch
pub mod Device
pub mod Place
pub mod Insertion
pub mod Contents
pub mod Deletion
pub mod Reading
pub mod Confined
pub mod Steps
pub mod Runs
pub mod Moving
pub mod Isolation
pub mod Compaction
pub mod Compacted
pub mod Lossless
pub mod Reopened
pub mod Filling
use para_kv.Prelude.{
  ℕ, zero, suc, ◌+◌, ◌%◌, ◌^◌, Bool, true, false, not, Option, none, some, List, [], ◌∷◌, ◌++◌,
  length, take, drop, ltb, leb, if◌then◌else◌, ◌-◌,
}
use para_kv.Prelude.Bytes.{Bytes}
use para_kv.Status.{Status, ok, io_error, invalid_argument, not_found, full}
use para_kv.Segment.Bitmap.{set_slot_bit, clear_slot_bit, is_slot_occupied}
use para_kv.Segment.Base.{
  Segment, SegmentConfig, create, increment, decrement, get_slot_offset, find_free_slot,
  update_state, reset_bitmap,
}
use para_kv.Segment.File.{rebuilt, blank}
use para_kv.Segment.File.Batch.{set_bits}

-- `BlockDeviceIO`, whose implementations are not part of the repository: `write` takes the bytes
-- and their offset, `read` the number of bytes and their offset and returns what it put into the
-- buffer.
pub record BlockDeviceIo : Type 1 where
  pub Device : Type 0
  pub write : Device → Bytes → ℕ → Status × Device
  pub read : Device → ℕ → ℕ → Status × Bytes × Device
  pub sync : Device → Status × Device

-- `base` is the part of `SegmentBase`. Its fields `is_open`, `file` and `script` are those that
-- `SegmentFile` adds, and are not used here.
pub record SegmentBlockDev : Type 0 where
  pub base : Segment
  pub base_lba_offset : ℕ
  pub opened : Bool

-- The constructor.
unfoldable pub new_segment_block_dev : ℕ → SegmentConfig → ℕ → SegmentBlockDev
unfolding create
new_segment_block_dev segment_id config base_lba_offset = record {
  base = create segment_id config (blank 0) [];
  base_lba_offset = base_lba_offset;
  opened = false;
}

unfoldable pub absolute_offset : SegmentBlockDev → ℕ → ℕ
absolute_offset s relative = (s.base_lba_offset + relative) % 2 ^ 64

-- The fields of the base that `Insert` sets once the bitmap is on the device.
abbrev pub taken_slot : Segment → Segment
taken_slot b =
    update_state
      (record b { used_slots = increment b.used_slots; append_cursor = increment b.append_cursor })

abbrev pub given_up_slot : Segment → Segment
given_up_slot b =
    update_state
      (record b { used_slots = decrement b.used_slots; deleted_slots = increment b.deleted_slots })

module _ (io : BlockDeviceIo) where
  -- `FlushBitmap` and `LoadBitmap`: the bitmap is at the segment's relative offset 0.
  unfoldable pub flush_bitmap : SegmentBlockDev → io.Device → Status × io.Device
  unfolding absolute_offset
  flush_bitmap s d = io.write d s.base.bitmap (absolute_offset s 0)

  unfoldable pub load_bitmap : SegmentBlockDev → io.Device → Status × SegmentBlockDev × io.Device
  unfolding absolute_offset
  load_bitmap s d =
      let (e, buf, d') = io.read d s.base.bitmap_size (absolute_offset s 0) in
      (e, record s { base = record s.base { bitmap = buf ++ drop (length buf) s.base.bitmap } }, d')

  abbrev pub opened_loaded :
      Status × SegmentBlockDev × io.Device → Status × SegmentBlockDev × io.Device
  opened_loaded (ok, s, d) = (ok, record s { base = rebuilt s.base; opened = true }, d)
  opened_loaded (e, s, d) = (e, s, d)

  -- `Open`.
  unfoldable pub open_segment : SegmentBlockDev → io.Device → Status × SegmentBlockDev × io.Device
  unfolding load_bitmap rebuilt
  open_segment s d = if s.opened then (ok, s, d) else opened_loaded (load_bitmap s d)

  -- `Close`: the segment stays open where the flush or the sync fails.
  abbrev pub close_synced :
      SegmentBlockDev → Status × io.Device → Status × SegmentBlockDev × io.Device
  close_synced s (ok, d) = (ok, record s { opened = false }, d)
  close_synced s (e, d) = (e, s, d)

  abbrev pub close_flushed :
      SegmentBlockDev → Status × io.Device → Status × SegmentBlockDev × io.Device
  close_flushed s (ok, d) = close_synced s (io.sync d)
  close_flushed s (e, d) = (e, s, d)

  unfoldable pub close_segment : SegmentBlockDev → io.Device → Status × SegmentBlockDev × io.Device
  unfolding flush_bitmap
  close_segment s d = if not s.opened then (ok, s, d) else close_flushed s (flush_bitmap s d)

  -- The two writes of a slot's payload, at the slot's absolute offset.
  abbrev pub then_value : SegmentBlockDev → Bytes → ℕ → Status × io.Device → Status × io.Device
  then_value s value off (ok, d) =
      io.write d (take s.base.config.value_size value) ((off + s.base.config.key_size) % 2 ^ 64)
  then_value s value off (e, d) = (e, d)

  unfoldable pub write_payload :
      SegmentBlockDev → io.Device → ℕ → Bytes → Bytes → Status × io.Device
  unfolding absolute_offset get_slot_offset
  write_payload s d slot key value =
      let off = absolute_offset s (get_slot_offset s.base slot) in
      then_value s value off (io.write d (take s.base.config.key_size key) off)

  -- The end of `Insert`, by the result of `FlushBitmap` on a segment with the slot's bit set.
  abbrev pub insert_flushed :
      SegmentBlockDev → ℕ → Status × io.Device → Status × ℕ × SegmentBlockDev × io.Device
  insert_flushed s slot (ok, d) = (ok, slot, record s { base = taken_slot s.base }, d)
  insert_flushed s slot (e, d) =
      (e, 0, record s { base = record s.base { bitmap = clear_slot_bit s.base.bitmap slot } }, d)

  abbrev pub insert_payload :
      SegmentBlockDev → ℕ → Status × io.Device → Status × ℕ × SegmentBlockDev × io.Device
  insert_payload s slot (ok, d) =
      let t = record s { base = record s.base { bitmap = set_slot_bit s.base.bitmap slot } } in
      insert_flushed t slot (flush_bitmap t d)
  insert_payload s slot (e, d) = (e, 0, s, d)

  -- `Insert`: the status, the slot (0 where none is assigned), the segment and the device.
  unfoldable pub insert :
      SegmentBlockDev
      → io.Device
      → Option Bytes
      → Option Bytes
      → Status × ℕ × SegmentBlockDev × io.Device
  unfolding write_payload flush_bitmap update_state find_free_slot
  insert s d (some key) (some value) =
      if not s.opened then (io_error, 0, s, d) else elim (find_free_slot s.base) [
        | none ↦ (full, 0, s, d)
        | some slot ↦ insert_payload s slot (write_payload s d slot key value)
      ]
  insert s d key value = (invalid_argument, 0, s, d)

  -- `Delete`.
  abbrev pub delete_flushed :
      SegmentBlockDev → ℕ → Status × io.Device → Status × SegmentBlockDev × io.Device
  delete_flushed s slot (ok, d) = (ok, record s { base = given_up_slot s.base }, d)
  delete_flushed s slot (e, d) =
      (e, record s { base = record s.base { bitmap = set_slot_bit s.base.bitmap slot } }, d)

  unfoldable pub delete_occupied :
      SegmentBlockDev → io.Device → ℕ → Status × SegmentBlockDev × io.Device
  unfolding flush_bitmap update_state
  delete_occupied s d slot =
      let t = record s { base = record s.base { bitmap = clear_slot_bit s.base.bitmap slot } } in
      delete_flushed t slot (flush_bitmap t d)

  unfoldable pub delete : SegmentBlockDev → io.Device → ℕ → Status × SegmentBlockDev × io.Device
  delete s d slot =
      if leb s.base.total_slots slot
      then (invalid_argument, s, d)
      else if not s.opened
      then (io_error, s, d)
      else if not (is_slot_occupied s.base.bitmap slot)
      then (not_found, s, d)
      else delete_occupied s d slot

  -- A read into a buffer that may be missing.
  unfoldable pub read_into : Bool → io.Device → ℕ → ℕ → Status × Option Bytes × io.Device
  read_into true d n off = let (e, buf, d') = io.read d n off in (e, some buf, d')
  read_into false d n off = (ok, none, d)

  abbrev pub read_value :
      SegmentBlockDev
      → Bool
      → ℕ
      → Status × Option Bytes × io.Device
      → Status × Option Bytes × Option Bytes × io.Device
  read_value s want off (ok, key, d) =
      let (e, value, d') =
        read_into want d s.base.config.value_size ((off + s.base.config.key_size) % 2 ^ 64) in
      (e, key, value, d')
  read_value s want off (e, key, d) = (e, key, none, d)

  -- `Read`, with whether a key and a value buffer are given; what the buffers hold is `none` where
  -- nothing was read into them. The segment does not change.
  unfoldable pub read :
      SegmentBlockDev
      → io.Device
      → ℕ
      → Bool
      → Bool
      → Status × Option Bytes × Option Bytes × io.Device
  unfolding read_into absolute_offset get_slot_offset
  read s d slot want_key want_value =
      if leb s.base.total_slots slot
      then (invalid_argument, none, none, d)
      else if not s.opened
      then (io_error, none, none, d)
      else if not (is_slot_occupied s.base.bitmap slot)
      then (not_found, none, none, d)
      else (let off = absolute_offset s (get_slot_offset s.base slot) in
          read_value s want_value off (read_into want_key d s.base.config.key_size off))

  unfoldable pub sync_bitmap : SegmentBlockDev → io.Device → Status × io.Device
  unfolding flush_bitmap
  sync_bitmap s d = if not s.opened then (io_error, d) else flush_bitmap s d
