-- ===== src/Segment/BlockDev/Batch.antt =====
-- `BatchInsert` and `Compact` of `SegmentBlockDev` (parakv/core/segment/segment_block_dev.cc).
use para_kv.Prelude.{
  ℕ, zero, suc, ◌+◌, ◌%◌, ◌^◌, not, Option, some, List, [], ◌∷◌, ◌++◌, take, drop, ltb,
  if◌then◌else◌, ◌-◌,
}
use para_kv.Prelude.Bytes.{Bytes}
use para_kv.Status.{Status, ok, io_error, invalid_argument, full}
use para_kv.Segment.Bitmap.{is_slot_occupied}
use para_kv.Segment.Base.{Segment, get_slot_offset, update_state, reset_bitmap}
use para_kv.Segment.File.Batch.{set_bits, Move}
use para_kv.Segment.BlockDev.{
  BlockDeviceIo, SegmentBlockDev, absolute_offset, flush_bitmap, write_payload, insert,
}

-- The counters after a batch.
abbrev pub taken_slots : ℕ → Segment → Segment
taken_slots count b = update_state (record b {
  used_slots = (b.used_slots + count) % 2 ^ 32;
  append_cursor = (b.append_cursor + count) % 2 ^ 32;
})

-- The segment that `Compact` moves to, a `SegmentBase` of any kind: its id, and its `Insert`, which
-- may be on the same device.
pub record CompactTarget (io : BlockDeviceIo) : Type 1 where
  pub State : Type 0
  pub segment_id : State → ℕ
  pub insert : State → io.Device → Bytes → Bytes → Status × ℕ × State × io.Device

-- What `Compact` has reached: its status, the moves so far, the target and the device.
pub record Compacting (S D : Type 0) : Type 0 where
  pub status : Status
  pub moves : List Move
  pub to : S
  pub device : D

module _ (io : BlockDeviceIo) where
  -- Phase 1: the payloads of `n` slots from `sid` on; the slot ids that are assigned.
  abbrev pub then_slot : ℕ → Status × List ℕ × io.Device → Status × List ℕ × io.Device
  then_slot sid (e, sids, d) = (e, sid ∷ sids, d)

  unfoldable pub write_batch :
      SegmentBlockDev → ℕ → ℕ → Bytes → Bytes → Status × io.Device → Status × List ℕ × io.Device
  unfolding write_payload
  write_batch s zero sid keys values (e, d) = (e, [], d)
  write_batch s (suc n) sid keys values (ok, d) =
      let c = s.base.config in
      let w = write_payload io s d sid (take c.key_size keys) (take c.value_size values) in
      let rest =
        write_batch s n ((sid + 1) % 2 ^ 32) (drop c.key_size keys) (drop c.value_size values) w in
      elim w.0 [ ok ↦ then_slot sid rest | e ↦ (e, [], w.1) ]
  write_batch s (suc n) sid keys values (e, d) = (e, [], d)

  -- Phase 2: the bits stay set where the flush fails.
  abbrev pub batch_flushed :
      SegmentBlockDev
      → ℕ
      → List ℕ
      → Status × io.Device
      → Status × List ℕ × SegmentBlockDev × io.Device
  batch_flushed s count sids (ok, d) = (ok, sids, record s { base = taken_slots count s.base }, d)
  batch_flushed s count sids (e, d) = (e, sids, s, d)

  abbrev pub batch_written :
      SegmentBlockDev
      → ℕ
      → Status × List ℕ × io.Device
      → Status × List ℕ × SegmentBlockDev × io.Device
  batch_written s count (ok, sids, d) =
      let t = record s { base = record s.base { bitmap = set_bits sids s.base.bitmap } } in
      batch_flushed t count sids (flush_bitmap io t d)
  batch_written s count (e, sids, d) = (e, sids, s, d)

  -- `BatchInsert`: the status, the slot ids that are filled in, the segment and the device.
  unfoldable pub batch_insert :
      SegmentBlockDev
      → io.Device
      → Option Bytes
      → Option Bytes
      → ℕ
      → Status × List ℕ × SegmentBlockDev × io.Device
  unfolding write_batch flush_bitmap update_state
  batch_insert s d (some keys) (some values) (suc n) =
      if not s.opened
      then (io_error, [], s, d)
      else if ltb ((s.base.total_slots + 2 ^ 32 - s.base.append_cursor) % 2 ^ 32) (suc n)
      then (full, [], s, d)
      else batch_written s (suc n) (write_batch s (suc n) s.base.append_cursor keys values (ok, d))
  batch_insert s d keys values n = (invalid_argument, [], s, d)

  module _ (target : CompactTarget io) where
    abbrev pub moved_slot :
        ℕ
        → ℕ
        → List Move
        → Bytes
        → Status × ℕ × target.State × io.Device
        → Compacting target.State io.Device
    moved_slot id i moves key (ok, slot, t, d) = record {
      status = ok;
      moves =
          moves
          ++ record {
            key = key;
            old_segment_id = id;
            old_slot_id = i;
            new_segment_id = target.segment_id t;
            new_slot_id = slot;
          }
            ∷ [];
      to = t;
      device = d;
    }
    moved_slot id i moves key (e, slot, t, d) = record {
      status = e;
      moves = moves;
      to = t;
      device = d;
    }

    abbrev pub value_read :
        ℕ
        → ℕ
        → Compacting target.State io.Device
        → Bytes
        → Status × Bytes × io.Device
        → Compacting target.State io.Device
    value_read id i c key (ok, value, d) =
        moved_slot id i c.moves key (target.insert c.to d key value)
    value_read id i c key (e, value, d) = record c { status = e; device = d }

    abbrev pub key_read :
        SegmentBlockDev
        → ℕ
        → ℕ
        → Compacting target.State io.Device
        → Status × Bytes × io.Device
        → Compacting target.State io.Device
    key_read s i off c (ok, key, d) =
        value_read s.base.segment_id i c key
          (io.read d s.base.config.value_size ((off + s.base.config.key_size) % 2 ^ 64))
    key_read s i off c (e, key, d) = record c { status = e; device = d }

    -- One occupied slot.
    unfoldable pub move_slot :
        SegmentBlockDev → ℕ → Compacting target.State io.Device → Compacting target.State io.Device
    unfolding absolute_offset get_slot_offset
    move_slot s i c =
        let off = absolute_offset s (get_slot_offset s.base i) in
        key_read s i off c (io.read c.device s.base.config.key_size off)

    -- The loop of `Compact` from slot `i` on, with `n` slots left.
    unfoldable pub compact_loop :
        SegmentBlockDev
        → ℕ
        → ℕ
        → Compacting target.State io.Device
        → Compacting target.State io.Device
    unfolding move_slot
    compact_loop s zero i c = c
    compact_loop s (suc n) i c =
        let next = if is_slot_occupied s.base.bitmap i then move_slot s i c else c in
        let rest = compact_loop s n (i + 1) next in elim next.status [ ok ↦ rest | e ↦ next ]

    -- The end of `Compact`: `ResetBitmap` and `FlushBitmap`.
    abbrev pub reset_source :
        SegmentBlockDev
        → Compacting target.State io.Device
        → SegmentBlockDev × Compacting target.State io.Device
    reset_source s c =
        let t = record s { base = reset_bitmap s.base } in
        let (e, d) = flush_bitmap io t c.device in (t, record c { status = e; device = d })

    -- `Compact`: the source, and the rest of the state.
    unfoldable pub compact :
        SegmentBlockDev
        → target.State
        → io.Device
        → SegmentBlockDev × Compacting target.State io.Device
    unfolding compact_loop flush_bitmap reset_bitmap
    compact s t d =
        let start : Compacting target.State io.Device = record {
          status = ok;
          moves = [];
          to = t;
          device = d;
        } in
        if not s.opened
        then (s, record start { status = io_error })
        else (let c = compact_loop s s.base.append_cursor 0 start in
            elim c.status [ ok ↦ reset_source s c | e ↦ (s, c) ])

-- A block-device segment on the same device as target.
abbrev pub block_target : (io : BlockDeviceIo) → CompactTarget io
block_target io = record {
  State = SegmentBlockDev;
  segment_id = λ t. t.base.segment_id;
  insert = λ t d key value. insert io t d (some key) (some value);
}
