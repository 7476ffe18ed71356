-- ===== src/Segment/File/Batch.antt =====
-- `BatchInsert` and `Compact` of `SegmentFile` (parakv/core/segment/segment_file.cc).
use para_kv.Prelude.{
  ℕ, zero, suc, ◌+◌, ◌-◌, ◌%◌, ◌^◌, not, Option, some, List, [], ◌∷◌, ◌++◌, take, drop, ltb,
  if◌then◌else◌,
}
use para_kv.Prelude.Bytes.{Bytes}
use para_kv.Status.{Status, ok, io_error, invalid_argument, full}
use para_kv.Io.{PRead, pread_all}
use para_kv.Segment.Bitmap.{set_slot_bit, is_slot_occupied}
use para_kv.Segment.Base.{Segment, get_slot_offset, update_state, reset_bitmap}
use para_kv.Segment.File.{flush_bitmap, write_payload, insert}

-- Phase 1: the payloads of `n` slots from `sid` on; the slot ids that are assigned.
abbrev pub then_slot : ℕ → Status × List ℕ × Segment → Status × List ℕ × Segment
then_slot sid (e, sids, s) = (e, sid ∷ sids, s)

unfoldable pub write_batch : ℕ → ℕ → Bytes → Bytes → Status × Segment → Status × List ℕ × Segment
unfolding write_payload
write_batch zero sid keys values (e, s) = (e, [], s)
write_batch (suc n) sid keys values (ok, s) =
    let w = write_payload s sid (take s.config.key_size keys) (take s.config.value_size values) in
    let rest =
      write_batch n ((sid + 1) % 2 ^ 32) (drop s.config.key_size keys)
        (drop s.config.value_size values) w in
    elim w.0 [ ok ↦ then_slot sid rest | e ↦ (e, [], w.1) ]
write_batch (suc n) sid keys values (e, s) = (e, [], s)

-- Phase 2.
abbrev pub set_bits : List ℕ → Bytes → Bytes
set_bits [] bitmap = bitmap
set_bits (sid ∷ sids) bitmap = set_bits sids (set_slot_bit bitmap sid)

abbrev pub batch_flushed : ℕ → List ℕ → Status × Segment → Status × List ℕ × Segment
batch_flushed count sids (ok, s) = (
  ok,
  sids,
  update_state (record s {
    used_slots = (s.used_slots + count) % 2 ^ 32;
    append_cursor = (s.append_cursor + count) % 2 ^ 32;
  }),
)
batch_flushed count sids (e, s) = (e, sids, s)

abbrev pub batch_written : ℕ → Status × List ℕ × Segment → Status × List ℕ × Segment
batch_written count (ok, sids, s) =
    batch_flushed count sids (flush_bitmap (record s { bitmap = set_bits sids s.bitmap }))
batch_written count (e, sids, s) = (e, sids, s)

-- `BatchInsert`: the status, the slot ids that are filled in, and the state.
unfoldable pub batch_insert : Segment → Option Bytes → Option Bytes → ℕ → Status × List ℕ × Segment
unfolding write_batch flush_bitmap update_state
batch_insert s (some keys) (some values) (suc n) =
    if not s.is_open
    then (io_error, [], s)
    else if ltb ((s.total_slots + 2 ^ 32 - s.append_cursor) % 2 ^ 32) (suc n)
    then (full, [], s)
    else batch_written (suc n) (write_batch (suc n) s.append_cursor keys values (ok, s))
batch_insert s keys values n = (invalid_argument, [], s)

-- A call of the callback of `Compact`: the key, and the old and the new segment and slot.
pub record Move : Type 0 where
  pub key : Bytes
  pub old_segment_id : ℕ
  pub old_slot_id : ℕ
  pub new_segment_id : ℕ
  pub new_slot_id : ℕ

-- What `Compact` has reached: its status, the moves so far, and both segments.
pub record Compacting : Type 0 where
  pub status : Status
  pub moves : List Move
  pub source : Segment
  pub target : Segment

abbrev pub moved_slot : Compacting → Bytes → ℕ → Status × ℕ × Segment → Compacting
moved_slot c key i (ok, slot, t) = record c {
  target = t;
  moves =
      c.moves
      ++ record {
        key = key;
        old_segment_id = c.source.segment_id;
        old_slot_id = i;
        new_segment_id = t.segment_id;
        new_slot_id = slot;
      }
        ∷ [];
}
moved_slot c key i (e, slot, t) = record c { status = e; target = t }

abbrev pub value_read : Compacting → ℕ → Bytes → PRead → Compacting
value_read c i key v = elim v.status [
  | ok ↦
      moved_slot (record c { source = record c.source { script = v.script } }) key i
        (insert c.target (some key) (some v.buf))
  | e ↦ record c { status = e; source = record c.source { script = v.script } }
]

abbrev pub key_read : Compacting → ℕ → ℕ → PRead → Compacting
key_read c i off k = elim k.status [
  | ok ↦ value_read c i k.buf (
      pread_all k.script c.source.file ((off + c.source.config.key_size) % 2 ^ 64)
        c.source.config.value_size [])
  | e ↦ record c { status = e; source = record c.source { script = k.script } }
]

-- One occupied slot.
unfoldable pub move_slot : Compacting → ℕ → Compacting
move_slot c i =
    let off = get_slot_offset c.source i in
    key_read c i off (pread_all c.source.script c.source.file off c.source.config.key_size [])

-- The loop of `Compact` from slot `i` on, with `n` slots left.
unfoldable pub compact_loop : ℕ → ℕ → Compacting → Compacting
unfolding move_slot
compact_loop zero i c = c
compact_loop (suc n) i c =
    let next = if is_slot_occupied c.source.bitmap i then move_slot c i else c in
    let rest = compact_loop n (i + 1) next in elim next.status [ ok ↦ rest | e ↦ next ]

abbrev pub reset_source : Compacting → Compacting
reset_source c =
    let r = flush_bitmap (reset_bitmap c.source) in record c { status = r.0; source = r.1 }

-- `Compact` into another segment: both are objects of their own.
unfoldable pub compact : Segment → Segment → Compacting
unfolding compact_loop flush_bitmap reset_bitmap
compact s target =
    let start : Compacting = record { status = ok; moves = []; source = s; target = target } in
    if not s.is_open
    then record start { status = io_error }
    else (let c = compact_loop s.append_cursor 0 start in
        elim c.status [ ok ↦ reset_source c | e ↦ c ])
