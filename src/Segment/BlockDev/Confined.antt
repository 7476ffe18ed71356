-- ===== src/Segment/BlockDev/Confined.antt =====
-- Each operation of a segment on a block device stays in the segment's range of the device
-- (parakv/core/segment/segment_block_dev.cc).
use mathlib.Core.Path.{subst}
use para_kv.Prelude.{
  ℕ, ◌+◌, ◌^◌, ◌≤◌, ◌<◌, ◌≡◌, refl, sym, ap, ◌∙◌, inl, inr, Option, none, some, length, arith,
}
use para_kv.Prelude.Bytes.{Bytes}
use para_kv.Status.{Status, ok}
use para_kv.Segment.Bitmap.{set_slot_bit, length-set_slot_bit}
use para_kv.Segment.Base.{update_state}
use para_kv.Segment.BlockDev.{
  BlockDeviceIo, SegmentBlockDev, flush_bitmap, write_payload, insert_flushed, insert_payload,
  insert,
}
use para_kv.Segment.BlockDev.Device.{
  IsDevice, IsPlaced, AgreeOutside, extent, slot_at-le, flush-AgreeOutside,
  write_payload-AgreeOutside,
}
use para_kv.Segment.BlockDev.Place.{SamePlace, SamePlace-refl, SamePlace-IsPlaced}
use para_kv.Segment.BlockDev.Insertion.{with_bit, insert_flushed-SamePlace, insert-cases}

-- A segment in its place, with its cursor inside.
pub record IsBounded (s : SegmentBlockDev) : Type 0 where
  pub placed : IsPlaced s
  pub within : s.base.append_cursor ≤ s.base.total_slots
  pub small : s.base.total_slots < 2 ^ 32

module _ (io : BlockDeviceIo) (laws : IsDevice io) where
  -- From a segment and a device to the same segment and a device that differs in its range at most.
  pub record Confined (s : SegmentBlockDev) (d : io.Device) (t : SegmentBlockDev) (d' : io.Device)
      : Type 0 where
    pub place : SamePlace t s
    pub within : t.base.append_cursor ≤ t.base.total_slots
    pub outside : AgreeOutside io laws s.base_lba_offset (s.base_lba_offset + extent s.base) d d'

  pub Confined-IsBounded :
      (s t : SegmentBlockDev) (d d' : io.Device) → Confined s d t d' → IsBounded s → IsBounded t
  Confined-IsBounded s t d d' c b = record {
    placed = SamePlace-IsPlaced io laws t s c.place b.placed;
    within = c.within;
    small = rw c.place.slots b.small;
  }

  -- No change.
  pub Confined-refl : (s : SegmentBlockDev) (d : io.Device) → IsBounded s → Confined s d s d
  Confined-refl s d b = record {
    place = SamePlace-refl s;
    within = b.within;
    outside = λ at n away. refl;
  }

  -- A flush writes the bitmap, at the start of the range.
  pub flush-outside :
      (s : SegmentBlockDev) (d : io.Device) (bm : Bytes)
      → IsBounded s
      → length bm ≡ length s.base.bitmap
      → AgreeOutside io laws s.base_lba_offset
          (s.base_lba_offset + extent s.base)
          d
          (flush_bitmap io (record s { base = record s.base { bitmap = bm } }) d).1
  flush-outside s d bm b len at n away =
      flush-AgreeOutside io laws (record s { base = record s.base { bitmap = bm } }) d
        (omega (arith, b.placed.no_wrap)) at n (omega (arith, b.placed.layout.data_start))

  module _ (s : SegmentBlockDev) (d : io.Device) (b : IsBounded s) where
    insert_flushed-within :
        (e : Status) (d' : io.Device)
        → s.base.append_cursor < s.base.total_slots
        → let t =
            (insert_flushed io (with_bit s s.base.append_cursor) s.base.append_cursor (e, d')).2 in
          t.base.append_cursor ≤ t.base.total_slots
    unfolding update_state
    insert_flushed-within ok d' room = omega (arith, b.small)
    insert_flushed-within e d' room = omega arith

    insert_flushed-device :
        (e : Status) (slot : ℕ) (d' : io.Device)
        → (insert_flushed io (with_bit s slot) slot (e, d')).3 ≡ d'
    insert_flushed-device ok slot d' = refl
    insert_flushed-device e slot d' = refl

    insert_payload-Confined :
        (e : Status) (d1 : io.Device)
        → s.base.append_cursor < s.base.total_slots
        → AgreeOutside io laws s.base_lba_offset (s.base_lba_offset + extent s.base) d d1
        → let out = insert_payload io s s.base.append_cursor (e, d1) in Confined s d out.2 out.3
    insert_payload-Confined ok d1 room first =
        let c = s.base.append_cursor in
        let bm = set_slot_bit s.base.bitmap c in
        let f = flush_bitmap io (with_bit s c) d1 in
        record {
          place = insert_flushed-SamePlace io laws s c f.0 f.1;
          within = insert_flushed-within f.0 f.1 room;
          outside = λ at n away.
              ap (λ (g : io.Device). laws.bytes_at g at n) (insert_flushed-device f.0 c f.1)
              ∙ flush-outside s d1 bm b (length-set_slot_bit s.base.bitmap c) at n away
              ∙ first at n away;
        }
    insert_payload-Confined e d1 room first = record {
      place = SamePlace-refl s;
      within = b.within;
      outside = first;
    }

    pub payload-outside :
        (slot : ℕ) (key value : Bytes)
        → slot < s.base.total_slots
        → AgreeOutside io laws s.base_lba_offset
            (s.base_lba_offset + extent s.base)
            d
            (write_payload io s d slot key value).1
    payload-outside slot key value room at n away =
        write_payload-AgreeOutside io laws s d slot key value b.placed room at n
          (omega (arith, slot_at-le s slot room))

    pub insert-Confined :
        (key value : Option Bytes) → let out = insert io s d key value in Confined s d out.2 out.3
    insert-Confined (some key) (some value) = elim (insert-cases io laws s d key value) [
      | inl (same, dev, _) ↦
          subst (λ (t : SegmentBlockDev). Confined s d t (insert io s d (some key) (some value)).3)
            (sym same) (subst (Confined s d s) (sym dev) (Confined-refl s d b))
      | inr (room, e) ↦
          let w = write_payload io s d s.base.append_cursor key value in
          subst (λ (out : Status × ℕ × SegmentBlockDev × io.Device). Confined s d out.2 out.3)
            (sym e)
            (insert_payload-Confined w.0 w.1 room
              (payload-outside s.base.append_cursor key value room))
    ]
    insert-Confined (some key) none = unfold insert in Confined-refl s d b
    insert-Confined none value = unfold insert in Confined-refl s d b
