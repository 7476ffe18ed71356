-- ===== src/Segment/BlockDev/Moving.antt =====
-- `Compact` into a segment on the same block device stays in the ranges of the two segments
-- (parakv/core/segment/segment_block_dev.cc).
use para_kv.Prelude.{
  ℕ, zero, suc, ◌+◌, ◌%◌, ◌^◌, ◌≤◌, ◌≡◌, refl, ◌∙◌, ◌⊎◌, inl, inr, true, false, some, [], length,
  arith, if◌then◌else◌, Bool-cases, length-replicate, Bool,
}
use para_kv.Prelude.Bytes.{Bytes}
use para_kv.Status.{Status, ok, io_error}
use para_kv.Segment.Bitmap.{is_slot_occupied}
use para_kv.Segment.Base.{reset_bitmap, get_slot_offset}
use para_kv.Segment.BlockDev.{BlockDeviceIo, SegmentBlockDev, absolute_offset, flush_bitmap, insert}
use para_kv.Segment.BlockDev.Batch.{
  Compacting, block_target, moved_slot, value_read, key_read, move_slot, compact_loop, reset_source,
  compact,
}
use para_kv.Segment.BlockDev.Device.{IsDevice, extent}
use para_kv.Segment.BlockDev.Place.{SamePlace, SamePlace-refl, SamePlace-trans}
use para_kv.Segment.BlockDev.Confined.{
  IsBounded, Confined, Confined-IsBounded, flush-outside, insert-Confined,
}

-- A range of the device that a segment does not reach.
abbrev pub IsAway : SegmentBlockDev → ℕ → ℕ → Type 0
IsAway s at n = (at + n ≤ s.base_lba_offset) ⊎ (s.base_lba_offset + extent s.base ≤ at)

module _ (io : BlockDeviceIo) (laws : IsDevice io) where
  Confined-trans :
      (s t u : SegmentBlockDev) (d d1 d2 : io.Device)
      → Confined io laws s d t d1
      → Confined io laws t d1 u d2
      → Confined io laws s d u d2
  Confined-trans s t u d d1 d2 p q =
      let place = p.place in
      record {
        place = SamePlace-trans u t s q.place p.place;
        within = q.within;
        outside = λ at n away.
            q.outside at n (rw (place.lba, place.data_start, place.slots, place.width) away)
            ∙ p.outside at n away;
      }

  module _ (s t : SegmentBlockDev) (d : io.Device) (bt : IsBounded t) where
    abbrev State : Type 0
    State = Compacting SegmentBlockDev io.Device

    -- What the loop has done to the target.
    abbrev Carried : State → Type 0
    Carried c = Confined io laws t d c.to c.device

    -- Another device with the same bytes.
    Carried-read :
        (c : State) (e : Status) (d' : io.Device)
        → Carried c
        → ((at n : ℕ) → laws.bytes_at d' at n ≡ laws.bytes_at c.device at n)
        → Carried (record c { status = e; device = d' })
    Carried-read c e d' h same = record {
      place = h.place;
      within = h.within;
      outside = λ at n away. same at n ∙ h.outside at n away;
    }

    moved_slot-Carried :
        (i : ℕ) (c : State) (key : Bytes) (e : Status) (slot : ℕ) (t' : SegmentBlockDev)
        (d' : io.Device)
        → Confined io laws t d t' d'
        → Carried
            (moved_slot io (block_target io) s.base.segment_id i c.moves key (e, slot, t', d'))
    moved_slot-Carried i c key ok slot t' d' h = record {
      place = h.place;
      within = h.within;
      outside = h.outside;
    }
    moved_slot-Carried i c key e slot t' d' h = record {
      place = h.place;
      within = h.within;
      outside = h.outside;
    }

    value_read-Carried :
        (i : ℕ) (c : State) (key : Bytes) (e : Status) (value : Bytes) (d3 : io.Device)
        → Carried c
        → ((at n : ℕ) → laws.bytes_at d3 at n ≡ laws.bytes_at c.device at n)
        → Carried (value_read io (block_target io) s.base.segment_id i c key (e, value, d3))
    value_read-Carried i c key ok value d3 h same =
        let out = insert io c.to d3 (some key) (some value) in
        let read = Carried-read c ok d3 h same in
        moved_slot-Carried i c key out.0 out.1 out.2 out.3 (
          Confined-trans t c.to out.2 d d3 out.3 read (
            insert-Confined io laws c.to d3 (Confined-IsBounded io laws t c.to d d3 read bt)
              (some key) (some value)))
    value_read-Carried i c key e value d3 h same = Carried-read c e d3 h same

    key_read-Carried :
        (i off : ℕ) (c : State) (e : Status) (key : Bytes) (d2 : io.Device)
        → Carried c
        → ((at n : ℕ) → laws.bytes_at d2 at n ≡ laws.bytes_at c.device at n)
        → Carried (key_read io (block_target io) s i off c (e, key, d2))
    key_read-Carried i off c ok key d2 h same =
        let at_value = (off + s.base.config.key_size) % 2 ^ 64 in
        let size = s.base.config.value_size in
        let v = io.read d2 size at_value in
        value_read-Carried i c key v.0 v.1 v.2 h
          (λ at n. laws.read_keeps d2 size at_value at n ∙ same at n)
    key_read-Carried i off c e key d2 h same = Carried-read c e d2 h same

    move_slot-Carried :
        (i : ℕ) (c : State) → Carried c → Carried (move_slot io (block_target io) s i c)
    unfolding move_slot
    move_slot-Carried i c h =
        let off = absolute_offset s (get_slot_offset s.base i) in
        let size = s.base.config.key_size in
        let k = io.read c.device size off in
        key_read-Carried i off c k.0 k.1 k.2 h (laws.read_keeps c.device size off)

    either-Carried : (b : Bool) (x y : State) → Carried x → Carried y → Carried (if b then x else y)
    either-Carried true x y h k = h
    either-Carried false x y h k = k

    step-Carried :
        (e : Status) (rest next : State)
        → Carried rest
        → Carried next
        → Carried (elim e as (λ _. State) [ ok ↦ rest | f ↦ next ])
    step-Carried ok rest next h k = h
    step-Carried e rest next h k = k

    loop-Carried :
        (n i : ℕ) (c : State) → Carried c → Carried (compact_loop io (block_target io) s n i c)
    unfolding compact_loop
    loop-Carried zero i c h = h
    loop-Carried (suc n) i c h =
        let moved = move_slot io (block_target io) s i c in
        let next = if is_slot_occupied s.base.bitmap i then moved else c in
        let stepped =
          either-Carried (is_slot_occupied s.base.bitmap i) moved c (move_slot-Carried i c h) h in
        step-Carried next.status (compact_loop io (block_target io) s n (i + 1) next) next
          (loop-Carried n (i + 1) next stepped) stepped

    -- The source stays in its place, and the device changes in the two ranges at most.
    pub record Moved (out : SegmentBlockDev × State) : Type 0 where
      pub place : SamePlace out.0 s
      pub within : out.0.base.append_cursor ≤ out.0.base.total_slots
      pub apart :
          (at n : ℕ)
          → IsAway s at n
          → IsAway t at n
          → laws.bytes_at out.1.device at n ≡ laws.bytes_at d at n

    module _ (bs : IsBounded s) where
      stopped-Moved : (c : State) → Carried c → Moved (s, c)
      stopped-Moved c h = record {
        place = SamePlace-refl s;
        within = bs.within;
        apart = λ at n _ away. h.outside at n away;
      }

      reset-Moved : (c : State) → Carried c → Moved (reset_source io (block_target io) s c)
      unfolding reset_bitmap flush_bitmap
      reset-Moved c h = record {
        place = record {
          config = refl;
          data_start = refl;
          width = refl;
          slots = refl;
          lba = refl;
          size = refl;
          id = refl;
          bits = length-replicate (length s.base.bitmap) 0;
        };
        within = omega arith;
        apart = λ at n from_source from_target.
            flush-outside io laws s c.device (reset_bitmap s.base).bitmap bs
              (length-replicate (length s.base.bitmap) 0) at n from_source
            ∙ h.outside at n from_target;
      }

      settled-Moved :
          (e : Status) (c : State)
          → Carried c
          → Moved (elim e as (λ _. SegmentBlockDev × State) [
            | ok ↦ reset_source io (block_target io) s c
            | f ↦ (s, c)
          ])
      settled-Moved ok c h = reset-Moved c h
      settled-Moved e c h = stopped-Moved c h

      -- `Compact`.
      pub compact-Moved : Moved (compact io (block_target io) s t d)
      unfolding compact
      compact-Moved = elim (Bool-cases s.opened) [
        | inr closed ↦ simp closed (stopped-Moved _ (started io_error))
        | inl open_ ↦
            let start : State = record { status = ok; moves = []; to = t; device = d } in
            let c = compact_loop io (block_target io) s s.base.append_cursor 0 start in
            simp open_
              (settled-Moved c.status c (loop-Carried s.base.append_cursor 0 start (started ok)))
      ]
        where
          started : (e : Status) → Carried (record { status = e; moves = []; to = t; device = d })
          started e = record {
            place = SamePlace-refl t;
            within = bt.within;
            outside = λ at n away. refl;
          }
