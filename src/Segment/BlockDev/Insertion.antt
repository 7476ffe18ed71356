-- ===== src/Segment/BlockDev/Insertion.antt =====
-- `Insert` of a segment on a block device, as a change to the map that the segment stores
-- (parakv/core/segment/segment_block_dev.cc).
use para_kv.Prelude.{
  ℕ, ◌+◌, ◌^◌, ◌<◌, ◌≡◌, ◌≢◌, refl, sym, ap, ◌∙◌, ◌⊎◌, inl, inr, some, length, arith, ltb, ltb→lt,
  ◌==◌, ==_iff, if◌then◌else◌, Bool-cases,
}
use para_kv.Prelude.Bytes.{Bytes}
use para_kv.Status.{Status, is_ok, ok, io_error, full}
use para_kv.Segment.Bitmap.{
  set_slot_bit, is_slot_occupied, occupied-set, occupied-clear, set_slot_bit-AreBytes,
  length-set_slot_bit, length-clear_slot_bit,
}
use para_kv.Segment.Base.{update_state}
use para_kv.Segment.File.Valid.{IsValid}
use para_kv.Segment.Base.Agrees.{Agrees-insert, Agrees-set_clear}
use para_kv.Segment.BlockDev.{
  BlockDeviceIo, SegmentBlockDev, flush_bitmap, write_payload, insert_flushed, insert_payload,
  insert,
}
use para_kv.Segment.BlockDev.Place.{SamePlace, SamePlace-refl}
use para_kv.Segment.BlockDev.Device.{IsDevice, IsReady, AgreeOutside, flush-AgreeOutside, flush_ok}

-- The segment with the bit of a slot set.
abbrev pub with_bit : SegmentBlockDev → ℕ → SegmentBlockDev
with_bit s slot = record s { base = record s.base { bitmap = set_slot_bit s.base.bitmap slot } }

module _ (io : BlockDeviceIo) (laws : IsDevice io) where
  -- An insertion returns early and changes nothing, or it takes the slot at the cursor.
  pub insert-cases :
      (s : SegmentBlockDev) (d : io.Device) (key value : Bytes)
      → ((insert io s d (some key) (some value)).2 ≡ s)
          × ((insert io s d (some key) (some value)).3 ≡ d)
          × ((insert io s d (some key) (some value)).0 ≢ ok)
        ⊎ (s.base.append_cursor < s.base.total_slots)
          × (insert io s d (some key) (some value)
              ≡ insert_payload io s s.base.append_cursor
                  (write_payload io s d s.base.append_cursor key value))
  unfolding insert
  insert-cases s d key value = elim (Bool-cases s.opened) [
    | inr closed ↦ simp closed (inl (refl, refl, differ))
    | inl open_ ↦ elim (Bool-cases (ltb s.base.append_cursor s.base.total_slots)) [
      | inr none_left ↦ simp (open_, none_left) (inl (refl, refl, full_differs))
      | inl room ↦ elim (Bool-cases (ltb s.base.append_cursor (2 ^ 31))) [
        | inr negative ↦ simp (open_, room, negative) (inl (refl, refl, full_differs))
        | inl small ↦ simp (open_, room, small) (inr (ltb→lt _ _ room, refl))
      ]
    ]
  ]
    where
      differ : io_error ≢ ok
      differ e = cc

      full_differs : full ≢ ok
      full_differs e = cc

  -- The bit of the slot is set where the flush succeeds, and clear where it fails.
  pub insert_flushed-SamePlace :
      (s : SegmentBlockDev) (slot : ℕ) (e : Status) (d : io.Device)
      → SamePlace (insert_flushed io (with_bit s slot) slot (e, d)).2 s
  unfolding update_state
  insert_flushed-SamePlace s slot ok d = record {
    config = refl;
    data_start = refl;
    width = refl;
    slots = refl;
    lba = refl;
    size = refl;
    id = refl;
    bits = length-set_slot_bit s.base.bitmap slot;
  }
  insert_flushed-SamePlace s slot e d = record {
    config = refl;
    data_start = refl;
    width = refl;
    slots = refl;
    lba = refl;
    size = refl;
    id = refl;
    bits =
        length-clear_slot_bit (set_slot_bit s.base.bitmap slot) slot
        ∙ length-set_slot_bit s.base.bitmap slot;
  }

  insert_flushed-rest :
      (s : SegmentBlockDev) (slot : ℕ) (e : Status) (d : io.Device)
      → ((insert_flushed io (with_bit s slot) slot (e, d)).0 ≡ e)
        × ((insert_flushed io (with_bit s slot) slot (e, d)).1 ≡ (if is_ok e then slot else 0))
        × ((insert_flushed io (with_bit s slot) slot (e, d)).3 ≡ d)
  insert_flushed-rest s slot ok d = (refl, refl, refl)
  insert_flushed-rest s slot e d = (refl, refl, refl)

  module _ (s : SegmentBlockDev) (r : IsReady s)
      (room : s.base.append_cursor < s.base.total_slots) where
    abbrev cursor : ℕ
    cursor = s.base.append_cursor

    insert_flushed-IsValid :
        (e : Status) (d : io.Device)
        → IsValid (insert_flushed io (with_bit s cursor) cursor (e, d)).2.base
    unfolding update_state
    insert_flushed-IsValid ok d = Agrees-insert r.valid room
    insert_flushed-IsValid e d =
        Agrees-set_clear cursor r.valid room (r.valid.fresh cursor (omega arith))

    insert_flushed-occupied :
        (e : Status) (d : io.Device) (j : ℕ)
        → is_slot_occupied (insert_flushed io (with_bit s cursor) cursor (e, d)).2.base.bitmap j
          ≡ (if cursor == j then is_ok e else is_slot_occupied s.base.bitmap j)
    unfolding update_state
    insert_flushed-occupied ok d j =
        occupied-set s.base.bitmap cursor r.valid.bytes j (omega (arith, r.valid.bits))
    insert_flushed-occupied e d j = ground (
      arith,
      occupied-clear (set_slot_bit s.base.bitmap cursor) cursor
          (set_slot_bit-AreBytes s.base.bitmap cursor r.valid.bytes) j
          (omega (arith, r.valid.bits, length-set_slot_bit s.base.bitmap cursor)),
      occupied-set s.base.bitmap cursor r.valid.bytes j (omega (arith, r.valid.bits)),
    )

  -- The bitmap of a successful insertion is the one that was flushed.
  flushed_bitmap :
      (s : SegmentBlockDev) (slot : ℕ) (e : Status) (d : io.Device)
      → e ≡ ok
      → laws.bytes_at d s.base_lba_offset (length (with_bit s slot).base.bitmap)
        ≡ (with_bit s slot).base.bitmap
      → let out = insert_flushed io (with_bit s slot) slot (e, d) in
        laws.bytes_at out.3 s.base_lba_offset (length out.2.base.bitmap) ≡ out.2.base.bitmap
  unfolding update_state
  flushed_bitmap s slot ok d fine h = h
  flushed_bitmap s slot e d fine h = cc

  -- What an insertion at the cursor of `s` has done, by the device `d` after the payload's writes.
  pub record Inserted (s : SegmentBlockDev) (e : Status) (d : io.Device)
      (out : Status × ℕ × SegmentBlockDev × io.Device) : Type 0 where
    pub place : SamePlace out.2 s
    pub valid : IsValid out.2.base
    pub occupied :
        (j : ℕ)
        → is_slot_occupied out.2.base.bitmap j
          ≡ (if s.base.append_cursor == j then is_ok out.0 else is_slot_occupied s.base.bitmap j)
    pub outside :
        AgreeOutside io laws s.base_lba_offset (s.base_lba_offset + length s.base.bitmap) d out.3
    pub synced :
        out.0 ≡ ok
        → laws.bytes_at out.3 s.base_lba_offset (length out.2.base.bitmap) ≡ out.2.base.bitmap
    pub done : out.0 ≡ ok → (e ≡ ok) × (out.1 ≡ s.base.append_cursor)

  pub insert_payload-Inserted :
      (s : SegmentBlockDev) (e : Status) (d : io.Device)
      → IsReady s
      → s.base.append_cursor < s.base.total_slots
      → Inserted s e d (insert_payload io s s.base.append_cursor (e, d))
  insert_payload-Inserted s ok d r room =
      let c = s.base.append_cursor in
      let f = flush_bitmap io (with_bit s c) d in
      let (st, slot, dev) = insert_flushed-rest s c f.0 f.1 in
      record {
        place = insert_flushed-SamePlace s c f.0 f.1;
        valid = insert_flushed-IsValid s r room f.0 f.1;
        occupied = λ j. rw st (insert_flushed-occupied s r room f.0 f.1 j);
        outside = λ at n away.
            ap (λ (g : io.Device). laws.bytes_at g at n) dev
            ∙ flush-AgreeOutside io laws (with_bit s c) d (omega (arith, r.placed.no_wrap)) at n
                (omega (arith, length-set_slot_bit s.base.bitmap c));
        synced = λ fine.
            flushed_bitmap s c f.0 f.1 (sym st ∙ fine)
              (flush_ok io laws (with_bit s c) d (omega (arith, r.placed.no_wrap)) (sym st ∙ fine));
        done = λ fine. (refl, slot ∙ ground (arith, st, fine));
      }
  insert_payload-Inserted s e d r room = record {
    place = SamePlace-refl s;
    valid = r.valid;
    occupied = λ j. elim (Bool-cases (s.base.append_cursor == j)) [
      | inl here ↦ rw here (
          ap (is_slot_occupied s.base.bitmap) (sym ((==_iff _ _).0 here))
          ∙ r.valid.fresh s.base.append_cursor (omega arith))
      | inr there ↦ rw there refl
    ];
    outside = λ at n away. refl;
    synced = λ fine. cc;
    done = λ fine. cc;
  }
