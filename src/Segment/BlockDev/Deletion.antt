-- ===== src/Segment/BlockDev/Deletion.antt =====
-- `Delete` of a segment on a block device, as a change to the map that the segment stores
-- (parakv/core/segment/segment_block_dev.cc).
use mathlib.Core.Path.{subst}
use para_kv.Prelude.{
  ℕ, ◌+◌, ◌≡◌, ◌≢◌, refl, sym, ap, ◌∙◌, ◌⊎◌, inl, inr, true, ◌&&◌, not, none, length, arith, leb,
  ◌==◌, ==_iff, if◌then◌else◌, Bool-cases,
}
use para_kv.Status.{Status, is_ok, ok, invalid_argument, io_error, not_found}
use para_kv.Segment.Bitmap.{
  clear_slot_bit, is_slot_occupied, occupied-set, occupied-clear, clear_slot_bit-AreBytes,
  length-set_slot_bit, length-clear_slot_bit,
}
use para_kv.Segment.Base.{update_state}
use para_kv.Segment.Base.Agrees.{Agrees-delete, Agrees-clear_set, occupied-lt}
use para_kv.Segment.File.Valid.{IsValid}
use para_kv.Segment.BlockDev.{
  BlockDeviceIo, SegmentBlockDev, flush_bitmap, delete_flushed, delete_occupied, delete,
}
use para_kv.Segment.BlockDev.Device.{
  IsDevice, IsReady, contents, pair_at, AgreeOutside, flush-AgreeOutside,
}
use para_kv.Segment.BlockDev.Place.{SamePlace, SamePlace-pair_at, SamePlace-IsReady}
use para_kv.Segment.BlockDev.Contents.{is_ok_complete, pair_at-same}

abbrev without_bit : SegmentBlockDev → ℕ → SegmentBlockDev
without_bit s slot = record s {
  base = record s.base { bitmap = clear_slot_bit s.base.bitmap slot };
}

module _ (io : BlockDeviceIo) (laws : IsDevice io) where
  -- A deletion returns early and changes nothing, or it gives up an occupied slot.
  pub delete-cases :
      (s : SegmentBlockDev) (d : io.Device) (slot : ℕ)
      → ((delete io s d slot).1 ≡ s) × ((delete io s d slot).2 ≡ d) × ((delete io s d slot).0 ≢ ok)
        ⊎ (is_slot_occupied s.base.bitmap slot ≡ true)
          × (delete io s d slot ≡ delete_occupied io s d slot)
  unfolding delete
  delete-cases s d slot = elim (Bool-cases (leb s.base.total_slots slot)) [
    | inl out ↦ simp out (inl (refl, refl, invalid_differs))
    | inr within ↦ elim (Bool-cases s.opened) [
      | inr closed ↦ simp (within, closed) (inl (refl, refl, error_differs))
      | inl open_ ↦ elim (Bool-cases (is_slot_occupied s.base.bitmap slot)) [
        | inr free ↦ simp (within, open_, free) (inl (refl, refl, missing_differs))
        | inl taken ↦ simp (within, open_, taken) (inr (refl, refl))
      ]
    ]
  ]
    where
      invalid_differs : invalid_argument ≢ ok
      invalid_differs e = cc

      error_differs : io_error ≢ ok
      error_differs e = cc

      missing_differs : not_found ≢ ok
      missing_differs e = cc

  -- What a deletion of an occupied slot has done.
  pub record Deleted (s : SegmentBlockDev) (d : io.Device) (slot : ℕ)
      (out : Status × SegmentBlockDev × io.Device) : Type 0 where
    pub place : SamePlace out.1 s
    pub valid : IsValid out.1.base
    pub occupied :
        (j : ℕ)
        → is_slot_occupied out.1.base.bitmap j
          ≡ (if slot == j then not (is_ok out.0) else is_slot_occupied s.base.bitmap j)
    pub outside :
        AgreeOutside io laws s.base_lba_offset (s.base_lba_offset + length s.base.bitmap) d out.2

  delete_flushed-Deleted :
      (s : SegmentBlockDev) (d : io.Device) (slot : ℕ) (e : Status) (d' : io.Device)
      → IsReady s
      → is_slot_occupied s.base.bitmap slot ≡ true
      → AgreeOutside io laws s.base_lba_offset (s.base_lba_offset + length s.base.bitmap) d d'
      → Deleted s d slot (delete_flushed io (without_bit s slot) slot (e, d'))
  unfolding update_state
  delete_flushed-Deleted s d slot ok d' r on agree = record {
    place = record {
      config = refl;
      data_start = refl;
      width = refl;
      slots = refl;
      lba = refl;
      size = refl;
      id = refl;
      bits = length-clear_slot_bit s.base.bitmap slot;
    };
    valid = Agrees-delete slot r.valid on;
    occupied = λ j.
        let below = occupied-lt slot r.valid on in
        occupied-clear s.base.bitmap slot r.valid.bytes j
          (omega (arith, r.valid.bits, r.valid.within));
    outside = agree;
  }
  delete_flushed-Deleted s d slot e d' r on agree =
      let below = occupied-lt slot r.valid on in
      record {
        place = record {
          config = refl;
          data_start = refl;
          width = refl;
          slots = refl;
          lba = refl;
          size = refl;
          id = refl;
          bits =
              length-set_slot_bit (clear_slot_bit s.base.bitmap slot) slot
              ∙ length-clear_slot_bit s.base.bitmap slot;
        };
        valid = Agrees-clear_set slot r.valid (omega (arith, r.valid.within)) on;
        occupied = λ j. ground (
          arith,
          occupied-set (clear_slot_bit s.base.bitmap slot) slot
              (clear_slot_bit-AreBytes s.base.bitmap slot r.valid.bytes) j
              (omega
                (arith, r.valid.bits, r.valid.within, length-clear_slot_bit s.base.bitmap slot)),
          occupied-clear s.base.bitmap slot r.valid.bytes j
              (omega (arith, r.valid.bits, r.valid.within)),
        );
        outside = agree;
      }

  pub delete_occupied-Deleted :
      (s : SegmentBlockDev) (d : io.Device) (slot : ℕ)
      → IsReady s
      → is_slot_occupied s.base.bitmap slot ≡ true
      → Deleted s d slot (delete_occupied io s d slot)
  unfolding delete_occupied
  delete_occupied-Deleted s d slot r on =
      let f = flush_bitmap io (without_bit s slot) d in
      delete_flushed-Deleted s d slot f.0 f.1 r on (λ at n away.
        flush-AgreeOutside io laws (without_bit s slot) d (omega (arith, r.placed.no_wrap)) at n
          (omega (arith, length-clear_slot_bit s.base.bitmap slot)))

  module _ (s : SegmentBlockDev) (d : io.Device) (slot : ℕ)
      (out : Status × SegmentBlockDev × io.Device) (r : IsReady s)
      (on : is_slot_occupied s.base.bitmap slot ≡ true) (facts : Deleted s d slot out) where
    taken : (j : ℕ) → (slot == j) ≡ true → is_slot_occupied s.base.bitmap j ≡ true
    taken j here = ap (is_slot_occupied s.base.bitmap) (sym ((==_iff slot j).0 here)) ∙ on

    pair_kept : (j : ℕ) → pair_at io laws out.1 out.2 j ≡ pair_at io laws s d j
    pair_kept j =
        SamePlace-pair_at io laws out.1 s out.2 j facts.place
        ∙ pair_at-same io laws s d out.2 j _ _ r.placed facts.outside
            (inr (omega (arith, r.placed.layout.data_start)))

    contents-Deleted :
        (j : ℕ)
        → contents io laws out.1 out.2 j
          ≡ (if is_ok out.0 && (slot == j) then none else contents io laws s d j)
    unfolding contents
    contents-Deleted j =
        rw (facts.occupied j, pair_kept j)
          (elim (Bool-cases (slot == j)) [
            | inl here ↦ ground (arith, here, taken j here)
            | inr there ↦ ground (arith, there)
          ])

  -- From a ready segment, `Delete` of any slot removes the slot from the stored map where it
  -- answers `kOk`, and changes nothing where it fails, whatever failed; the segment is ready again.
  pub contents-delete :
      (s : SegmentBlockDev) (d : io.Device) (slot : ℕ)
      → IsReady s
      → let out = delete io s d slot in
        IsReady out.1
        × ((j : ℕ)
            → contents io laws out.1 out.2 j
              ≡ (if is_ok out.0 && (slot == j) then none else contents io laws s d j))
  contents-delete s d slot r = elim (delete-cases s d slot) [
    | inl (same, dev, failed) ↦ (
      subst IsReady (sym same) r,
      λ j. (λ i. contents io laws (same i) (dev i) j) ∙ sym (rw (is_ok_complete _ failed) refl),
    )
    | inr (on, e) ↦
        let facts = delete_occupied-Deleted s d slot r on in
        subst
          (λ (out : Status × SegmentBlockDev × io.Device).
            IsReady out.1
            × ((j : ℕ)
                → contents io laws out.1 out.2 j
                  ≡ (if is_ok out.0 && (slot == j) then none else contents io laws s d j)))
          (sym e)
          (
            SamePlace-IsReady io laws _ s facts.place facts.valid r,
            λ j. contents-Deleted s d slot _ r on facts j,
          )
  ]
