-- ===== src/Segment/BlockDev/Steps.antt =====
-- Runs of the operations of one segment on a shared block device
-- (parakv/core/segment/segment_block_dev.cc).
use para_kv.Prelude.{
  ℕ, zero, suc, ◌+◌, ◌≤◌, ◌≡◌, refl, ◌∙◌, inl, inr, Bool, true, false, ◌++◌, List, [], ◌∷◌, length,
  drop, arith, leb, if◌then◌else◌, Bool-cases, length-append, length-drop,
}
use para_kv.Prelude.Bytes.{Bytes}
use para_kv.Status.{Status, ok}
use para_kv.Segment.Bitmap.{
  set_slot_bit, clear_slot_bit, is_slot_occupied, length-set_slot_bit, length-clear_slot_bit,
}
use para_kv.Segment.Base.{update_state}
use para_kv.Segment.File.{rebuild, rebuilt}
use para_kv.Segment.File.Batch.{set_bits}
use para_kv.Segment.BlockDev.{
  BlockDeviceIo, SegmentBlockDev, flush_bitmap, load_bitmap, opened_loaded, open_segment,
  close_synced, close_flushed, close_segment, delete_flushed, delete_occupied, delete, sync_bitmap,
  absolute_offset,
}
use para_kv.Segment.BlockDev.Device.{IsDevice, AgreeOutside, extent}
use para_kv.Segment.BlockDev.Place.{SamePlace-refl}
use para_kv.Segment.BlockDev.Confined.{IsBounded, Confined, Confined-refl, flush-outside}

rebuild-le :
    (bm : Bytes) (n i used cursor : ℕ) → cursor ≤ i → (rebuild bm n i used cursor).1 ≤ i + n
unfolding rebuild
rebuild-le bm zero i used cursor h = omega arith
rebuild-le bm (suc n) i used cursor h =
    let on = is_slot_occupied bm i in
    let le : (if on then i + 1 else cursor) ≤ i + 1 = ground arith in
    omega (
      arith,
      rebuild-le bm n (i + 1) (if on then used + 1 else used) (if on then i + 1 else cursor) le,
    )

pub length-set_bits : (sids : List ℕ) (bm : Bytes) → length (set_bits sids bm) ≡ length bm
length-set_bits [] bm = refl
length-set_bits (sid ∷ sids) bm =
    length-set_bits sids (set_slot_bit bm sid) ∙ length-set_slot_bit bm sid

module _ (io : BlockDeviceIo) (laws : IsDevice io) (s : SegmentBlockDev) (d : io.Device)
    (b : IsBounded s) where
  abbrev Range : io.Device → Type 0
  Range = AgreeOutside io laws s.base_lba_offset (s.base_lba_offset + extent s.base) d

  -- `Open`.
  opened_loaded-Confined :
      (e : Status) (bm : Bytes) (d' : io.Device)
      → length bm ≡ length s.base.bitmap
      → Range d'
      → let out = opened_loaded io (e, record s { base = record s.base { bitmap = bm } }, d') in
        Confined io laws s d out.1 out.2
  unfolding rebuilt update_state
  opened_loaded-Confined ok bm d' len range = record {
    place = record {
      config = refl;
      data_start = refl;
      width = refl;
      slots = refl;
      lba = refl;
      size = refl;
      id = refl;
      bits = len;
    };
    within = omega (arith, rebuild-le bm s.base.total_slots 0 0 0 (omega arith));
    outside = range;
  }
  opened_loaded-Confined e bm d' len range = record {
    place = record {
      config = refl;
      data_start = refl;
      width = refl;
      slots = refl;
      lba = refl;
      size = refl;
      id = refl;
      bits = len;
    };
    within = b.within;
    outside = range;
  }

  either_Confined :
      (c : Bool) (x y : Status × SegmentBlockDev × io.Device)
      → Confined io laws s d x.1 x.2
      → Confined io laws s d y.1 y.2
      → Confined io laws s d (if c then x else y).1 (if c then x else y).2
  either_Confined true x y h k = h
  either_Confined false x y h k = k

  pub open-Confined : let out = open_segment io s d in Confined io laws s d out.1 out.2
  unfolding open_segment load_bitmap
  open-Confined =
      let off = absolute_offset s 0 in
      let r = io.read d s.base.bitmap_size off in
      either_Confined s.opened _ _ (Confined-refl io laws s d b) (
        opened_loaded-Confined r.0 (r.1 ++ drop (length r.1) s.base.bitmap) r.2
          (omega (
            arith,
            length-append r.1 (drop (length r.1) s.base.bitmap),
            length-drop (length r.1) s.base.bitmap,
            laws.length_read d s.base.bitmap_size off,
            b.placed.whole,
          ))
          (λ at n away. laws.read_keeps d s.base.bitmap_size off at n))

  -- `Close`.
  close_synced-Confined :
      (e : Status) (d' : io.Device)
      → Range d'
      → let out = close_synced io s (e, d') in Confined io laws s d out.1 out.2
  close_synced-Confined ok d' range = record {
    place = record {
      config = refl;
      data_start = refl;
      width = refl;
      slots = refl;
      lba = refl;
      size = refl;
      id = refl;
      bits = refl;
    };
    within = b.within;
    outside = range;
  }
  close_synced-Confined e d' range = record {
    place = SamePlace-refl s;
    within = b.within;
    outside = range;
  }

  close_flushed-Confined :
      (e : Status) (d' : io.Device)
      → Range d'
      → let out = close_flushed io s (e, d') in Confined io laws s d out.1 out.2
  close_flushed-Confined ok d' range =
      close_synced-Confined (io.sync d').0 (io.sync d').1
        (λ at n away. laws.sync_keeps d' at n ∙ range at n away)
  close_flushed-Confined e d' range = record {
    place = SamePlace-refl s;
    within = b.within;
    outside = range;
  }

  pub close-Confined : let out = close_segment io s d in Confined io laws s d out.1 out.2
  unfolding close_segment
  close-Confined = elim (Bool-cases s.opened) [
    | inr closed ↦ simp closed (Confined-refl io laws s d b)
    | inl open_ ↦
        let f = flush_bitmap io s d in
        simp open_ (close_flushed-Confined f.0 f.1 (flush-outside io laws s d s.base.bitmap b refl))
  ]

  -- `SyncBitmap`.
  pub sync-Confined : Confined io laws s d s (sync_bitmap io s d).1
  unfolding sync_bitmap
  sync-Confined = elim (Bool-cases s.opened) [
    | inr closed ↦ simp closed (Confined-refl io laws s d b)
    | inl open_ ↦ simp open_ (record {
      place = SamePlace-refl s;
      within = b.within;
      outside = flush-outside io laws s d s.base.bitmap b refl;
    })
  ]

  -- `Delete`.
  delete_flushed-Confined :
      (e : Status) (d' : io.Device) (slot : ℕ)
      → Range d'
      → let t = record s { base = record s.base { bitmap = clear_slot_bit s.base.bitmap slot } } in
        let out = delete_flushed io t slot (e, d') in Confined io laws s d out.1 out.2
  unfolding update_state
  delete_flushed-Confined ok d' slot range = record {
    place = record {
      config = refl;
      data_start = refl;
      width = refl;
      slots = refl;
      lba = refl;
      size = refl;
      id = refl;
      bits = length-clear_slot_bit s.base.bitmap slot;
    };
    within = b.within;
    outside = range;
  }
  delete_flushed-Confined e d' slot range = record {
    place = record {
      config = refl;
      data_start = refl;
      width = refl;
      slots = refl;
      lba = refl;
      size = refl;
      id = refl;
      bits =
          length-set_slot_bit (clear_slot_bit s.base.bitmap slot) slot
          ∙ length-clear_slot_bit s.base.bitmap slot;
    };
    within = b.within;
    outside = range;
  }

  delete_occupied-Confined :
      (slot : ℕ) → let out = delete_occupied io s d slot in Confined io laws s d out.1 out.2
  unfolding delete_occupied
  delete_occupied-Confined slot =
      let bm = clear_slot_bit s.base.bitmap slot in
      let f = flush_bitmap io (record s { base = record s.base { bitmap = bm } }) d in
      delete_flushed-Confined f.0 f.1 slot
        (flush-outside io laws s d bm b (length-clear_slot_bit s.base.bitmap slot))

  pub delete-Confined :
      (slot : ℕ) → let out = delete io s d slot in Confined io laws s d out.1 out.2
  unfolding delete
  delete-Confined slot = elim (Bool-cases (leb s.base.total_slots slot)) [
    | inl out ↦ simp out (Confined-refl io laws s d b)
    | inr within ↦ elim (Bool-cases s.opened) [
      | inr closed ↦ simp (within, closed) (Confined-refl io laws s d b)
      | inl open_ ↦ elim (Bool-cases (is_slot_occupied s.base.bitmap slot)) [
        | inr free ↦ simp (within, open_, free) (Confined-refl io laws s d b)
        | inl taken ↦ simp (within, open_, taken) (delete_occupied-Confined slot)
      ]
    ]
  ]
