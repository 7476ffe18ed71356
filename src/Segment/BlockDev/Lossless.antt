-- ===== src/Segment/BlockDev/Lossless.antt =====
-- What `Compact` leaves in the source and in a target on the same block device
-- (parakv/core/segment/segment_block_dev.cc).
use mathlib.Core.Path.{subst}
use para_kv.Prelude.{
  ℕ, ◌+◌, ◌<◌, ◌≡◌, ◌≢◌, refl, sym, ◌∙◌, ◌⊎◌, inl, inr, none, some, [], length, arith, Bool-cases,
  length-replicate,
}
use para_kv.Prelude.Bytes.{Bytes}
use para_kv.Status.{Status, ok, io_error}
use para_kv.Segment.Bitmap.{is_slot_occupied}
use para_kv.Segment.Base.{reset_bitmap}
use para_kv.Segment.Base.Agrees.{occupied-lt}
use para_kv.Segment.File.Compaction.{reset_bitmap-IsValid}
use para_kv.Segment.File.Fresh.{occupied-replicate}
use para_kv.Segment.BlockDev.{BlockDeviceIo, SegmentBlockDev, flush_bitmap}
use para_kv.Segment.BlockDev.Batch.{Compacting, block_target, compact_loop, reset_source, compact}
use para_kv.Segment.BlockDev.Device.{IsDevice, IsReady, extent, contents, flush-AgreeOutside}
use para_kv.Segment.BlockDev.Place.{SamePlace, SamePlace-refl, SamePlace-IsReady}
use para_kv.Segment.BlockDev.Contents.{contents-off}
use para_kv.Segment.BlockDev.Isolation.{AreApart, contents-agree}
use para_kv.Segment.BlockDev.Compaction.{Reached, WasMoved}
use para_kv.Segment.BlockDev.Compacted.{loop-Reached}

module _ (io : BlockDeviceIo) (laws : IsDevice io) (s t : SegmentBlockDev) (d : io.Device) where
  abbrev State : Type 0
  State = Compacting SegmentBlockDev io.Device

  -- Both segments are ready, each pair of the source is still there or has moved, the target has
  -- kept its pairs, and the source is empty where the status is `kOk`.
  pub record IsLossless (out : SegmentBlockDev × State) : Type 0 where
    pub source_ready : IsReady out.0
    pub target_ready : IsReady out.1.to
    pub safe :
        (m : ℕ) (p : Bytes × Bytes)
        → contents io laws s d m ≡ some p
        → (contents io laws out.0 out.1.device m ≡ some p) ⊎ WasMoved io laws s t d out.1 m p
    pub kept :
        (j : ℕ) (p : Bytes × Bytes)
        → contents io laws t d j ≡ some p
        → contents io laws out.1.to out.1.device j ≡ some p
    pub emptied : out.1.status ≡ ok → (m : ℕ) → contents io laws out.0 out.1.device m ≡ none

  module _ (rs : IsReady s) (rt : IsReady t) (apart : AreApart t s) where
    -- A return before the end: the source is as it was.
    stopped-IsLossless :
        (i : ℕ) (c : State) → Reached io laws s t d i c → c.status ≢ ok → IsLossless (s, c)
    stopped-IsLossless i c h failed = record {
      source_ready = rs;
      target_ready = h.ready;
      safe = λ m p held. inl (
          contents-agree io laws s d c.device t.base_lba_offset (t.base_lba_offset + extent t.base)
            m rs h.outside (omega arith)
          ∙ held);
      kept = h.kept;
      emptied = λ done. absurd (failed done);
    }

    abbrev emptied_source : SegmentBlockDev
    emptied_source = record s { base = reset_bitmap s.base }

    emptied_source-SamePlace : SamePlace emptied_source s
    unfolding reset_bitmap
    emptied_source-SamePlace = record {
      config = refl;
      data_start = refl;
      width = refl;
      slots = refl;
      lba = refl;
      size = refl;
      id = refl;
      bits = length-replicate (length s.base.bitmap) 0;
    }

    emptied_source-free : (d' : io.Device) (m : ℕ) → contents io laws emptied_source d' m ≡ none
    unfolding reset_bitmap
    emptied_source-free d' m =
        contents-off io laws emptied_source d' m (occupied-replicate (length s.base.bitmap) m)

    -- The last flush leaves the target alone.
    flushed_target :
        (i : ℕ) (c : State) (j : ℕ)
        → Reached io laws s t d i c
        → contents io laws c.to (flush_bitmap io emptied_source c.device).1 j
          ≡ contents io laws c.to c.device j
    flushed_target i c j h =
        let place = h.place in
        let bits = emptied_source-SamePlace.bits in
        contents-agree io laws c.to c.device (flush_bitmap io emptied_source c.device).1
          s.base_lba_offset (s.base_lba_offset + length s.base.bitmap) j h.ready
          (λ at n away.
            flush-AgreeOutside io laws emptied_source c.device (omega (arith, rs.placed.no_wrap)) at
              n (omega (arith, bits)))
          (rw (place.lba, place.data_start, place.slots, place.width)
            (omega (arith, rs.placed.layout.data_start)))

    finished-IsLossless :
        (c : State)
        → Reached io laws s t d s.base.append_cursor c
        → c.status ≡ ok
        → IsLossless (reset_source io (block_target io) s c)
    finished-IsLossless c h done = record {
      source_ready =
          SamePlace-IsReady io laws emptied_source s emptied_source-SamePlace
            (reset_bitmap-IsValid s.base rs.valid) rs;
      target_ready = h.ready;
      safe = λ m p held.
          let (j, there, move) = h.moved done m p (stored-lt m p held) held in
          inr (j, flushed_target s.base.append_cursor c j h ∙ there, move);
      kept = λ j p held. flushed_target s.base.append_cursor c j h ∙ h.kept j p held;
      emptied = λ _ m. emptied_source-free _ m;
    }
      where
        none_some : {p : Bytes × Bytes} → none ≢ some p
        none_some e = cc

        stored-lt :
            (m : ℕ) (p : Bytes × Bytes) → contents io laws s d m ≡ some p → m < s.base.append_cursor
        stored-lt m p held = elim (Bool-cases (is_slot_occupied s.base.bitmap m)) [
          | inl on ↦ occupied-lt m rs.valid on
          | inr off ↦ absurd (none_some (sym (contents-off io laws s d m off) ∙ held))
        ]

    settled-IsLossless :
        (e : Status) (c : State)
        → c.status ≡ e
        → Reached io laws s t d s.base.append_cursor c
        → IsLossless (elim e as (λ _. SegmentBlockDev × State) [
          | ok ↦ reset_source io (block_target io) s c
          | f ↦ (s, c)
        ])
    settled-IsLossless ok c same h = finished-IsLossless c h same
    settled-IsLossless e c same h =
        stopped-IsLossless s.base.append_cursor c h (λ done. differs (sym same ∙ done))
      where
        differs : e ≢ ok
        differs f = cc

-- Where the loop starts.
start-Reached :
    (io : BlockDeviceIo) (laws : IsDevice io) (s t : SegmentBlockDev) (d : io.Device)
    → IsReady t
    → (e : Status) → Reached io laws s t d 0 (record { status = e; moves = []; to = t; device = d })
start-Reached io laws s t d rt e = record {
  ready = rt;
  place = SamePlace-refl t;
  outside = λ at n _. refl;
  kept = λ j p held. held;
  moved = λ _ m p below _. absurd (omega arith);
}

-- `Compact` of a ready segment into another ready segment with the same key and value sizes, in a
-- separate range of the same device, whatever the device answers: both segments are ready
-- afterwards; each pair of the source is still in its slot, or is in the target at a slot that a
-- call of the callback names with the pair's key and its old and new place; the target keeps its
-- pairs; where the status is `kOk` the source is empty.
pub compact-IsLossless :
    (io : BlockDeviceIo) (laws : IsDevice io) (s t : SegmentBlockDev) (d : io.Device)
    → IsReady s
    → IsReady t
    → AreApart t s
    → s.base.config.key_size ≡ t.base.config.key_size
    → s.base.config.value_size ≡ t.base.config.value_size
    → IsLossless io laws s t d (compact io (block_target io) s t d)
unfolding compact
compact-IsLossless io laws s t d rs rt apart keys values = elim (Bool-cases s.opened) [
  | inr closed ↦ simp closed (
      stopped-IsLossless io laws s t d rs rt apart 0 _ (start-Reached io laws s t d rt io_error)
        differs)
  | inl open_ ↦
      let start : Compacting SegmentBlockDev io.Device = record {
        status = ok;
        moves = [];
        to = t;
        device = d;
      } in
      let c = compact_loop io (block_target io) s s.base.append_cursor 0 start in
      let h : Reached io laws s t d s.base.append_cursor c =
        subst (λ (m : ℕ). Reached io laws s t d m c) (omega arith)
          (loop-Reached io laws s t d rs rt apart keys values s.base.append_cursor 0 start refl
            (start-Reached io laws s t d rt ok)) in
      simp open_ (settled-IsLossless io laws s t d rs rt apart c.status c refl h)
]
  where
    differs : io_error ≢ ok
    differs e = cc
