-- ===== src/Segment/BlockDev/Isolation.antt =====
-- Segments in separate ranges of one block device do not disturb each other
-- (parakv/core/segment/segment_block_dev.h: "Each segment occupies [base_lba_offset, ...)").
use para_kv.Prelude.{
  ℕ, some, ◌+◌, ◌≤◌, ◌≡◌, refl, sym, ap, ◌∙◌, ◌⊎◌, inl, inr, Bool, Option, length, arith,
  Bool-cases,
}
use para_kv.Prelude.Bytes.{Bytes}
use para_kv.Segment.Bitmap.{is_slot_occupied}
use para_kv.Segment.Base.Agrees.{occupied-lt}
use para_kv.Segment.BlockDev.{
  BlockDeviceIo, SegmentBlockDev, open_segment, close_segment, insert, delete, read, sync_bitmap,
}
use para_kv.Segment.BlockDev.Batch.{batch_insert, block_target, compact}
use para_kv.Segment.BlockDev.Moving.{compact-Moved}
use para_kv.Segment.BlockDev.Device.{
  IsDevice, IsReady, AgreeOutside, extent, contents, slot_at, slot_at-le,
}
use para_kv.Segment.BlockDev.Place.{SamePlace, SamePlace-refl, SamePlace-IsPlaced}
use para_kv.Segment.BlockDev.Contents.{contents-on, contents-off, pair_at-same}
use para_kv.Segment.BlockDev.Confined.{IsBounded, Confined, Confined-IsBounded, insert-Confined}
use para_kv.Segment.BlockDev.Steps.{open-Confined, close-Confined, sync-Confined, delete-Confined}
use para_kv.Segment.BlockDev.Runs.{read-Range, batch_insert-Confined}

-- Two segments whose ranges do not overlap.
abbrev pub AreApart : SegmentBlockDev → SegmentBlockDev → Type 0
AreApart s u =
    (s.base_lba_offset + extent s.base ≤ u.base_lba_offset)
    ⊎ (u.base_lba_offset + extent u.base ≤ s.base_lba_offset)

-- One call of an operation, with any arguments and whatever the device answers. The target of a
-- compaction is a segment on the same device, in its place, in any state and apart from `u`.
pub data Step (io : BlockDeviceIo) (u : SegmentBlockDev)
    : SegmentBlockDev → io.Device → SegmentBlockDev → io.Device → Type 0 where
  opening :
      (s : SegmentBlockDev) (d : io.Device)
      → Step io u s d (open_segment io s d).1 (open_segment io s d).2
  closing :
      (s : SegmentBlockDev) (d : io.Device)
      → Step io u s d (close_segment io s d).1 (close_segment io s d).2
  inserting :
      (s : SegmentBlockDev) (d : io.Device) (key value : Option Bytes)
      → Step io u s d (insert io s d key value).2 (insert io s d key value).3
  batch_inserting :
      (s : SegmentBlockDev) (d : io.Device) (keys values : Option Bytes) (n : ℕ)
      → Step io u s d (batch_insert io s d keys values n).2 (batch_insert io s d keys values n).3
  reading :
      (s : SegmentBlockDev) (d : io.Device) (slot : ℕ) (want_key want_value : Bool)
      → Step io u s d s (read io s d slot want_key want_value).3
  deleting :
      (s : SegmentBlockDev) (d : io.Device) (slot : ℕ)
      → Step io u s d (delete io s d slot).1 (delete io s d slot).2
  syncing : (s : SegmentBlockDev) (d : io.Device) → Step io u s d s (sync_bitmap io s d).1
  compacting :
      (s : SegmentBlockDev) (d : io.Device) (t : SegmentBlockDev)
      → IsBounded t
      → AreApart t u
      → Step io u s d
          (compact io (block_target io) s t d).0
          (compact io (block_target io) s t d).1.device

-- Any number of calls on one segment.
pub data Run (io : BlockDeviceIo) (u : SegmentBlockDev)
    : SegmentBlockDev → io.Device → SegmentBlockDev → io.Device → Type 0 where
  stop : {s : SegmentBlockDev} {d : io.Device} → Run io u s d s d
  call :
      {s t v : SegmentBlockDev} {d d1 d2 : io.Device}
      → Step io u s d t d1
      → Run io u t d1 v d2
      → Run io u s d v d2

module _ (io : BlockDeviceIo) (laws : IsDevice io) where
  -- Devices that agree in the range of a ready segment give it the same map.
  pub contents-agree :
      (u : SegmentBlockDev) (d d' : io.Device) (from to j : ℕ)
      → IsReady u
      → AgreeOutside io laws from to d d'
      → (u.base_lba_offset + extent u.base ≤ from) ⊎ (to ≤ u.base_lba_offset)
      → contents io laws u d' j ≡ contents io laws u d j
  contents-agree u d d' from to j r agree away =
      elim (Bool-cases (is_slot_occupied u.base.bitmap j)) [
        | inr free ↦ contents-off io laws u d' j free ∙ sym (contents-off io laws u d j free)
        | inl on ↦
            let below = occupied-lt j r.valid on in
            let within = slot_at-le u j (omega (arith, r.valid.within)) in
            contents-on io laws u d' j on
            ∙ ap some (pair_at-same io laws u d d' j from to r.placed agree (omega arith))
            ∙ sym (contents-on io laws u d j on)
      ]

  -- Devices that agree within the range of a segment.
  abbrev AgreeWithin : SegmentBlockDev → io.Device → io.Device → Type 0
  AgreeWithin u d d' =
      (at n : ℕ)
      → u.base_lba_offset ≤ at
      → at + n ≤ u.base_lba_offset + extent u.base
      → laws.bytes_at d' at n ≡ laws.bytes_at d at n

  contents-within :
      (u : SegmentBlockDev) (d d' : io.Device) (j : ℕ)
      → IsReady u
      → AgreeWithin u d d'
      → contents io laws u d' j ≡ contents io laws u d j
  contents-within u d d' j r agree = elim (Bool-cases (is_slot_occupied u.base.bitmap j)) [
    | inr free ↦ contents-off io laws u d' j free ∙ sym (contents-off io laws u d j free)
    | inl on ↦
        let below = occupied-lt j r.valid on in
        let within = slot_at-le u j (omega (arith, r.valid.within)) in
        let w = r.placed.layout.slot_width in
        let k = u.base.config.key_size in
        contents-on io laws u d' j on
        ∙ (λ i. some (
          agree (slot_at u j) k (omega arith) (omega (arith, within, w)) i,
          agree (slot_at u j + k) u.base.config.value_size (omega arith) (omega (arith, within, w))
              i,
        ))
        ∙ sym (contents-on io laws u d j on)
  ]

  -- What a call on `s` leaves, seen from a segment apart from it.
  record Left (u s : SegmentBlockDev) (d : io.Device) (t : SegmentBlockDev) (d' : io.Device)
      : Type 0 where
    place : SamePlace t s
    bounded : IsBounded t
    agree : AgreeWithin u d d'

  Confined-Left :
      (u s t : SegmentBlockDev) (d d' : io.Device)
      → Confined io laws s d t d'
      → IsBounded s
      → AreApart s u
      → Left u s d t d'
  Confined-Left u s t d d' c b apart = record {
    place = c.place;
    bounded = Confined-IsBounded io laws s t d d' c b;
    agree = λ at n from to. c.outside at n (omega arith);
  }

  Step-Left :
      {u s : SegmentBlockDev} {d d' : io.Device} {t : SegmentBlockDev}
      → Step io u s d t d'
      → IsBounded s
      → AreApart s u
      → Left u s d t d'
  Step-Left {u} (opening s d) b a = Confined-Left u s _ d _ (open-Confined io laws s d b) b a
  Step-Left {u} (closing s d) b a = Confined-Left u s _ d _ (close-Confined io laws s d b) b a
  Step-Left {u} (inserting s d key value) b a =
      Confined-Left u s _ d _ (insert-Confined io laws s d b key value) b a
  Step-Left {u} (batch_inserting s d keys values n) b a =
      Confined-Left u s _ d _ (batch_insert-Confined io laws s d b keys values n) b a
  Step-Left {u} (reading s d slot want_key want_value) b a = record {
    place = SamePlace-refl s;
    bounded = b;
    agree = λ at n from to. read-Range io laws s d b slot want_key want_value at n (omega arith);
  }
  Step-Left {u} (deleting s d slot) b a =
      Confined-Left u s _ d _ (delete-Confined io laws s d b slot) b a
  Step-Left {u} (syncing s d) b a = Confined-Left u s _ d _ (sync-Confined io laws s d b) b a
  Step-Left {u} (compacting s d t bt other) b a =
      let m = compact-Moved io laws s t d bt b in
      let place = m.place in
      record {
        place = m.place;
        bounded = record {
          placed = SamePlace-IsPlaced io laws _ s m.place b.placed;
          within = m.within;
          small = rw place.slots b.small;
        };
        agree = λ at n from to. m.apart at n (omega arith) (omega arith);
      }

  Run-agree :
      {u s t : SegmentBlockDev} {d d' : io.Device}
      → Run io u s d t d'
      → IsBounded s
      → AreApart s u
      → AgreeWithin u d d'
  Run-agree stop b apart at n from to = refl
  Run-agree {u} {s} (call step rest) b apart at n from to =
      let left = Step-Left step b apart in
      let place = left.place in
      Run-agree rest left.bounded (rw (place.lba, place.data_start, place.slots, place.width) apart)
        at n from to
      ∙ left.agree at n from to

  -- Two segments in separate ranges of one device: the first in its place, with its cursor within its
  -- slots, fewer than 2^32, and the second in its place, with counters that agree with its bitmap.
  -- After any number of calls on the first of `Open`, `Close`, `Insert`, `BatchInsert`, `Read`,
  -- `Delete`, `SyncBitmap` and `Compact`, with any arguments, each target of `Compact` being a segment
  -- as the first on the same device and in a range apart from the second's, and whatever the device
  -- answers, the second stores the same map, and its bitmap's bytes on the device are the same.
  pub contents-Run :
      {s t : SegmentBlockDev} {d d' : io.Device} (u : SegmentBlockDev)
      → Run io u s d t d'
      → IsBounded s
      → IsReady u
      → AreApart s u
      → ((j : ℕ) → contents io laws u d' j ≡ contents io laws u d j)
        × (laws.bytes_at d' u.base_lba_offset (length u.base.bitmap)
            ≡ laws.bytes_at d u.base_lba_offset (length u.base.bitmap))
  contents-Run {s} {t} {d} {d'} u run b r apart =
      let agree = Run-agree run b apart in
      (
        λ j. contents-within u d d' j r agree,
        agree u.base_lba_offset (length u.base.bitmap) (omega arith)
            (omega (arith, r.placed.layout.data_start)),
      )
