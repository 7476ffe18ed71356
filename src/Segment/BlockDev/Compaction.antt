-- ===== src/Segment/BlockDev/Compaction.antt =====
-- `Compact` into another segment of the same block device loses no pair
-- (parakv/core/segment/segment_block_dev.cc).
use mathlib.Core.List.{Memᴰ}
use mathlib.Core.List.Memᴰ
use para_kv.Prelude.{
  ℕ, suc, ◌+◌, ◌<◌, ◌≡◌, ◌≢◌, refl, sym, ap, ◌∙◌, inl, inr, some, length, arith, Bool-cases, ◌==◌,
  ==_iff,
}
use para_kv.Prelude.Bytes.{Bytes}
use para_kv.Status.{Status, ok}
use para_kv.Segment.File.Batch.{Move}
use para_kv.Segment.BlockDev.{BlockDeviceIo, SegmentBlockDev, insert}
use para_kv.Segment.BlockDev.Batch.{Compacting, block_target, moved_slot}
use para_kv.Segment.BlockDev.Device.{IsDevice, IsReady, AgreeOutside, extent, contents}
use para_kv.Segment.BlockDev.Place.{SamePlace, SamePlace-trans}
use para_kv.Segment.BlockDev.Contents.{contents-insert, insert-keeps, insert-stores}
use para_kv.Segment.BlockDev.Confined.{IsBounded, insert-Confined}
use para_kv.Segment.BlockDev.Isolation.{AreApart, contents-agree}

pub IsReady-IsBounded : (s : SegmentBlockDev) → IsReady s → IsBounded s
IsReady-IsBounded s r = record { placed = r.placed; within = r.valid.within; small = r.valid.small }

-- The callback's arguments for a pair that moves from slot `m` of `s` to slot `j` of `t`.
abbrev pub move_of : SegmentBlockDev → SegmentBlockDev → ℕ → ℕ → Bytes → Move
move_of s t m j key = record {
  key = key;
  old_segment_id = s.base.segment_id;
  old_slot_id = m;
  new_segment_id = t.base.segment_id;
  new_slot_id = j;
}

module _ (io : BlockDeviceIo) (laws : IsDevice io) (s t : SegmentBlockDev) (d : io.Device) where
  -- A pair of the source's slot `m` is in the target, at a slot that a move names.
  abbrev pub WasMoved : Compacting SegmentBlockDev io.Device → ℕ → Bytes × Bytes → Type 0
  WasMoved c m p =
      (j : ℕ) × (contents io laws c.to c.device j ≡ some p) × Memᴰ (move_of s t m j p.0) c.moves

  -- What the loop has reached at slot `i`, in a state `c`.
  pub record Reached (i : ℕ) (c : Compacting SegmentBlockDev io.Device) : Type 0 where
    pub ready : IsReady c.to
    pub place : SamePlace c.to t
    pub outside :
        AgreeOutside io laws t.base_lba_offset (t.base_lba_offset + extent t.base) d c.device
    pub kept :
        (j : ℕ) (p : Bytes × Bytes)
        → contents io laws t d j ≡ some p
        → contents io laws c.to c.device j ≡ some p
    pub moved :
        c.status ≡ ok
        → (m : ℕ) (p : Bytes × Bytes) → m < i
        → contents io laws s d m ≡ some p
        → WasMoved c m p

  -- Reads between the steps change no stored byte.
  abbrev pub Same : io.Device → io.Device → Type 0
  Same d1 d2 = (at n : ℕ) → laws.bytes_at d2 at n ≡ laws.bytes_at d1 at n

  pub contents-Same :
      (u : SegmentBlockDev) (d1 d2 : io.Device) (j : ℕ)
      → IsReady u
      → Same d1 d2
      → contents io laws u d2 j ≡ contents io laws u d1 j
  contents-Same u d1 d2 j r same =
      contents-agree io laws u d1 d2 0 0 j r (λ at n _. same at n) (inr (omega arith))

  -- A failed read ends the loop.
  pub Reached-failed :
      (i i' : ℕ) (c : Compacting SegmentBlockDev io.Device) (e : Status) (d2 : io.Device)
      → Reached i c
      → e ≢ ok
      → Same c.device d2
      → Reached i' (record c { status = e; device = d2 })
  Reached-failed i i' c e d2 h failed same = record {
    ready = h.ready;
    place = h.place;
    outside = λ at n away. same at n ∙ h.outside at n away;
    kept = λ j p held. contents-Same c.to c.device d2 j h.ready same ∙ h.kept j p held;
    moved = λ done. absurd (failed done);
  }

  -- What an insertion into the target has done.
  pub record Grown (c : Compacting SegmentBlockDev io.Device) (p : Bytes × Bytes) (e : Status)
      (slot : ℕ) (t' : SegmentBlockDev) (d' : io.Device) : Type 0 where
    pub ready : IsReady t'
    pub place : SamePlace t' t
    pub outside : AgreeOutside io laws t.base_lba_offset (t.base_lba_offset + extent t.base) d d'
    pub keeps :
        (j : ℕ) (q : Bytes × Bytes)
        → contents io laws c.to c.device j ≡ some q
        → contents io laws t' d' j ≡ some q
    pub stores : e ≡ ok → contents io laws t' d' slot ≡ some p

  same_pair : (p q : Bytes × Bytes) → some p ≡ some q → p ≡ q
  same_pair p q e = cc

  pub moved_slot-Reached :
      (i : ℕ) (c : Compacting SegmentBlockDev io.Device) (p : Bytes × Bytes) (e : Status) (slot : ℕ)
      (t' : SegmentBlockDev) (d' : io.Device)
      → contents io laws s d i ≡ some p
      → c.status ≡ ok
      → Reached i c
      → Grown c p e slot t' d'
      → Reached
          (suc i)
          (moved_slot io (block_target io) s.base.segment_id i c.moves p.0 (e, slot, t', d'))
  moved_slot-Reached i c p ok slot t' d' here fine h g = record {
    ready = g.ready;
    place = g.place;
    outside = g.outside;
    kept = λ j q held. g.keeps j q (h.kept j q held);
    moved = λ _ m q below held. elim (Bool-cases (i == m)) [
      | inl same ↦
          let e : i ≡ m = (==_iff i m).0 same in
          let pq : p ≡ q = same_pair p q (sym here ∙ ap (contents io laws s d) e ∙ held) in
          (
            slot,
            g.stores refl ∙ ap some pq,
            Memᴰ.append_right c.moves (
                Memᴰ.head (λ k. record {
                  key = (sym pq k).0;
                  old_segment_id = s.base.segment_id;
                  old_slot_id = sym e k;
                  new_segment_id = sym g.place.id k;
                  new_slot_id = slot;
                })),
          )
      | inr other ↦
          let (j, there, mem) = h.moved fine m q (ground arith) held in
          (j, g.keeps j q there, Memᴰ.append_left _ mem)
    ];
  }
  moved_slot-Reached i c p e slot t' d' here fine h g = record {
    ready = g.ready;
    place = g.place;
    outside = g.outside;
    kept = λ j q held. g.keeps j q (h.kept j q held);
    moved = λ done. cc;
  }

  module _ (rs : IsReady s) (rt : IsReady t) (apart : AreApart t s)
      (keys : s.base.config.key_size ≡ t.base.config.key_size)
      (values : s.base.config.value_size ≡ t.base.config.value_size) where
    pub insert-Grown :
        (i : ℕ) (c : Compacting SegmentBlockDev io.Device) (d2 : io.Device) (key value : Bytes)
        → Reached i c
        → Same c.device d2
        → length key ≡ s.base.config.key_size
        → length value ≡ s.base.config.value_size
        → let out = insert io c.to d2 (some key) (some value) in
          Grown c (key, value) out.0 out.1 out.2 out.3
    insert-Grown i c d2 key value h same lk lv =
        let lk' : length key ≡ c.to.base.config.key_size = rw (h.place.config) (lk ∙ keys) in
        let lv' : length value ≡ c.to.base.config.value_size = rw (h.place.config) (lv ∙ values) in
        let conf =
          insert-Confined io laws c.to d2 (IsReady-IsBounded c.to h.ready) (some key)
            (some value) in
        let place = h.place in
        record {
          ready = (contents-insert io laws c.to d2 key value h.ready lk' lv').0;
          place = SamePlace-trans _ c.to t conf.place place;
          outside = λ at n away.
              conf.outside at n (rw (place.lba, place.data_start, place.slots, place.width) away)
              ∙ same at n
              ∙ h.outside at n away;
          keeps = λ j q held.
              insert-keeps io laws c.to d2 key value h.ready lk' lv' j q
                (contents-Same c.to c.device d2 j h.ready same ∙ held);
          stores = insert-stores io laws c.to d2 key value h.ready lk' lv';
        }
