-- ===== src/Segment/BlockDev/Reopened.antt =====
-- `Open` of a segment whose bitmap is on its block device, by a new process
-- (parakv/core/segment/segment_block_dev.cc).
use mathlib.Core.Path.{subst}
use para_kv.Prelude.{
  ℕ, zero, suc, ◌≤◌, ◌≡◌, refl, sym, ap, ◌∙◌, inl, inr, Bool, true, false, ◌++◌, some, [], ◌∷◌,
  length, drop, arith, if◌then◌else◌, Bool-cases, ◌==◌, append-nil,
}
use para_kv.Prelude.Bytes.{Bytes}
use para_kv.Status.{Status, ok}
use para_kv.Segment.Bitmap.{is_slot_occupied}
use para_kv.Segment.Base.{update_state}
use para_kv.Segment.File.{rebuilt}
use para_kv.Segment.File.Valid.{IsValid}
use para_kv.Segment.File.Rebuilt.{rebuilt-IsValid}
use para_kv.Segment.BlockDev.{
  BlockDeviceIo, SegmentBlockDev, absolute_offset, load_bitmap, opened_loaded, open_segment, insert,
}
use para_kv.Segment.BlockDev.Device.{IsDevice, IsReady, contents, absolute_offset-bitmap}
use para_kv.Segment.BlockDev.Place.{
  SamePlace, SamePlace-IsReady, SamePlace-pair_at, SamePlace-trans, SamePlace-sym,
}
use para_kv.Segment.BlockDev.Insertion.{insert-cases}
use para_kv.Segment.BlockDev.Isolation.{contents-agree}
use para_kv.Segment.BlockDev.Contents.{contents-on, contents-off, contents-insert, facts}

-- A buffer that is filled whole.
drop_all : (bm : Bytes) (n : ℕ) → length bm ≤ n → drop n bm ≡ []
drop_all [] zero h = refl
drop_all [] (suc n) h = refl
drop_all (x ∷ bm) zero h = absurd (omega arith)
drop_all (x ∷ bm) (suc n) h = drop_all bm n (omega arith)

module _ (io : BlockDeviceIo) (laws : IsDevice io) where
  -- The device holds the segment's bitmap.
  abbrev pub IsSynced : SegmentBlockDev → io.Device → Type 0
  IsSynced s d = laws.bytes_at d s.base_lba_offset (length s.base.bitmap) ≡ s.base.bitmap

  -- A successful `Insert` leaves the bitmap on the device.
  pub insert-IsSynced :
      (s : SegmentBlockDev) (d : io.Device) (key value : Bytes)
      → IsReady s
      → let out = insert io s d (some key) (some value) in
        out.0 ≡ ok → IsSynced out.2 out.3 × SamePlace out.2 s
  insert-IsSynced s d key value r done = elim (insert-cases io laws s d key value) [
    | inl (_, _, failed) ↦ absurd (failed done)
    | inr (room, e) ↦
        let f = facts io laws s d key value r room in
        subst
          (λ (out : Status × ℕ × SegmentBlockDev × io.Device).
            IsSynced out.2 out.3 × SamePlace out.2 s)
          (sym e)
          (
            rw f.place.lba (
                f.synced
                  (ap (λ (out : Status × ℕ × SegmentBlockDev × io.Device). out.0) (sym e) ∙ done)),
            f.place,
          )
  ]

  -- Two states of a segment with one bitmap store the same map on one device.
  contents-SamePlace :
      (v s : SegmentBlockDev) (d : io.Device) (j : ℕ)
      → SamePlace v s
      → v.base.bitmap ≡ s.base.bitmap
      → contents io laws v d j ≡ contents io laws s d j
  contents-SamePlace v s d j p same = elim (Bool-cases (is_slot_occupied s.base.bitmap j)) [
    | inl on ↦
        contents-on io laws v d j (ap (λ (bm : Bytes). is_slot_occupied bm j) same ∙ on)
        ∙ ap some (SamePlace-pair_at io laws v s d j p)
        ∙ sym (contents-on io laws s d j on)
    | inr off ↦
        contents-off io laws v d j (ap (λ (bm : Bytes). is_slot_occupied bm j) same ∙ off)
        ∙ sym (contents-off io laws s d j off)
  ]

  otherwise :
      (c : Bool) (x y : Status × SegmentBlockDev × io.Device) → c ≡ false → (if c then x else y) ≡ y
  otherwise true x y e = cc
  otherwise false x y e = refl

  open-closed :
      (v : SegmentBlockDev) (d : io.Device)
      → v.opened ≡ false
      → open_segment io v d ≡ opened_loaded io (load_bitmap io v d)
  unfolding open_segment
  open-closed v d closed = otherwise v.opened _ _ closed

  module _ (s v : SegmentBlockDev) (d : io.Device) (r : IsReady s) (synced : IsSynced s d)
      (same : SamePlace v s) where
    abbrev loaded : Bytes → SegmentBlockDev
    loaded bm = record v { base = rebuilt (record v.base { bitmap = bm }); opened = true }

    -- What `Open` loads is the bitmap of `s`.
    loaded_bitmap :
        let out = io.read d v.base.bitmap_size (absolute_offset v 0) in
        out.0 ≡ ok → out.1 ++ drop (length out.1) v.base.bitmap ≡ s.base.bitmap
    loaded_bitmap done =
        let n = v.base.bitmap_size in
        let off = absolute_offset v 0 in
        let lba : off ≡ s.base_lba_offset =
          absolute_offset-bitmap v (omega (arith, r.placed.no_wrap, same.lba)) ∙ same.lba in
        let size : n ≡ length s.base.bitmap = same.size ∙ r.placed.whole in
        let buf = laws.read_ok d n off done in
        let all : (io.read d n off).1 ≡ s.base.bitmap =
          buf ∙ (λ i. laws.bytes_at d (lba i) (size i)) ∙ synced in
        let none_left =
          drop_all v.base.bitmap (length (io.read d n off).1)
            (omega (arith, ap length all, same.bits)) in
        (λ i. all i ++ none_left i) ∙ append-nil s.base.bitmap

    loaded-SamePlace : (bm : Bytes) → bm ≡ s.base.bitmap → SamePlace (loaded bm) s
    unfolding rebuilt update_state
    loaded-SamePlace bm e = record {
      config = same.config;
      data_start = same.data_start;
      width = same.width;
      slots = same.slots;
      lba = same.lba;
      bits = ap length e;
      size = same.size;
      id = same.id;
    }

    bitmap-loaded : (bm : Bytes) → (loaded bm).base.bitmap ≡ bm
    unfolding rebuilt update_state
    bitmap-loaded bm = refl

    loaded-IsValid : (bm : Bytes) → bm ≡ s.base.bitmap → IsValid (loaded bm).base
    loaded-IsValid bm e =
        rebuilt-IsValid (record v.base { bitmap = bm }) (rw e r.valid.bytes)
          (omega (arith, ap length e, same.slots, r.valid.bits))
          (omega (arith, same.slots, r.valid.small))
          (λ j from. rw e (r.valid.fresh j (omega (arith, same.slots, r.valid.within))))

    opened_loaded-contents :
        (e : Status) (bm : Bytes) (d' : io.Device)
        → (e ≡ ok → bm ≡ s.base.bitmap)
        → ((at n : ℕ) → laws.bytes_at d' at n ≡ laws.bytes_at d at n)
        → let out = opened_loaded io (e, record v { base = record v.base { bitmap = bm } }, d') in
          out.0 ≡ ok
          → IsReady out.1 × ((j : ℕ) → contents io laws out.1 out.2 j ≡ contents io laws s d j)
    opened_loaded-contents ok bm d' load kept done =
        let e = load refl in
        let p = loaded-SamePlace bm e in
        (
          SamePlace-IsReady io laws (loaded bm) s p (loaded-IsValid bm e) r,
          λ j.
              contents-SamePlace (loaded bm) s d' j p (bitmap-loaded bm ∙ e)
              ∙ contents-agree io laws s d d' 0 0 j r (λ at n _. kept at n) (inr (omega arith)),
        )
    opened_loaded-contents e bm d' load kept done = cc

    pub open-contents :
        v.opened ≡ false
        → let out = open_segment io v d in
          out.0 ≡ ok
          → IsReady out.1 × ((j : ℕ) → contents io laws out.1 out.2 j ≡ contents io laws s d j)
    unfolding load_bitmap
    open-contents closed =
        let r = io.read d v.base.bitmap_size (absolute_offset v 0) in
        subst
          (λ (out : Status × SegmentBlockDev × io.Device).
            out.0 ≡ ok
            → IsReady out.1 × ((j : ℕ) → contents io laws out.1 out.2 j ≡ contents io laws s d j))
          (sym (open-closed v d closed))
          (opened_loaded-contents r.0 (r.1 ++ drop (length r.1) v.base.bitmap) r.2 loaded_bitmap
            (λ at n. laws.read_keeps d v.base.bitmap_size (absolute_offset v 0) at n))

  -- An `Insert` into a ready segment answers `kOk` with a key and a value of the configured sizes.
  -- Then a new object for the same range of the device, which has seen none of it, opens to the map
  -- that the old object stored with the pair added at the slot at its cursor, if the read of the
  -- bitmap answers `kOk`; the new object is ready.
  pub open-insert :
      (s v : SegmentBlockDev) (d : io.Device) (key value : Bytes)
      → IsReady s
      → length key ≡ s.base.config.key_size
      → length value ≡ s.base.config.value_size
      → SamePlace v s
      → v.opened ≡ false
      → let out = insert io s d (some key) (some value) in
        let new = open_segment io v out.3 in
        out.0 ≡ ok
        → new.0 ≡ ok
        → IsReady new.1
          × ((j : ℕ)
              → contents io laws new.1 new.2 j
                ≡ (if s.base.append_cursor == j then some (key, value) else contents io laws s d j))
  open-insert s v d key value r lk lv same closed done opened =
      let out = insert io s d (some key) (some value) in
      let (synced, place) = insert-IsSynced s d key value r done in
      let (ready, stored) = contents-insert io laws s d key value r lk lv in
      let (new_ready, new_stored) =
        open-contents out.2 v out.3 ready synced
          (SamePlace-trans v s out.2 same (SamePlace-sym out.2 s place)) closed opened in
      (new_ready, λ j. new_stored j ∙ stored j ∙ ground (arith, done))
