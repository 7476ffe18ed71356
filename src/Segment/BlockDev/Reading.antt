-- ===== src/Segment/BlockDev/Reading.antt =====
-- `Read` of a segment on a block device, and what the calls between it and the device leave alone
-- (parakv/core/segment/segment_block_dev.cc).
use native.Mathlib.Nat.{mod-eq_of_lt}
use para_kv.Prelude.{
  ℕ, ◌+◌, ◌%◌, ◌^◌, ◌<◌, ◌≡◌, refl, sym, ap, ◌∙◌, inl, inr, true, false, Option, none, some, arith,
  leb, Bool-cases,
}
use para_kv.Prelude.Bytes.{Bytes}
use para_kv.Status.{Status, ok, not_found}
use para_kv.Segment.Bitmap.{is_slot_occupied}
use para_kv.Segment.BlockDev.{BlockDeviceIo, SegmentBlockDev, read_into, read_value, read}
use para_kv.Segment.BlockDev.Device.{
  IsDevice, IsPlaced, IsReady, contents, pair_at, slot_at, slot_at-le, absolute_offset-slot,
}
use para_kv.Segment.BlockDev.Contents.{contents-on, contents-off}

-- What `Read` is to answer for a slot of the stored map.
abbrev pub answer : Option (Bytes × Bytes) → Status × Option Bytes × Option Bytes
answer none = (not_found, none, none)
answer (some (key, value)) = (ok, some key, some value)

-- The reads of the device answer `kOk`.
abbrev pub ReadsSucceed : BlockDeviceIo → Type 0
ReadsSucceed io = (d : io.Device) (n off : ℕ) → (io.read d n off).0 ≡ ok

module _ (io : BlockDeviceIo) (laws : IsDevice io) where
  read_into-stored :
      (d : io.Device) (n off : ℕ)
      → ReadsSucceed io
      → ((read_into io true d n off).0 ≡ ok)
        × ((read_into io true d n off).1 ≡ some (laws.bytes_at d off n))
  unfolding read_into
  read_into-stored d n off never = (never d n off, ap some (laws.read_ok d n off (never d n off)))

  read_value-stored :
      (s : SegmentBlockDev) (off : ℕ) (e : Status) (key : Option Bytes) (d : io.Device)
      → ReadsSucceed io
      → e ≡ ok
      → off + s.base.config.key_size < 2 ^ 64
      → let out = read_value io s true off (e, key, d) in
        (out.0 ≡ ok)
        × (out.1 ≡ key)
        × (out.2 ≡ some (laws.bytes_at d (off + s.base.config.key_size) s.base.config.value_size))
  read_value-stored s off ok key d never fine small =
      let at = (off + s.base.config.key_size) % 2 ^ 64 in
      let (done, value) = read_into-stored d s.base.config.value_size at never in
      (
        done,
        refl,
        value
            ∙ ap (λ (o : ℕ). some (laws.bytes_at d o s.base.config.value_size))
                (mod-eq_of_lt small),
      )
  read_value-stored s off e key d never fine small = cc

  read_slot-stored :
      (s : SegmentBlockDev) (d : io.Device) (slot : ℕ)
      → ReadsSucceed io
      → IsPlaced s
      → slot < s.base.total_slots
      → let off = slot_at s slot in
        let out = read_value io s true off (read_into io true d s.base.config.key_size off) in
        (out.0, out.1, out.2) ≡ answer (some (pair_at io laws s d slot))
  unfolding read_into
  read_slot-stored s d slot never r h =
      let off = slot_at s slot in
      let k = io.read d s.base.config.key_size off in
      let (fine, first) = read_into-stored d s.base.config.key_size off never in
      let (done, key, value) =
        read_value-stored s off k.0 (some k.1) k.2 never fine
          (omega (arith, slot_at-le s slot h, r.no_wrap, r.layout.slot_width)) in
      let kept =
        laws.read_keeps d s.base.config.key_size off (off + s.base.config.key_size)
          s.base.config.value_size in
      λ i. (done i, (key ∙ first) i, (value ∙ ap some kept) i)

  -- Where the reads of the device answer `kOk`, `Read` of a slot of an open ready segment into two
  -- buffers answers `kOk` with the pair that the stored map has for the slot, and `kNotFound` where
  -- it has none.
  pub read-contents :
      (s : SegmentBlockDev) (d : io.Device) (slot : ℕ)
      → ReadsSucceed io
      → IsReady s
      → s.opened ≡ true
      → slot < s.base.total_slots
      → let out = read io s d slot true true in
        (out.0, out.1, out.2) ≡ answer (contents io laws s d slot)
  unfolding read
  read-contents s d slot never r open_ h =
      let within : leb s.base.total_slots slot ≡ false = ground arith in
      elim (Bool-cases (is_slot_occupied s.base.bitmap slot)) [
        | inr free ↦
            simp (within, open_, free) (sym (ap answer (contents-off io laws s d slot free)))
        | inl on ↦
            let e = absolute_offset-slot s slot r.placed h in
            simp (within, open_, on)
              ((λ i.
                  let out =
                    read_value io s true (e i) (read_into io true d s.base.config.key_size (e i)) in
                  (out.0, out.1, out.2))
                ∙ read_slot-stored s d slot never r.placed h
                ∙ sym (ap answer (contents-on io laws s d slot on)))
      ]
