-- ===== src/Segment/BlockDev/Device.antt =====
-- What a segment on a block device relies on (parakv/core/segment/segment_block_dev.h), and what it
-- stores: a partial map from slots to pairs.
use native.Mathlib.Nat.{mod-eq_of_lt}
use para_kv.Prelude.{
  ℕ, ◌+◌, ◌*◌, ◌%◌, ◌^◌, ◌≤◌, ◌<◌, ◌≡◌, refl, sym, ap, ◌∙◌, ◌⊎◌, inl, Option, none, some, length,
  take, arith, length-take, take-append, append-nil, if◌then◌else◌, [],
}
use mathlib.Core.Path.{subst}
use para_kv.Prelude.Bytes.{Bytes}
use para_kv.Status.{Status, ok}
use para_kv.Segment.Bitmap.{is_slot_occupied}
use para_kv.Segment.Base.{Segment, get_slot_offset}
use para_kv.Segment.File.Valid.{IsValid}
use para_kv.Segment.File.Payload.{HasLayout, slot_start, slots_apart, get_slot_offset-eq}
use para_kv.Segment.BlockDev.{
  BlockDeviceIo, SegmentBlockDev, absolute_offset, flush_bitmap, then_value, write_payload,
}

-- What the code relies on: `n` bytes at an offset are a function of the device. A write that
-- answers `kOk` stores its bytes, and no write touches bytes outside its range; a failed one may
-- leave anything inside it. A read that answers `kOk` returns the stored bytes, and no read puts
-- more into the buffer than was asked for. Reads and `Sync` do not change what is stored.
pub record IsDevice (io : BlockDeviceIo) : Type 0 where
  pub bytes_at : io.Device → ℕ → ℕ → Bytes
  pub write_ok :
      (d : io.Device) (buf : Bytes) (off : ℕ)
      → (io.write d buf off).0 ≡ ok
      → bytes_at (io.write d buf off).1 off (length buf) ≡ buf
  pub write_apart :
      (d : io.Device) (buf : Bytes) (off at n : ℕ)
      → (at + n ≤ off) ⊎ (off + length buf ≤ at)
      → bytes_at (io.write d buf off).1 at n ≡ bytes_at d at n
  pub read_ok :
      (d : io.Device) (n off : ℕ)
      → (io.read d n off).0 ≡ ok
      → (io.read d n off).1 ≡ bytes_at d off n
  pub read_keeps :
      (d : io.Device) (n off at m : ℕ) → bytes_at (io.read d n off).2 at m ≡ bytes_at d at m
  pub length_read : (d : io.Device) (n off : ℕ) → length (io.read d n off).1 ≤ n
  pub length_bytes_at : (d : io.Device) (at n : ℕ) → length (bytes_at d at n) ≡ n
  pub sync_keeps : (d : io.Device) (at m : ℕ) → bytes_at (io.sync d).1 at m ≡ bytes_at d at m

-- The range of the device that the bitmap and the slots of a segment take.
abbrev pub extent : Segment → ℕ
extent b = b.slot_data_offset + b.total_slots * b.slot_size

-- A layout without overlaps, offsets on the device that do not wrap, and a whole bitmap.
pub record IsPlaced (s : SegmentBlockDev) : Type 0 where
  pub layout : HasLayout s.base
  pub no_wrap : s.base_lba_offset + extent s.base < 2 ^ 64
  pub whole : s.base.bitmap_size ≡ length s.base.bitmap

-- A segment in its place whose counters agree with its bitmap.
pub record IsReady (s : SegmentBlockDev) : Type 0 where
  pub valid : IsValid s.base
  pub placed : IsPlaced s

-- The absolute offset of a slot, without wrapping.
abbrev pub slot_at : SegmentBlockDev → ℕ → ℕ
slot_at s slot = s.base_lba_offset + slot_start s.base slot

-- A slot lies in the data area of its segment.
pub slot_at-le :
    (s : SegmentBlockDev) (slot : ℕ)
    → slot < s.base.total_slots
    → slot_at s slot + s.base.slot_size ≤ s.base_lba_offset + extent s.base
slot_at-le s slot h = omega (arith, slots_apart s.base.slot_size slot s.base.total_slots h)

pub absolute_offset-slot :
    (s : SegmentBlockDev) (slot : ℕ)
    → IsPlaced s
    → slot < s.base.total_slots
    → absolute_offset s (get_slot_offset s.base slot) ≡ slot_at s slot
unfolding absolute_offset
absolute_offset-slot s slot r h =
    ap (λ (o : ℕ). (s.base_lba_offset + o) % 2 ^ 64) (get_slot_offset-eq s.base slot r.layout h)
    ∙ mod-eq_of_lt (omega (arith, slot_at-le s slot h, r.no_wrap))

pub absolute_offset-bitmap :
    (s : SegmentBlockDev) → s.base_lba_offset < 2 ^ 64 → absolute_offset s 0 ≡ s.base_lba_offset
unfolding absolute_offset
absolute_offset-bitmap s r = omega arith

take_whole : (n : ℕ) (buf : Bytes) → length buf ≡ n → take n buf ≡ buf
take_whole n buf len = ap (take n) (sym (append-nil buf)) ∙ take-append n buf [] len

module _ (io : BlockDeviceIo) (laws : IsDevice io) where
  -- A successful write of a whole buffer is stored.
  stored_whole :
      (d : io.Device) (buf : Bytes) (n off : ℕ)
      → length buf ≡ n
      → (io.write d (take n buf) off).0 ≡ ok
      → laws.bytes_at (io.write d (take n buf) off).1 off n ≡ buf
  stored_whole d buf n off len done =
      let whole = take_whole n buf len in
      ap (laws.bytes_at (io.write d (take n buf) off).1 off) (sym len ∙ ap length (sym whole))
      ∙ laws.write_ok d (take n buf) off done
      ∙ whole

  -- The pair in a slot, and the map that a segment stores.
  abbrev pub pair_at : SegmentBlockDev → io.Device → ℕ → Bytes × Bytes
  pair_at s d slot = (
    laws.bytes_at d (slot_at s slot) s.base.config.key_size,
    laws.bytes_at d (slot_at s slot + s.base.config.key_size) s.base.config.value_size,
  )

  unfoldable pub contents : SegmentBlockDev → io.Device → ℕ → Option (Bytes × Bytes)
  contents s d slot = if is_slot_occupied s.base.bitmap slot then some (pair_at s d slot) else none

  -- Two devices that differ at most in a range.
  abbrev pub AgreeOutside : ℕ → ℕ → io.Device → io.Device → Type 0
  AgreeOutside from to d d' =
      (at n : ℕ) → (at + n ≤ from) ⊎ (to ≤ at) → laws.bytes_at d' at n ≡ laws.bytes_at d at n

  pub flush-AgreeOutside :
      (s : SegmentBlockDev) (d : io.Device)
      → s.base_lba_offset < 2 ^ 64
      → AgreeOutside s.base_lba_offset
          (s.base_lba_offset + length s.base.bitmap)
          d
          (flush_bitmap io s d).1
  unfolding flush_bitmap
  flush-AgreeOutside s d r at n away =
      let e = absolute_offset-bitmap s r in
      laws.write_apart d s.base.bitmap (absolute_offset s 0) at n (omega (arith, e))

  pub flush_ok :
      (s : SegmentBlockDev) (d : io.Device)
      → s.base_lba_offset < 2 ^ 64
      → (flush_bitmap io s d).0 ≡ ok
      → laws.bytes_at (flush_bitmap io s d).1 s.base_lba_offset (length s.base.bitmap)
        ≡ s.base.bitmap
  unfolding flush_bitmap
  flush_ok s d r done =
      subst
        (λ (o : ℕ). laws.bytes_at (flush_bitmap io s d).1 o (length s.base.bitmap) ≡ s.base.bitmap)
        (absolute_offset-bitmap s r) (laws.write_ok d s.base.bitmap (absolute_offset s 0) done)

  module _ (s : SegmentBlockDev) (value : Bytes) (off : ℕ) (d : io.Device)
      (small : off + s.base.config.key_size < 2 ^ 64) where
    then_value-apart :
        (e : Status)
        → AgreeOutside
            (off + s.base.config.key_size)
            (off + s.base.config.key_size + s.base.config.value_size)
            d
            (then_value io s value off (e, d)).1
    then_value-apart ok at n away =
        laws.write_apart d (take s.base.config.value_size value)
          ((off + s.base.config.key_size) % 2 ^ 64) at n
          (omega (arith, mod-eq_of_lt small, length-take s.base.config.value_size value))
    then_value-apart e at n away = refl

    then_value-holds :
        (e : Status)
        → length value ≡ s.base.config.value_size
        → (then_value io s value off (e, d)).0 ≡ ok
        → (e ≡ ok)
          × (laws.bytes_at
                (then_value io s value off (e, d)).1
                (off + s.base.config.key_size)
                s.base.config.value_size
              ≡ value)
    then_value-holds ok len done = (
      refl,
      subst
          (λ (o : ℕ).
            laws.bytes_at (then_value io s value off (ok, d)).1 o s.base.config.value_size ≡ value)
          (mod-eq_of_lt small)
          (stored_whole d value s.base.config.value_size ((off + s.base.config.key_size) % 2 ^ 64)
            len done),
    )
    then_value-holds e len done = cc

  module _ (s : SegmentBlockDev) (d : io.Device) (slot : ℕ) (key value : Bytes) (r : IsPlaced s)
      (h : slot < s.base.total_slots) where
    abbrev key_written : Status × io.Device
    key_written = io.write d (take s.base.config.key_size key) (slot_at s slot)

    write_payload-at :
        write_payload io s d slot key value ≡ then_value io s value (slot_at s slot) key_written
    unfolding write_payload
    write_payload-at =
        ap (λ (o : ℕ). then_value io s value o (io.write d (take s.base.config.key_size key) o))
          (absolute_offset-slot s slot r h)

    key_end : slot_at s slot + s.base.config.key_size < 2 ^ 64
    key_end = omega (arith, slot_at-le s slot h, r.no_wrap, r.layout.slot_width)

    -- Bytes outside the slot are left alone, also by writes that fail.
    pub write_payload-AgreeOutside :
        AgreeOutside
          (slot_at s slot)
          (slot_at s slot + s.base.slot_size)
          d
          (write_payload io s d slot key value).1
    write_payload-AgreeOutside at n away =
        let (e, d1) = key_written in
        ap (λ (w : Status × io.Device). laws.bytes_at w.1 at n) write_payload-at
        ∙ then_value-apart s value (slot_at s slot) d1 key_end e at n
            (omega (arith, r.layout.slot_width))
        ∙ laws.write_apart d (take s.base.config.key_size key) (slot_at s slot) at n
            (omega (arith, r.layout.slot_width, length-take s.base.config.key_size key))

    -- Where both writes succeed, the slot holds the key and the value.
    pub write_payload-holds :
        length key ≡ s.base.config.key_size
        → length value ≡ s.base.config.value_size
        → (write_payload io s d slot key value).0 ≡ ok
        → pair_at s (write_payload io s d slot key value).1 slot ≡ (key, value)
    write_payload-holds lk lv done =
        let (e, d1) = key_written in
        let off = slot_at s slot in
        let w = write_payload-at in
        let (fine, held) =
          then_value-holds s value off d1 key_end e lv
            (ap (λ (w : Status × io.Device). w.0) (sym w) ∙ done) in
        subst (λ (w : Status × io.Device). pair_at s w.1 slot ≡ (key, value)) (sym w)
          (λ i. (
            (then_value-apart s value off d1 key_end e off s.base.config.key_size
                    (inl (omega arith))
                  ∙ stored_whole d key s.base.config.key_size off lk fine)
                i,
            held i,
          ))
