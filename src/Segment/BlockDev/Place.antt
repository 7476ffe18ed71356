-- ===== src/Segment/BlockDev/Place.antt =====
-- What the operations of a segment on a block device do not change: its place on the device
-- (parakv/core/segment/segment_block_dev.cc).
use para_kv.Prelude.{ℕ, ◌+◌, ◌≡◌, refl, sym, ap, ◌∙◌, length}
use para_kv.Segment.Base.{SegmentConfig}
use para_kv.Segment.File.Valid.{IsValid}
use para_kv.Segment.BlockDev.{BlockDeviceIo, SegmentBlockDev}
use para_kv.Segment.BlockDev.Device.{IsDevice, IsPlaced, IsReady, pair_at}

-- What an operation does not change: where the slots lie on the device and how wide they are.
pub record SamePlace (t s : SegmentBlockDev) : Type 0 where
  pub config : t.base.config ≡ s.base.config
  pub data_start : t.base.slot_data_offset ≡ s.base.slot_data_offset
  pub width : t.base.slot_size ≡ s.base.slot_size
  pub slots : t.base.total_slots ≡ s.base.total_slots
  pub lba : t.base_lba_offset ≡ s.base_lba_offset
  pub bits : length t.base.bitmap ≡ length s.base.bitmap
  pub size : t.base.bitmap_size ≡ s.base.bitmap_size
  pub id : t.base.segment_id ≡ s.base.segment_id

pub SamePlace-refl : (s : SegmentBlockDev) → SamePlace s s
SamePlace-refl s = record {
  config = refl;
  data_start = refl;
  width = refl;
  slots = refl;
  lba = refl;
  bits = refl;
  size = refl;
  id = refl;
}

pub SamePlace-trans : (u t s : SegmentBlockDev) → SamePlace u t → SamePlace t s → SamePlace u s
SamePlace-trans u t s p q = record {
  config = p.config ∙ q.config;
  data_start = p.data_start ∙ q.data_start;
  width = p.width ∙ q.width;
  slots = p.slots ∙ q.slots;
  lba = p.lba ∙ q.lba;
  bits = p.bits ∙ q.bits;
  size = p.size ∙ q.size;
  id = p.id ∙ q.id;
}

pub SamePlace-sym : (t s : SegmentBlockDev) → SamePlace t s → SamePlace s t
SamePlace-sym t s p = record {
  config = sym p.config;
  data_start = sym p.data_start;
  width = sym p.width;
  slots = sym p.slots;
  lba = sym p.lba;
  bits = sym p.bits;
  size = sym p.size;
  id = sym p.id;
}

module _ (io : BlockDeviceIo) (laws : IsDevice io) where
  -- Another state of the same segment.
  pub SamePlace-IsPlaced : (t s : SegmentBlockDev) → SamePlace t s → IsPlaced s → IsPlaced t
  SamePlace-IsPlaced t s p r = record {
    layout = record {
      data_start = p.data_start ∙ r.layout.data_start ∙ sym p.bits;
      slot_width =
          p.width
          ∙ r.layout.slot_width
          ∙ ap (λ (c : SegmentConfig). c.key_size + c.value_size) (sym p.config);
      no_wrap = rw (p.data_start, p.slots, p.width) r.layout.no_wrap;
    };
    no_wrap = rw (p.data_start, p.slots, p.width, p.lba) r.no_wrap;
    whole = p.size ∙ r.whole ∙ sym p.bits;
  }

  pub SamePlace-IsReady :
      (t s : SegmentBlockDev) → SamePlace t s → IsValid t.base → IsReady s → IsReady t
  SamePlace-IsReady t s p v r = record { valid = v; placed = SamePlace-IsPlaced t s p r.placed }

  pub SamePlace-pair_at :
      (t s : SegmentBlockDev) (d : io.Device) (j : ℕ)
      → SamePlace t s
      → pair_at io laws t d j ≡ pair_at io laws s d j
  SamePlace-pair_at t s d j p = rw (p.data_start, p.width, p.lba, p.config) refl
