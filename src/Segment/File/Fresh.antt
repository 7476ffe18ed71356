-- ===== src/Segment/File/Fresh.antt =====
-- A new segment, before anything is inserted: the constructor of parakv/core/segment/segment_base.cc.
use para_kv.Prelude.{
  ℕ, zero, suc, ◌/◌, ◌%◌, ◌^◌, ◌≤◌, ◌≡◌, refl, sym, false, List, replicate, get_or,
  length-replicate, arith,
}
use para_kv.Prelude.Bytes.{AreBytes}
use para_kv.Prelude.Bits.{and_zero_left}
use para_kv.Io.{File, Transfer}
use para_kv.Segment.Bitmap.{is_slot_occupied}
use para_kv.Segment.Base.{SegmentConfig, calculate_layout, create}
use para_kv.Segment.Base.Layout.{IsSmall, layout_fits, total_slots-lt, slot_bytes-eq}
use para_kv.Segment.Base.Counting.{count_below}
use para_kv.Segment.File.Valid.{IsValid}
use para_kv.Segment.File.Payload.{HasLayout}

get_or-replicate : (n i : ℕ) → get_or {A = ℕ} (replicate n 0) i 0 ≡ 0
get_or-replicate zero i = refl
get_or-replicate (suc n) zero = refl
get_or-replicate (suc n) (suc i) = get_or-replicate n i

pub occupied-replicate : (n j : ℕ) → is_slot_occupied (replicate n 0) j ≡ false
unfolding is_slot_occupied
occupied-replicate n j = rw (get_or-replicate n (j / 8), and_zero_left (2 ^ (j % 8)))

pub replicate-AreBytes : (n : ℕ) → AreBytes (replicate n 0)
replicate-AreBytes zero = tt
replicate-AreBytes (suc n) = (omega arith, replicate-AreBytes n)

-- For sizes that do not wrap and an aligned bitmap that fits the segment, the constructor makes a
-- segment whose counters agree with its bitmap and whose slots lie behind one another within
-- the segment.
pub create-IsValid :
    (id : ℕ) (c : SegmentConfig) (f : File) (s : List Transfer)
    → IsSmall c
    → (calculate_layout c).bitmap_size ≤ c.segment_size
    → IsValid (create id c f s) × HasLayout (create id c f s)
unfolding create
create-IsValid id c f s small fits =
    let (bits, area) = layout_fits c small fits in
    (
      record {
        bytes = replicate-AreBytes _;
        bits = omega (arith, bits, length-replicate {A = ℕ} (calculate_layout c).bitmap_size 0);
        small = total_slots-lt c;
        within = omega arith;
        fresh = λ j _. occupied-replicate _ j;
        counted = unfold count_below in refl;
        split = omega arith;
        state_right = refl;
      },
      record {
        data_start = sym (length-replicate _ 0);
        slot_width = slot_bytes-eq c small;
        no_wrap = omega (arith, area, small.size_fits);
      },
    )
