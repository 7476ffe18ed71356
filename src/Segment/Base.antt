-- ===== src/Segment/Base.antt =====
-- `SegmentBase` (parakv/core/segment/segment_base.h, parakv/core/segment/segment_base.cc), with
-- the fields that `SegmentFile` adds (parakv/core/segment/segment_file.h): whether its file is
-- open, the file, and the outcomes of the calls to come. Counters are `uint32_t` and wrap.
-- The lock is not modelled: each operation holds it throughout, so it is one step.
pub mod Layout
pub mod Counting
pub mod Agrees
use para_kv.Prelude.{
  ℕ, zero, suc, ◌+◌, ◌-◌, ◌*◌, ◌/◌, ◌%◌, ◌^◌, Bool, true, false, ◌&&◌, Option, none, some, List, [],
  length, replicate, ltb, leb, ◌==◌, if◌then◌else◌,
}
use para_kv.Prelude.Bytes.{Bytes}
use para_kv.Io.{File, Transfer}

pub data SegmentState : Type 0 where
  idle appending full : SegmentState

-- `is_need_compaction` is not read anywhere. The threshold, a `float`, is an argument of
-- `needs_compaction` in the form of the comparison that it stands for.
pub record SegmentConfig : Type 0 where
  pub key_size : ℕ
  pub value_size : ℕ
  pub segment_size : ℕ
  pub bitmap_alignment : ℕ

pub record Segment : Type 0 where
  pub segment_id : ℕ
  pub config : SegmentConfig
  pub state : SegmentState
  pub total_slots : ℕ
  pub used_slots : ℕ
  pub deleted_slots : ℕ
  pub append_cursor : ℕ
  pub slot_size : ℕ
  pub bitmap_size : ℕ
  pub slot_data_offset : ℕ
  pub bitmap : Bytes
  pub is_open : Bool
  pub file : File
  pub script : List Transfer

pub record SlotLayout : Type 0 where
  pub slot_size : ℕ
  pub total_slots : ℕ
  pub bitmap_size : ℕ

-- `CalculateLayout`, one assignment a line: `uint32_t` and `uint64_t` wrap where the source's do.
abbrev pub slot_bytes : SegmentConfig → ℕ
slot_bytes c = (c.key_size + c.value_size) % 2 ^ 32

abbrev pub slot_estimate : SegmentConfig → ℕ
slot_estimate c = c.segment_size * 8 % 2 ^ 64 / ((8 * slot_bytes c + 1) % 2 ^ 64) % 2 ^ 32

abbrev pub align_up : ℕ → ℕ → ℕ
align_up align n =
    if ltb 0 align then (n + align + (2 ^ 64 - 1)) % 2 ^ 64 / align * align % 2 ^ 64 else n

abbrev pub bitmap_bytes : SegmentConfig → ℕ
bitmap_bytes c = align_up c.bitmap_alignment ((slot_estimate c + 7) % 2 ^ 32 / 8)

abbrev pub max_slots : SegmentConfig → ℕ
max_slots c = (c.segment_size + 2 ^ 64 - bitmap_bytes c) % 2 ^ 64 / slot_bytes c % 2 ^ 32

unfoldable pub calculate_layout : SegmentConfig → SlotLayout
calculate_layout c = record {
  slot_size = slot_bytes c;
  total_slots = if ltb (max_slots c) (slot_estimate c) then max_slots c else slot_estimate c;
  bitmap_size = bitmap_bytes c;
}

-- The constructor, over a file that it has not opened.
unfoldable pub create : ℕ → SegmentConfig → File → List Transfer → Segment
unfolding calculate_layout
create id c f s =
    let l = calculate_layout c in
    record {
      segment_id = id;
      config = c;
      state = idle;
      total_slots = l.total_slots;
      used_slots = 0;
      deleted_slots = 0;
      append_cursor = 0;
      slot_size = l.slot_size;
      bitmap_size = l.bitmap_size;
      slot_data_offset = l.bitmap_size;
      bitmap = replicate l.bitmap_size 0;
      is_open = false;
      file = f;
      script = s;
    }

abbrev pub increment : ℕ → ℕ
increment n = (n + 1) % 2 ^ 32

abbrev pub decrement : ℕ → ℕ
decrement n = (n + (2 ^ 32 - 1)) % 2 ^ 32

unfoldable pub get_free_slots : Segment → ℕ
get_free_slots s = (s.total_slots + 2 ^ 32 - s.append_cursor + s.deleted_slots) % 2 ^ 32

-- `NeedsCompaction`: `reaches d n` stands for `float(d) / n >= compaction_threshold`.
unfoldable pub needs_compaction : (ℕ → ℕ → Bool) → Segment → Bool
needs_compaction reaches s = elim s.state [
  | full ↦ ltb 0 s.append_cursor && reaches s.deleted_slots s.append_cursor
  | other ↦ false
]

unfoldable pub get_slot_offset : Segment → ℕ → ℕ
get_slot_offset s slot_id = (s.slot_data_offset + slot_id * s.slot_size) % 2 ^ 64

-- `none` stands for a negative result: none free, or a cursor that the cast makes negative.
unfoldable pub find_free_slot : Segment → Option ℕ
find_free_slot s =
    if ltb s.append_cursor s.total_slots
    then (if ltb s.append_cursor (2 ^ 31) then some s.append_cursor else none)
    else none

-- The state that `UpdateState` sets, from the used slots, the cursor and the number of slots.
abbrev pub state_for : ℕ → ℕ → ℕ → SegmentState
state_for used cursor total =
    if (used == 0) && (cursor == 0) then idle else if leb total cursor then full else appending

unfoldable pub update_state : Segment → Segment
update_state s = record s { state = state_for s.used_slots s.append_cursor s.total_slots }

unfoldable pub reset_bitmap : Segment → Segment
reset_bitmap s = record s {
  bitmap = replicate (length s.bitmap) 0;
  used_slots = 0;
  deleted_slots = 0;
  append_cursor = 0;
  state = idle;
}
