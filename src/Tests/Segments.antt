-- ===== src/Tests/Segments.antt =====
-- Runs on a segment of 64 bytes with keys and values of two bytes: an aligned bitmap of 8 bytes
-- and 14 slots (parakv/core/segment).
use para_kv.Prelude.{◌+◌, ◌*◌, ◌≤◌, ◌≡◌, refl, true, some, [], ◌∷◌, arith}
use para_kv.Prelude.Bytes.{Bytes}
use para_kv.Status.{ok}
use para_kv.Io.{pwrite_all, write_range, moved, interrupted, NoFailure}
use para_kv.Segment.Bitmap.{set_slot_bit}
use para_kv.Segment.Base.{Segment, SegmentConfig, calculate_layout, create}
use para_kv.Segment.Manager.{
  SegmentManager, add_segment, mark_segment_full, release_segment, get_active_segment,
}
use para_kv.Segment.File.Batch.{compact}
use para_kv.Segment.File.Compaction.{compact-IsValid}
use para_kv.Segment.Manager.Partition.{
  IsPartition, Steps, start, then_step, adds, fills, releases, activates, Steps-IsPartition,
}
use para_kv.Segment.Base.Layout.{IsSmall, layout_fits}
use para_kv.Segment.File.{insert, delete, read, blank}
use para_kv.Segment.File.Valid.{IsValid, insert-IsValid, delete-IsValid}
use para_kv.Segment.File.Payload.{HasLayout}
use para_kv.Segment.File.Stored.{IsStored, insert-IsStored}
use para_kv.Segment.File.Read.{read-IsStored}
use para_kv.Segment.File.Fresh.{create-IsValid}

abbrev pub small_config : SegmentConfig
small_config = record { key_size = 2; value_size = 2; segment_size = 64; bitmap_alignment = 8 }

pub small_config-IsSmall : IsSmall small_config
small_config-IsSmall = record {
  slot_pos = omega arith;
  slot_fits = omega arith;
  size_fits = omega arith;
  estimate_fits = omega arith;
  align_fits = omega arith;
}

small_config-bitmap : (calculate_layout small_config).bitmap_size ≡ 8
unfolding calculate_layout
small_config-bitmap = refl

pub small_config-fits : (calculate_layout small_config).bitmap_size ≤ 64
small_config-fits = omega (arith, small_config-bitmap)

layout_fits_example :
    ((calculate_layout small_config).total_slots ≤ 8 * (calculate_layout small_config).bitmap_size)
    × ((calculate_layout small_config).bitmap_size
          + (calculate_layout small_config).total_slots * (calculate_layout small_config).slot_size
        ≤ 64)
layout_fits_example = layout_fits small_config small_config-IsSmall small_config-fits

-- The new segment, opened: the next calls move one byte, are interrupted, and then go through.
abbrev pub opened : Segment
opened = record (create 7 small_config (blank 64) []) {
  is_open = true;
  script = moved 1 ∷ interrupted ∷ [];
}

create-IsValid_lem :
    IsValid (create 7 small_config (blank 64) []) × HasLayout (create 7 small_config (blank 64) [])
create-IsValid_lem =
    create-IsValid 7 small_config (blank 64) [] small_config-IsSmall small_config-fits

pub opened-IsValid : IsValid opened
opened-IsValid = create-IsValid_lem.0

pub opened-HasLayout : HasLayout opened
opened-HasLayout = record {
  data_start = create-IsValid_lem.1.data_start;
  slot_width = create-IsValid_lem.1.slot_width;
  no_wrap = create-IsValid_lem.1.no_wrap;
}

abbrev pub a_key : Bytes
a_key = 1 ∷ 2 ∷ []

abbrev pub a_value : Bytes
a_value = 3 ∷ 4 ∷ []

opened-insert : (insert opened (some a_key) (some a_value)).0 ≡ ok
unfolding insert create pwrite_all
opened-insert = refl

insert-IsValid_example : IsValid (insert opened (some a_key) (some a_value)).2
insert-IsValid_example = insert-IsValid opened (some a_key) (some a_value) opened-IsValid

insert-IsStored_example :
    ((insert opened (some a_key) (some a_value)).1 ≡ opened.append_cursor)
    × IsStored (insert opened (some a_key) (some a_value)).2 opened.append_cursor a_key a_value
unfolding create
insert-IsStored_example =
    insert-IsStored opened opened-IsValid opened-HasLayout a_key a_value refl refl opened-insert

-- The segment after that insertion.
abbrev holding : Segment
holding = (insert opened (some a_key) (some a_value)).2

holding-IsValid : IsValid holding
holding-IsValid = insert-IsValid opened (some a_key) (some a_value) opened-IsValid

holding-IsStored : IsStored holding 0 a_key a_value
unfolding create
holding-IsStored =
    (insert-IsStored opened opened-IsValid opened-HasLayout a_key a_value refl refl opened-insert).1

holding-HasLayout : HasLayout holding
unfolding insert create pwrite_all set_slot_bit
holding-HasLayout = record { data_start = refl; slot_width = refl; no_wrap = omega arith }

delete-IsValid_example : IsValid (delete holding 0).1
delete-IsValid_example = delete-IsValid holding 0 holding-IsValid

holding-is_open : holding.is_open ≡ true
unfolding insert create pwrite_all
holding-is_open = refl

holding-NoFailure : NoFailure holding.script
unfolding insert create pwrite_all
holding-NoFailure = tt

holding-size :
    holding.slot_data_offset + holding.total_slots * holding.slot_size ≤ holding.file.size
unfolding insert create pwrite_all write_range set_slot_bit
holding-size = omega arith

read-IsStored_example :
    ((read holding 0).0 ≡ ok)
    × ((read holding 0).1 ≡ some a_key)
    × ((read holding 0).2 ≡ some a_value)
read-IsStored_example =
    read-IsStored holding holding-IsValid holding-HasLayout 0 a_key a_value holding-is_open
      holding-NoFailure holding-size holding-IsStored

abbrev no_segments : SegmentManager
no_segments = record {
  segments = [];
  idle_set = [];
  appending_set = [];
  full_set = [];
  full_order = [];
  access_counters = [];
  hot_segments = [];
}

no_segments-IsPartition : IsPartition no_segments
no_segments-IsPartition x = record { one_set = refl; once = omega arith; ordered = refl }

-- A segment is added, handed out, marked full and released.
abbrev after_add : SegmentManager
after_add = (add_segment no_segments (some opened)).1

abbrev after_release : SegmentManager
after_release = (release_segment (mark_segment_full (get_active_segment after_add).1 7).1 7).1

four-Steps : Steps no_segments after_release
four-Steps =
    then_step _ _ _
      (then_step _ _ _
        (then_step _ _ _ (then_step _ _ _ (start no_segments) (adds no_segments (some opened)))
          (activates after_add))
        (fills (get_active_segment after_add).1 7))
      (releases (mark_segment_full (get_active_segment after_add).1 7).1 7)

Steps-IsPartition_example : IsPartition after_release
Steps-IsPartition_example =
    Steps-IsPartition no_segments after_release four-Steps no_segments-IsPartition

abbrev saved : SegmentManager
saved = record no_segments { full_order = 9 ∷ 7 ∷ []; idle_set = 4 ∷ [] }

compact-IsValid_example :
    IsValid (compact holding opened).source × IsValid (compact holding opened).target
compact-IsValid_example = compact-IsValid holding opened holding-IsValid opened-IsValid
