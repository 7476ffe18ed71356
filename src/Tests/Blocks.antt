-- ===== src/Tests/Blocks.antt =====
-- Runs on a block device of 256 bytes that refuses to write beyond its end, with two segments of
-- 64 bytes on it (parakv/core/segment/segment_block_dev.cc).
use para_kv.Prelude.{
  replicate, ◌-◌, ℕ, ◌+◌, ◌<◌, ◌≡◌, refl, inl, inr, Bool, true, none, some, [], arith, leb, length,
  if◌then◌else◌, Bool-cases, ◌==◌, ◌&&◌,
}
use para_kv.Prelude.Bytes.{Bytes}
use para_kv.Status.{Status, ok, is_ok, io_error}
use para_kv.Io.{File, read_range, write_range}
use para_kv.Io.Ranges.{length-read_range, read-write_apart, read-write_self}
use para_kv.Segment.Base.{create}
use para_kv.Segment.Bitmap.{set_slot_bit, is_slot_occupied}
use para_kv.Segment.File.{blank}
use para_kv.Segment.File.Fresh.{create-IsValid}
use para_kv.Segment.BlockDev.{
  BlockDeviceIo, SegmentBlockDev, new_segment_block_dev, insert, delete, read, open_segment,
}
use para_kv.Segment.BlockDev.Device.{IsDevice, IsReady, contents}
use para_kv.Segment.BlockDev.Batch.{Compacting, block_target, compact}
use para_kv.Segment.BlockDev.Contents.{contents-insert}
use para_kv.Segment.BlockDev.Deletion.{contents-delete}
use para_kv.Segment.BlockDev.Reading.{ReadsSucceed, answer, read-contents}
use para_kv.Segment.BlockDev.Place.{SamePlace}
use para_kv.Segment.BlockDev.Isolation.{
  Run, stop, call, inserting, deleting, compacting, contents-Run,
}
use para_kv.Segment.BlockDev.Compaction.{IsReady-IsBounded}
use para_kv.Segment.BlockDev.Lossless.{IsLossless, compact-IsLossless}
use para_kv.Segment.BlockDev.Filling.{
  WritesSucceed, insert_each, until_full, insert_each-until_full,
}
use para_kv.Segment.BlockDev.Reopened.{open-insert}
use para_kv.Tests.Segments.{small_config, small_config-IsSmall, small_config-fits, a_key, a_value}

abbrev capped_write : File → Bytes → ℕ → Status × File
capped_write f buf off =
    if leb (off + length buf) f.size then (ok, write_range f off buf) else (io_error, f)

abbrev capped : BlockDeviceIo
capped = record {
  Device = File;
  write = capped_write;
  read = λ f n off. (ok, read_range f off n, f);
  sync = λ f. (ok, f);
}

unfoldable capped-IsDevice : IsDevice capped
capped-IsDevice = record {
  bytes_at = read_range;
  write_ok = λ d buf off done. elim (Bool-cases (leb (off + length buf) d.size)) [
    | inl fits ↦ rw fits (read-write_self d off buf)
    | inr over ↦ let bad : io_error ≡ ok = (simp over at done) in cc
  ];
  write_apart = λ d buf off at n away. elim (Bool-cases (leb (off + length buf) d.size)) [
    | inl fits ↦ rw fits (read-write_apart d off buf at n away)
    | inr over ↦ rw over refl
  ];
  read_ok = λ d n off done. refl;
  read_keeps = λ d n off at m. refl;
  length_read = λ d n off. omega (arith, length-read_range d off n);
  length_bytes_at = length-read_range;
  sync_keeps = λ d at m. refl;
}

abbrev device : File
device = blank 256

-- Two open segments, in the second and the third block of 64 bytes.
abbrev segment_on : ℕ → ℕ → Bool → SegmentBlockDev
segment_on id lba open_ = record {
  base = create id small_config (blank 0) [];
  base_lba_offset = lba;
  opened = open_;
}

abbrev first : SegmentBlockDev
first = segment_on 1 64 true

abbrev second : SegmentBlockDev
second = segment_on 2 128 true

segment_on-IsReady : (id lba : ℕ) (open_ : Bool) → lba < 1000 → IsReady (segment_on id lba open_)
unfolding create
segment_on-IsReady id lba open_ small =
    let (valid, layout) =
      create-IsValid id small_config (blank 0) [] small_config-IsSmall small_config-fits in
    record {
      valid = valid;
      placed = record { layout = layout; no_wrap = omega arith; whole = refl };
    }

first-IsReady : IsReady first
first-IsReady = segment_on-IsReady 1 64 true (omega arith)

second-IsReady : IsReady second
second-IsReady = segment_on-IsReady 2 128 true (omega arith)

contents-insert_example :
    let out = insert capped first device (some a_key) (some a_value) in
    IsReady out.2
    × ((j : ℕ)
        → contents capped capped-IsDevice out.2 out.3 j ≡ (
            if is_ok out.0 && (first.base.append_cursor == j)
            then some (a_key, a_value)
            else contents capped capped-IsDevice first device j))
unfolding create
contents-insert_example =
    contents-insert capped capped-IsDevice first device a_key a_value first-IsReady refl refl

-- The pair is stored, in slot 0.
insert_runs :
    let out = insert capped first device (some a_key) (some a_value) in
    (out.0 ≡ ok) × (contents capped capped-IsDevice out.2 out.3 0 ≡ some (a_key, a_value))
unfolding insert create write_range contents read_range set_slot_bit is_slot_occupied
    capped-IsDevice
insert_runs = (refl, refl)

-- A segment beyond the end of the device cannot insert.
insert_refused :
    (insert capped (segment_on 9 250 true) device (some a_key) (some a_value)).0 ≡ io_error
unfolding insert create write_range
insert_refused = refl

abbrev filled : SegmentBlockDev
filled = (insert capped first device (some a_key) (some a_value)).2

abbrev filled_device : File
filled_device = (insert capped first device (some a_key) (some a_value)).3

filled-IsReady : IsReady filled
filled-IsReady = contents-insert_example.0

contents-delete_example :
    let out = delete capped filled filled_device 0 in
    IsReady out.1
    × ((j : ℕ)
        → contents capped capped-IsDevice out.1 out.2 j ≡ (
            if is_ok out.0 && (0 == j)
            then none
            else contents capped capped-IsDevice filled filled_device j))
contents-delete_example =
    contents-delete capped capped-IsDevice filled filled_device 0 filled-IsReady

filled-opened : filled.opened ≡ true
unfolding insert create write_range set_slot_bit
filled-opened = refl

filled-total_slots : 0 < filled.base.total_slots
unfolding insert create write_range set_slot_bit
filled-total_slots = omega arith

capped-ReadsSucceed : ReadsSucceed capped
capped-ReadsSucceed d n off = refl

read-contents_example :
    let out = read capped filled filled_device 0 true true in
    (out.0, out.1, out.2) ≡ answer (contents capped capped-IsDevice filled filled_device 0)
read-contents_example =
    read-contents capped capped-IsDevice filled filled_device 0 capped-ReadsSucceed filled-IsReady
      filled-opened filled-total_slots

-- A pair goes into the first segment and is deleted; the second does not notice.
-- A segment in the first block, to compact into.
abbrev spare : SegmentBlockDev
spare = segment_on 3 0 true

abbrev moved_out : SegmentBlockDev × Compacting SegmentBlockDev File
moved_out = compact capped (block_target capped) filled spare filled_device

three-Run :
    Run capped second first device
      (delete capped moved_out.0 moved_out.1.device 0).1
      (delete capped moved_out.0 moved_out.1.device 0).2
unfolding create
three-Run = call (inserting first device (some a_key) (some a_value)) (
    call
      (compacting filled filled_device spare
        (IsReady-IsBounded spare (segment_on-IsReady 3 0 true (omega arith))) (inl (omega arith)))
      (call (deleting moved_out.0 moved_out.1.device 0) stop))

contents-Run_example :
    ((j : ℕ)
      → contents capped capped-IsDevice second (delete capped moved_out.0 moved_out.1.device 0).2 j
        ≡ contents capped capped-IsDevice second device j)
    × (read_range (delete capped moved_out.0 moved_out.1.device 0).2 128 8
        ≡ read_range device 128 8)
unfolding create read_range capped-IsDevice
contents-Run_example =
    contents-Run capped capped-IsDevice second three-Run (IsReady-IsBounded first first-IsReady)
      second-IsReady (inl (omega arith))

compact-IsLossless_example :
    IsLossless capped capped-IsDevice filled second filled_device
      (compact capped (block_target capped) filled second filled_device)
unfolding create insert write_range set_slot_bit
compact-IsLossless_example =
    compact-IsLossless capped capped-IsDevice filled second filled_device filled-IsReady
      second-IsReady (inr (omega arith)) refl refl

-- The first segment's object in a new process.
abbrev restarted : SegmentBlockDev
restarted = new_segment_block_dev 1 small_config 64

restarted-SamePlace : SamePlace restarted first
unfolding new_segment_block_dev
restarted-SamePlace = record {
  config = refl;
  data_start = refl;
  width = refl;
  slots = refl;
  lba = refl;
  bits = refl;
  size = refl;
  id = refl;
}

open-insert_example :
    let new = open_segment capped restarted filled_device in
    IsReady new.1
    × ((j : ℕ)
        → contents capped capped-IsDevice new.1 new.2 j ≡ (
            if first.base.append_cursor == j
            then some (a_key, a_value)
            else contents capped capped-IsDevice first device j))
unfolding create insert write_range set_slot_bit open_segment new_segment_block_dev
open-insert_example =
    open-insert capped capped-IsDevice first restarted device a_key a_value first-IsReady refl refl
      restarted-SamePlace refl refl refl

-- A device without an end.
abbrev endless : BlockDeviceIo
endless = record {
  Device = File;
  write = λ f buf off. (ok, write_range f off buf);
  read = λ f n off. (ok, read_range f off n, f);
  sync = λ f. (ok, f);
}

endless-WritesSucceed : WritesSucceed endless
endless-WritesSucceed d buf off = refl

insert_each-until_full_example :
    insert_each endless first device (replicate 16 (a_key, a_value))
    ≡ until_full (first.base.total_slots - first.base.append_cursor) 16
unfolding create
insert_each-until_full_example =
    insert_each-until_full endless first device (replicate 16 (a_key, a_value))
      endless-WritesSucceed refl (omega arith) (omega arith)
