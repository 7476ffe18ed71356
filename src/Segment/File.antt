-- ===== src/Segment/File.antt =====
-- `SegmentFile` (parakv/core/segment/segment_file.h, parakv/core/segment/segment_file.cc). An
-- operation returns its status, its outputs and the new state. A null pointer is `none`; the
-- pointers for the results are taken to be there. `PWrite` and `PRead` are `pwrite_all` and
-- `pread_all` of Io.antt.
pub mod Valid
pub mod Payload
pub mod Insertion
pub mod Stored
pub mod Kept
pub mod Read
pub mod Fresh
pub mod Batch
pub mod Rebuilt
pub mod Compaction
use para_kv.Prelude.{
  ℕ, zero, suc, ◌+◌, ◌-◌, ◌*◌, ◌%◌, ◌^◌, Bool, true, false, not, Option, none, some, List, [], ◌∷◌,
  ◌++◌, length, take, drop, ltb, leb, if◌then◌else◌,
}
use para_kv.Prelude.Bytes.{Bytes}
use para_kv.Status.{Status, ok, io_error, invalid_argument, not_found, full}
use para_kv.Io.{File, Written, PRead, pwrite_all, pread_all}
use para_kv.Segment.Bitmap.{set_slot_bit, clear_slot_bit, is_slot_occupied}
use para_kv.Segment.Base.{
  Segment, increment, decrement, get_slot_offset, find_free_slot, update_state, reset_bitmap,
}

abbrev after_write : Segment → Written → Status × Segment
after_write s r = (r.status, record s { file = r.file; script = r.script })

-- `PWrite` on the segment's file, and `FlushBitmap`.
unfoldable pub pwrite : Segment → Bytes → ℕ → Status × Segment
pwrite s buf off = after_write s (pwrite_all s.script s.file buf off)

unfoldable pub flush_bitmap : Segment → Status × Segment
unfolding pwrite
flush_bitmap s = pwrite s s.bitmap 0

-- `LoadBitmap`: a failed read leaves what it has read in the bitmap.
unfoldable pub load_bitmap : Segment → Status × Segment
load_bitmap s =
    let r = pread_all s.script s.file 0 s.bitmap_size [] in
    (r.status, record s { bitmap = r.buf ++ drop (length r.buf) s.bitmap; script = r.script })

-- The rebuilding loop of `Open`: slot `i` is next and `n` are left.
unfoldable pub rebuild : Bytes → ℕ → ℕ → ℕ → ℕ → ℕ × ℕ
rebuild bitmap zero i used cursor = (used, cursor)
rebuild bitmap (suc n) i used cursor =
    rebuild bitmap n (i + 1) (if is_slot_occupied bitmap i then used + 1 else used)
      (if is_slot_occupied bitmap i then i + 1 else cursor)

unfoldable pub rebuilt : Segment → Segment
unfolding rebuild update_state
rebuilt s =
    let (used, cursor) = rebuild s.bitmap s.total_slots 0 0 0 in
    update_state
      (record s { used_slots = used; append_cursor = cursor; deleted_slots = cursor - used })

abbrev opened_existing : Status × Segment → Status × Segment
opened_existing (ok, s) = (ok, rebuilt s)
opened_existing (e, s) = (e, record s { is_open = false })

abbrev pub opened_new : Status × Segment → Status × Segment
opened_new (ok, s) = (ok, s)
opened_new (e, s) = (e, record s { is_open = false })

abbrev pub blank : ℕ → File
blank n = record { size = n; byte = λ i. 0 }

-- `Open`: whether the file exists, and whether `open` and `ftruncate` succeed, are arguments.
unfoldable pub open_segment : Segment → Bool → Bool → Bool → Status × Segment
unfolding rebuilt flush_bitmap load_bitmap reset_bitmap
open_segment s file_exists opened truncated =
    if s.is_open
    then (ok, s)
    else if not opened
    then (io_error, s)
    else if file_exists
    then opened_existing (load_bitmap (record s { is_open = true }))
    else if not truncated
    then (io_error, record s { file = blank 0 })
    else opened_new (
        flush_bitmap
          (reset_bitmap (record s { is_open = true; file = blank s.config.segment_size })))

unfoldable pub close_segment : Segment → Status × Segment
unfolding flush_bitmap
close_segment s = if s.is_open then (ok, record (flush_bitmap s).1 { is_open = false }) else (ok, s)

-- The two writes of a slot's payload.
abbrev then_value : Bytes → ℕ → Status × Segment → Status × Segment
then_value value off (ok, s) =
    pwrite s (take s.config.value_size value) ((off + s.config.key_size) % 2 ^ 64)
then_value value off (e, s) = (e, s)

unfoldable pub write_payload : Segment → ℕ → Bytes → Bytes → Status × Segment
unfolding pwrite get_slot_offset
write_payload s slot key value =
    then_value value (get_slot_offset s slot)
      (pwrite s (take s.config.key_size key) (get_slot_offset s slot))

-- The end of `Insert`, by the result of `FlushBitmap`.
abbrev insert_flushed : ℕ → Status × Segment → Status × ℕ × Segment
insert_flushed slot (ok, s) = (
  ok,
  slot,
  update_state
      (record s { used_slots = increment s.used_slots; append_cursor = increment s.append_cursor }),
)
insert_flushed slot (e, s) = (e, 0, record s { bitmap = clear_slot_bit s.bitmap slot })

abbrev insert_payload : ℕ → Status × Segment → Status × ℕ × Segment
insert_payload slot (ok, s) =
    insert_flushed slot (flush_bitmap (record s { bitmap = set_slot_bit s.bitmap slot }))
insert_payload slot (e, s) = (e, 0, s)

-- `Insert`: the status, the slot (0 where none is assigned) and the state.
unfoldable pub insert : Segment → Option Bytes → Option Bytes → Status × ℕ × Segment
unfolding write_payload flush_bitmap update_state find_free_slot
insert s (some key) (some value) =
    if not s.is_open then (io_error, 0, s) else elim (find_free_slot s) [
      | none ↦ (full, 0, s)
      | some slot ↦ insert_payload slot (write_payload s slot key value)
    ]
insert s key value = (invalid_argument, 0, s)

-- `Delete`.
abbrev delete_flushed : ℕ → Status × Segment → Status × Segment
delete_flushed slot (ok, s) = (
  ok,
  update_state
      (record s { used_slots = decrement s.used_slots; deleted_slots = increment s.deleted_slots }),
)
delete_flushed slot (e, s) = (e, record s { bitmap = set_slot_bit s.bitmap slot })

-- The rest of `Delete` for an occupied slot.
unfoldable pub delete_occupied : Segment → ℕ → Status × Segment
unfolding flush_bitmap update_state
delete_occupied s slot =
    delete_flushed slot (flush_bitmap (record s { bitmap = clear_slot_bit s.bitmap slot }))

unfoldable pub delete : Segment → ℕ → Status × Segment
delete s slot =
    if leb s.total_slots slot
    then (invalid_argument, s)
    else if not s.is_open
    then (io_error, s)
    else if not (is_slot_occupied s.bitmap slot)
    then (not_found, s)
    else delete_occupied s slot

-- `Read` into a key and a value buffer, both given; each is `none` where it was not filled.
abbrev read_value : Segment → ℕ → PRead → Status × Option Bytes × Option Bytes × Segment
read_value s off k = elim k.status [
  | ok ↦
      let v =
        pread_all k.script s.file ((off + s.config.key_size) % 2 ^ 64) s.config.value_size [] in
      elim v.status [
        | ok ↦ (ok, some k.buf, some v.buf, record s { script = v.script })
        | e ↦ (e, some k.buf, none, record s { script = v.script })
      ]
  | e ↦ (e, none, none, record s { script = k.script })
]

unfoldable pub read : Segment → ℕ → Status × Option Bytes × Option Bytes × Segment
unfolding get_slot_offset
read s slot =
    if leb s.total_slots slot
    then (invalid_argument, none, none, s)
    else if not s.is_open
    then (io_error, none, none, s)
    else if not (is_slot_occupied s.bitmap slot)
    then (not_found, none, none, s)
    else read_value s (get_slot_offset s slot)
        (pread_all s.script s.file (get_slot_offset s slot) s.config.key_size [])

unfoldable pub sync_bitmap : Segment → Status × Segment
unfolding flush_bitmap
sync_bitmap s = if not s.is_open then (io_error, s) else flush_bitmap s
