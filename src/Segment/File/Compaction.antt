-- ===== src/Segment/File/Compaction.antt =====
-- `Compact` keeps both segments' counters in agreement with their bitmaps
-- (parakv/core/segment/segment_file.cc).
use para_kv.Prelude.{
  ℕ, zero, suc, ◌+◌, ◌%◌, ◌^◌, refl, Bool, if◌then◌else◌, true, false, some, List, [], length,
  length-replicate, Bool-cases, inl, inr, arith,
}
use para_kv.Prelude.Bytes.{Bytes}
use para_kv.Status.{Status, ok}
use para_kv.Io.{Transfer, pread_all}
use para_kv.Segment.Bitmap.{is_slot_occupied}
use para_kv.Segment.Base.{Segment, get_slot_offset, reset_bitmap}
use para_kv.Segment.Base.Counting.{count_below}
use para_kv.Segment.File.{flush_bitmap, insert}
use para_kv.Segment.File.Valid.{IsValid, insert-IsValid}
use para_kv.Segment.File.Fresh.{occupied-replicate, replicate-AreBytes}
use para_kv.Segment.File.Batch.{
  Compacting, moved_slot, value_read, key_read, move_slot, compact_loop, reset_source, compact,
}

abbrev AreValid : Compacting → Type 0
AreValid c = IsValid c.source × IsValid c.target

moved_slot-IsValid :
    (c : Compacting) (key : Bytes) (i : ℕ) (e : Status) (slot : ℕ) (t : Segment)
    → IsValid c.source
    → IsValid t
    → AreValid (moved_slot c key i (e, slot, t))
moved_slot-IsValid c key i ok slot t v w = (v, w)
moved_slot-IsValid c key i e slot t v w = (v, w)

value_read-IsValid :
    (c : Compacting) (i : ℕ) (key : Bytes) (e : Status) (buf : Bytes) (sc : List Transfer)
    → AreValid c
    → AreValid (value_read c i key (record { status = e; buf = buf; script = sc }))
value_read-IsValid c i key ok buf sc (v, w) =
    let r = insert c.target (some key) (some buf) in
    moved_slot-IsValid (record c { source = record c.source { script = sc } }) key i r.0 r.1 r.2 v
      (insert-IsValid c.target (some key) (some buf) w)
value_read-IsValid c i key e buf sc (v, w) = (v, w)

key_read-IsValid :
    (c : Compacting) (i off : ℕ) (e : Status) (buf : Bytes) (sc : List Transfer)
    → AreValid c
    → AreValid (key_read c i off (record { status = e; buf = buf; script = sc }))
key_read-IsValid c i off ok buf sc v =
    let r =
      pread_all sc c.source.file ((off + c.source.config.key_size) % 2 ^ 64)
        c.source.config.value_size [] in
    value_read-IsValid c i buf r.status r.buf r.script v
key_read-IsValid c i off e buf sc v = v

move_slot-IsValid : (c : Compacting) (i : ℕ) → AreValid c → AreValid (move_slot c i)
unfolding move_slot
move_slot-IsValid c i v =
    let off = get_slot_offset c.source i in
    let r = pread_all c.source.script c.source.file off c.source.config.key_size [] in
    key_read-IsValid c i off r.status r.buf r.script v

step-IsValid :
    (e : Status) (rest next : Compacting)
    → AreValid rest
    → AreValid next
    → AreValid (elim e [ ok ↦ rest | other ↦ next ])
step-IsValid ok rest next v w = v
step-IsValid e rest next v w = w

either-IsValid :
    (b : Bool) (c d : Compacting) → AreValid c → AreValid d → AreValid (if b then c else d)
either-IsValid true c d v w = v
either-IsValid false c d v w = w

compact_loop-IsValid : (n i : ℕ) (c : Compacting) → AreValid c → AreValid (compact_loop n i c)
unfolding compact_loop
compact_loop-IsValid zero i c v = v
compact_loop-IsValid (suc n) i c v =
    let next = if is_slot_occupied c.source.bitmap i then move_slot c i else c in
    let w =
      either-IsValid (is_slot_occupied c.source.bitmap i) (move_slot c i) c
        (move_slot-IsValid c i v) v in
    step-IsValid next.status (compact_loop n (i + 1) next) next
      (compact_loop-IsValid n (i + 1) next w) w

pub reset_bitmap-IsValid : (s : Segment) → IsValid s → IsValid (reset_bitmap s)
unfolding reset_bitmap
reset_bitmap-IsValid s v = record {
  bytes = replicate-AreBytes _;
  bits = omega (arith, v.bits, length-replicate {A = ℕ} (length s.bitmap) 0);
  small = v.small;
  within = omega arith;
  fresh = λ j _. occupied-replicate _ j;
  counted = unfold count_below in refl;
  split = omega arith;
  state_right = refl;
}

reset_source-IsValid : (c : Compacting) → AreValid c → AreValid (reset_source c)
unfolding flush_bitmap
reset_source-IsValid c (v, w) = (reset_bitmap-IsValid c.source v, w)

-- Whatever the reads, the insertions and the last flush answer: compacting one segment whose
-- counters agree with its bitmap into another such segment leaves two such segments.
pub compact-IsValid :
    (s target : Segment)
    → IsValid s
    → IsValid target
    → IsValid (compact s target).source × IsValid (compact s target).target
unfolding compact
compact-IsValid s target v w = elim (Bool-cases s.is_open) [
  | inr closed ↦ simp closed (v, w)
  | inl open_ ↦ simp open_ (
      let start : Compacting = record { status = ok; moves = []; source = s; target = target } in
      let c = compact_loop s.append_cursor 0 start in
      let u = compact_loop-IsValid s.append_cursor 0 start (v, w) in
      step-IsValid c.status (reset_source c) c (reset_source-IsValid c u) u)
]
