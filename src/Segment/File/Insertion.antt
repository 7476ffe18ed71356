-- ===== src/Segment/File/Insertion.antt =====
-- What the steps of `Insert` do to the bitmap, the data area and the layout of a segment
-- (parakv/core/segment/segment_file.cc).
use para_kv.Prelude.{
  ℕ, ◌≤◌, ◌<◌, ◌≡◌, refl, sym, ap, ◌∙◌, inr, true, List, length, arith, ◌==◌, if◌then◌else◌,
}
use para_kv.Prelude.Bytes.{Bytes}
use para_kv.Status.{Status, is_ok, ok}
use para_kv.Io.{File, Transfer, read_range, pwrite_all}
use para_kv.Io.Loops.{read-pwrite_all_apart}
use para_kv.Segment.Bitmap.{
  set_slot_bit, is_slot_occupied, occupied-set, occupied-clear, set_slot_bit-AreBytes,
  length-set_slot_bit,
}
use para_kv.Segment.Base.{Segment, update_state}
use para_kv.Segment.Base.Agrees.{occupied-lt}
use para_kv.Segment.File.{flush_bitmap, insert_flushed, insert_payload}
use para_kv.Segment.File.Valid.{IsValid}
use para_kv.Segment.File.Payload.{HoldsPayload, slot_start}

-- Flushing the bitmap leaves the data area alone, and the counters do not touch the file.
insert_flushed-file :
    (slot : ℕ) (e : Status) (t : Segment) → (insert_flushed slot (e, t)).2.file ≡ t.file
unfolding update_state
insert_flushed-file slot ok t = refl
insert_flushed-file slot e t = refl

pub insert_payload-apart :
    (s : Segment) (slot : ℕ) (e : Status) (f : File) (sc : List Transfer) (at n : ℕ)
    → length s.bitmap ≤ at
    → read_range (insert_payload slot (e, record s { file = f; script = sc })).2.file at n
      ≡ read_range f at n
unfolding flush_bitmap
insert_payload-apart s slot ok f sc at n h =
    let bm = set_slot_bit s.bitmap slot in
    ap (λ (g : File). read_range g at n) (insert_flushed-file slot (pwrite_all sc f bm 0).status _)
    ∙ read-pwrite_all_apart sc f bm 0 at n (inr (omega (arith, length-set_slot_bit s.bitmap slot)))
insert_payload-apart s slot e f sc at n h = refl

-- The memory after an insertion at the cursor: the bit is set exactly where the status is `kOk`.
insert_flushed-occupied :
    (s : Segment) (e : Status) (f : File) (sc : List Transfer) (j : ℕ)
    → IsValid s
    → s.append_cursor < s.total_slots
    → is_slot_occupied
        (insert_flushed s.append_cursor (
          e,
          record s { bitmap = set_slot_bit s.bitmap s.append_cursor; file = f; script = sc },
        )).2.bitmap
        j
      ≡ (if s.append_cursor == j then is_ok e else is_slot_occupied s.bitmap j)
unfolding update_state
insert_flushed-occupied s ok f sc j v room =
    occupied-set s.bitmap s.append_cursor v.bytes j (omega (arith, v.bits))
insert_flushed-occupied s e f sc j v room = ground (
  arith,
  occupied-clear (set_slot_bit s.bitmap s.append_cursor) s.append_cursor
      (set_slot_bit-AreBytes s.bitmap s.append_cursor v.bytes) j
      (omega (arith, v.bits, length-set_slot_bit s.bitmap s.append_cursor)),
  occupied-set s.bitmap s.append_cursor v.bytes j (omega (arith, v.bits)),
)

insert_flushed-status : (slot : ℕ) (e : Status) (t : Segment) → (insert_flushed slot (e, t)).0 ≡ e
insert_flushed-status slot ok t = refl
insert_flushed-status slot e t = refl

-- A stored pair survives any insertion, also a failing one: the new slot is another.
pub insert_payload-keeps :
    (s : Segment) (e : Status) (f : File) (sc : List Transfer) (j : ℕ)
    → IsValid s
    → s.append_cursor < s.total_slots
    → is_slot_occupied s.bitmap j ≡ true
    → is_slot_occupied
        (insert_payload s.append_cursor (e, record s { file = f; script = sc })).2.bitmap
        j
      ≡ true
unfolding flush_bitmap
insert_payload-keeps s ok f sc j v room on = ground (
  arith,
  insert_flushed-occupied s (pwrite_all sc f (set_slot_bit s.bitmap s.append_cursor) 0).status
      (pwrite_all sc f (set_slot_bit s.bitmap s.append_cursor) 0).file
      (pwrite_all sc f (set_slot_bit s.bitmap s.append_cursor) 0).script j v room,
  occupied-lt j v on,
  on,
)
insert_payload-keeps s e f sc j v room on = on

-- The layout is fixed.
abbrev SameLayout : Segment → Segment → Type 0
SameLayout t s =
    (t.config ≡ s.config)
    × (t.slot_data_offset ≡ s.slot_data_offset)
    × (t.slot_size ≡ s.slot_size)
    × (t.total_slots ≡ s.total_slots)

insert_flushed-SameLayout :
    (slot : ℕ) (e : Status) (t : Segment) → SameLayout (insert_flushed slot (e, t)).2 t
unfolding update_state
insert_flushed-SameLayout slot ok t = (refl, refl, refl, refl)
insert_flushed-SameLayout slot e t = (refl, refl, refl, refl)

pub insert_payload-SameLayout :
    (s : Segment) (slot : ℕ) (e : Status) (f : File) (sc : List Transfer)
    → SameLayout (insert_payload slot (e, record s { file = f; script = sc })).2 s
unfolding flush_bitmap
insert_payload-SameLayout s slot ok f sc = insert_flushed-SameLayout slot _ _
insert_payload-SameLayout s slot e f sc = (refl, refl, refl, refl)

-- A payload, seen from a segment with the same layout.
pub HoldsPayload-SameLayout :
    (t s : Segment) (slot : ℕ) (key value : Bytes)
    → SameLayout t s
    → HoldsPayload t.file (slot_start s slot) s.config.key_size s.config.value_size key value
    → HoldsPayload t.file (slot_start t slot) t.config.key_size t.config.value_size key value
HoldsPayload-SameLayout t s slot key value (c, o, w, _) h = rw (c, o, w) h

insert_flushed-slot :
    (slot : ℕ) (e : Status) (t : Segment) → e ≡ ok → (insert_flushed slot (e, t)).1 ≡ slot
insert_flushed-slot slot ok t h = refl
insert_flushed-slot slot e t h = cc

-- What a successful insertion has gone through.
pub insert_payload-done :
    (s : Segment) (e : Status) (f : File) (sc : List Transfer)
    → IsValid s
    → s.append_cursor < s.total_slots
    → (insert_payload s.append_cursor (e, record s { file = f; script = sc })).0 ≡ ok
    → (e ≡ ok)
      × ((insert_payload s.append_cursor (e, record s { file = f; script = sc })).1
          ≡ s.append_cursor)
      × (is_slot_occupied
            (insert_payload s.append_cursor (e, record s { file = f; script = sc })).2.bitmap
            s.append_cursor
          ≡ true)
unfolding flush_bitmap
insert_payload-done s ok f sc v room done =
    let r = pwrite_all sc f (set_slot_bit s.bitmap s.append_cursor) 0 in
    let flushed : r.status ≡ ok = sym (insert_flushed-status s.append_cursor r.status _) ∙ done in
    (
      refl,
      insert_flushed-slot s.append_cursor r.status _ flushed,
      insert_flushed-occupied s r.status r.file r.script s.append_cursor v room
          ∙ ground (arith, flushed),
    )
insert_payload-done s e f sc v room done = cc
