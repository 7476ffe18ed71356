-- ===== src/Segment/File/Kept.antt =====
-- What `Insert` and `Delete` of a segment on a file keep: its layout, its size, and the pairs in the
-- other slots (parakv/core/segment/segment_file.cc).
use native.Mathlib.Nat.{le_trans, le_refl}
use mathlib.Core.Path.{subst}
use para_kv.Prelude.{
  ℕ, ◌+◌, ◌*◌, ◌^◌, ◌≤◌, ◌<◌, ◌≡◌, refl, sym, ap, ◌∙◌, inl, inr, true, false, some, List, length,
  take, arith, ◌==◌,
}
use para_kv.Prelude.Bytes.{Bytes}
use para_kv.Status.{Status, ok}
use para_kv.Io.{File, Transfer, read_range, pwrite_all}
use para_kv.Io.Loops.{read-pwrite_all_apart}
use para_kv.Segment.Bitmap.{
  set_slot_bit, clear_slot_bit, is_slot_occupied, occupied-set, occupied-clear,
  clear_slot_bit-AreBytes, length-set_slot_bit, length-clear_slot_bit,
}
use para_kv.Segment.Base.{Segment, SegmentConfig, update_state, get_slot_offset}
use para_kv.Segment.Base.Agrees.{occupied-lt}
use para_kv.Segment.File.{
  pwrite, flush_bitmap, then_value, write_payload, insert_flushed, insert_payload, insert,
  delete_flushed, delete_occupied, delete,
}
use para_kv.Segment.File.Valid.{
  IsValid, write_payload-shape, insert-cases, insert-IsValid, delete-cases, delete-IsValid,
}
use para_kv.Segment.File.Payload.{HasLayout, HoldsPayload, slot_start, size-pwrite_all}
use para_kv.Segment.File.Stored.{IsStored}

-- The same segment later: the same place, the same layout, and no shorter file.
pub record IsLater (t s : Segment) : Type 0 where
  pub id : t.segment_id ≡ s.segment_id
  pub config : t.config ≡ s.config
  pub data_start : t.slot_data_offset ≡ s.slot_data_offset
  pub width : t.slot_size ≡ s.slot_size
  pub slots : t.total_slots ≡ s.total_slots
  pub bits : length t.bitmap ≡ length s.bitmap
  pub still : t.is_open ≡ s.is_open
  pub longer : s.file.size ≤ t.file.size

pub IsLater-refl : (s : Segment) → IsLater s s
IsLater-refl s = record {
  id = refl;
  config = refl;
  data_start = refl;
  width = refl;
  slots = refl;
  bits = refl;
  still = refl;
  longer = le_refl _;
}

-- A segment that serves pairs of `k` and `v` bytes.
pub record IsUsable (k v : ℕ) (s : Segment) : Type 0 where
  pub valid : IsValid s
  pub layout : HasLayout s
  pub key_size : s.config.key_size ≡ k
  pub value_size : s.config.value_size ≡ v
  pub opened : s.is_open ≡ true
  pub id_fits : s.segment_id < 2 ^ 20
  pub slots_fit : s.total_slots ≤ 2 ^ 28
  pub room : s.slot_data_offset + s.total_slots * s.slot_size ≤ s.file.size

pub IsLater-IsUsable :
    (k v : ℕ) (t s : Segment) → IsLater t s → IsValid t → IsUsable k v s → IsUsable k v t
IsLater-IsUsable k v t s l valid u = record {
  valid = valid;
  layout = record {
    data_start = l.data_start ∙ u.layout.data_start ∙ sym l.bits;
    slot_width =
        l.width
        ∙ u.layout.slot_width
        ∙ ap (λ (c : SegmentConfig). c.key_size + c.value_size) (sym l.config);
    no_wrap = rw (l.data_start, l.slots, l.width) u.layout.no_wrap;
  };
  key_size = ap (λ (c : SegmentConfig). c.key_size) l.config ∙ u.key_size;
  value_size = ap (λ (c : SegmentConfig). c.value_size) l.config ∙ u.value_size;
  opened = l.still ∙ u.opened;
  id_fits = rw l.id u.id_fits;
  slots_fit = rw l.slots u.slots_fit;
  room = rw (l.data_start, l.slots, l.width) (le_trans u.room l.longer);
}

then_value-longer :
    (s : Segment) (e : Status) (f : File) (sc : List Transfer) (value : Bytes) (off : ℕ)
    → f.size ≤ (then_value value off (e, record s { file = f; script = sc })).1.file.size
unfolding pwrite
then_value-longer s ok f sc value off = size-pwrite_all sc f _ _
then_value-longer s e f sc value off = le_refl _

write_payload-longer :
    (s : Segment) (slot : ℕ) (key value : Bytes)
    → s.file.size ≤ (write_payload s slot key value).1.file.size
unfolding write_payload
write_payload-longer s slot key value =
    let r = pwrite_all s.script s.file (take s.config.key_size key) (get_slot_offset s slot) in
    le_trans (size-pwrite_all s.script s.file (take s.config.key_size key) (get_slot_offset s slot))
      (then_value-longer s r.status r.file r.script value (get_slot_offset s slot))

insert_flushed-IsLater :
    (s : Segment) (slot : ℕ) (e : Status) (f : File) (sc : List Transfer)
    → s.file.size ≤ f.size
    → IsLater
        (insert_flushed slot
          (e, record s { bitmap = set_slot_bit s.bitmap slot; file = f; script = sc })).2
        s
unfolding update_state
insert_flushed-IsLater s slot ok f sc h = record {
  id = refl;
  config = refl;
  data_start = refl;
  width = refl;
  slots = refl;
  bits = length-set_slot_bit s.bitmap slot;
  still = refl;
  longer = h;
}
insert_flushed-IsLater s slot e f sc h = record {
  id = refl;
  config = refl;
  data_start = refl;
  width = refl;
  slots = refl;
  bits =
      length-clear_slot_bit (set_slot_bit s.bitmap slot) slot ∙ length-set_slot_bit s.bitmap slot;
  still = refl;
  longer = h;
}

insert_payload-IsLater :
    (s : Segment) (slot : ℕ) (e : Status) (f : File) (sc : List Transfer)
    → s.file.size ≤ f.size
    → IsLater (insert_payload slot (e, record s { file = f; script = sc })).2 s
unfolding flush_bitmap
insert_payload-IsLater s slot ok f sc h =
    insert_flushed-IsLater s slot _ _ _
      (le_trans h (size-pwrite_all sc f (set_slot_bit s.bitmap slot) 0))
insert_payload-IsLater s slot e f sc h = record {
  id = refl;
  config = refl;
  data_start = refl;
  width = refl;
  slots = refl;
  bits = refl;
  still = refl;
  longer = h;
}

pub insert-IsLater :
    (s : Segment) (key value : Bytes) → IsLater (insert s (some key) (some value)).2 s
insert-IsLater s key value = elim (insert-cases s key value) [
  | inl (same, _) ↦ subst (λ (t : Segment). IsLater t s) (sym same) (IsLater-refl s)
  | inr (room, e) ↦
      let (st, f, sc, shape) = write_payload-shape s s.append_cursor key value in
      let longer : s.file.size ≤ f.size = omega (
        arith,
        write_payload-longer s s.append_cursor key value,
        ap (λ (r : Status × Segment). r.1.file.size) shape,
      ) in
      subst (λ (r : Status × ℕ × Segment). IsLater r.2 s)
        (sym (e ∙ ap (insert_payload s.append_cursor) shape))
        (insert_payload-IsLater s s.append_cursor st f sc longer)
]

-- `Insert` keeps a segment usable.
pub insert-IsUsable :
    (k v : ℕ) (s : Segment) (key value : Bytes)
    → IsUsable k v s
    → IsUsable k v (insert s (some key) (some value)).2
insert-IsUsable k v s key value u =
    IsLater-IsUsable k v (insert s (some key) (some value)).2 s (insert-IsLater s key value)
      (insert-IsValid s (some key) (some value) u.valid) u

-- The end of a deletion: the segment is later, the data area is as before, and the other bits too.
delete_flushed-IsLater :
    (s : Segment) (slot : ℕ) (e : Status) (f : File) (sc : List Transfer)
    → s.file.size ≤ f.size
    → IsLater
        (delete_flushed slot
          (e, record s { bitmap = clear_slot_bit s.bitmap slot; file = f; script = sc })).1
        s
unfolding update_state
delete_flushed-IsLater s slot ok f sc h = record {
  id = refl;
  config = refl;
  data_start = refl;
  width = refl;
  slots = refl;
  bits = length-clear_slot_bit s.bitmap slot;
  still = refl;
  longer = h;
}
delete_flushed-IsLater s slot e f sc h = record {
  id = refl;
  config = refl;
  data_start = refl;
  width = refl;
  slots = refl;
  bits =
      length-set_slot_bit (clear_slot_bit s.bitmap slot) slot ∙ length-clear_slot_bit s.bitmap slot;
  still = refl;
  longer = h;
}

pub delete-IsLater : (s : Segment) (slot : ℕ) → IsLater (delete s slot).1 s
unfolding delete_occupied flush_bitmap
delete-IsLater s slot = elim (delete-cases s slot) [
  | inl (same, _) ↦ subst (λ (t : Segment). IsLater t s) (sym same) (IsLater-refl s)
  | inr (taken, e) ↦
      subst (λ (r : Status × Segment). IsLater r.1 s) (sym e)
        (delete_flushed-IsLater s slot _ _ _
          (size-pwrite_all s.script s.file (clear_slot_bit s.bitmap slot) 0))
]

pub delete-IsUsable :
    (k v : ℕ) (s : Segment) (slot : ℕ) → IsUsable k v s → IsUsable k v (delete s slot).1
delete-IsUsable k v s slot u =
    IsLater-IsUsable k v (delete s slot).1 s (delete-IsLater s slot) (delete-IsValid s slot u.valid)
      u

module _ (s : Segment) (slot j : ℕ) (valid : IsValid s) (layout : HasLayout s)
    (taken : is_slot_occupied s.bitmap slot ≡ true) (other : (slot == j) ≡ false)
    (on : is_slot_occupied s.bitmap j ≡ true) where
  delete_flushed-keeps :
      (e : Status) (f : File) (sc : List Transfer)
      → is_slot_occupied
          (delete_flushed slot
            (e, record s { bitmap = clear_slot_bit s.bitmap slot; file = f; script = sc })).1.bitmap
          j
        ≡ true
  unfolding update_state
  delete_flushed-keeps ok f sc =
      let below = occupied-lt slot valid taken in
      occupied-clear s.bitmap slot valid.bytes j (omega (arith, valid.bits, valid.within))
      ∙ ground (arith, other, on)
  delete_flushed-keeps e f sc =
      let below = occupied-lt slot valid taken in
      occupied-set (clear_slot_bit s.bitmap slot) slot
        (clear_slot_bit-AreBytes s.bitmap slot valid.bytes) j
        (omega (arith, valid.bits, valid.within, length-clear_slot_bit s.bitmap slot))
      ∙ ground (
        arith,
        other,
        on,
        occupied-clear s.bitmap slot valid.bytes j (omega (arith, valid.bits, valid.within)),
      )

  delete_flushed-file :
      (e : Status) (f : File) (sc : List Transfer)
      → (delete_flushed slot
          (e, record s { bitmap = clear_slot_bit s.bitmap slot; file = f; script = sc })).1.file
        ≡ f
  unfolding update_state
  delete_flushed-file ok f sc = refl
  delete_flushed-file e f sc = refl

  delete_occupied-keeps :
      (key value : Bytes)
      → HoldsPayload s.file (slot_start s j) s.config.key_size s.config.value_size key value
      → IsStored (delete_occupied s slot).1 j key value
  unfolding delete_occupied flush_bitmap
  delete_occupied-keeps key value held =
      let bm = clear_slot_bit s.bitmap slot in
      let w = pwrite_all s.script s.file bm 0 in
      let l =
        delete_flushed-IsLater s slot w.status w.file w.script
          (size-pwrite_all s.script s.file bm 0) in
      let kept = λ (at n : ℕ) (from : s.slot_data_offset ≤ at).
        ap (λ (g : File). read_range g at n) (delete_flushed-file w.status w.file w.script)
        ∙ read-pwrite_all_apart s.script s.file bm 0 at n
            (inr (omega (arith, layout.data_start, length-clear_slot_bit s.bitmap slot, from))) in
      (
        delete_flushed-keeps w.status w.file w.script,
        rw (l.config, l.data_start, l.width)
            (
              kept (slot_start s j) s.config.key_size (omega arith) ∙ held.0,
              kept (slot_start s j + s.config.key_size) s.config.value_size (omega arith) ∙ held.1,
            ),
      )

-- A stored pair survives the deletion of another slot, whatever it answers.
pub delete-keeps-IsStored :
    (s : Segment) (slot j : ℕ) (key value : Bytes)
    → IsValid s
    → HasLayout s
    → (slot == j) ≡ false
    → IsStored s j key value
    → IsStored (delete s slot).1 j key value
delete-keeps-IsStored s slot j key value valid layout other (on, held) =
    elim (delete-cases s slot) [
      | inl (same, _) ↦ subst (λ (t : Segment). IsStored t j key value) (sym same) (on, held)
      | inr (taken, e) ↦
          subst (λ (r : Status × Segment). IsStored r.1 j key value) (sym e)
            (delete_occupied-keeps s slot j valid layout taken other on key value held)
    ]
