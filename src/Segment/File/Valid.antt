-- ===== src/Segment/File/Valid.antt =====
-- `Insert` and `Delete` of `SegmentFile` keep the counters in agreement with the bitmap, also
-- where a write fails.
use mathlib.Core.Path.{subst}
use para_kv.Prelude.{
  ℕ, ◌+◌, ◌%◌, ◌^◌, ◌<◌, ◌≡◌, ◌≢◌, refl, sym, ap, ◌∙◌, ◌⊎◌, inl, inr, true, Option, none, some,
  List, take, ltb, leb, arith, Bool-cases, ltb→lt,
}
use para_kv.Prelude.Bytes.{Bytes}
use para_kv.Status.{Status, ok, io_error, invalid_argument, not_found, full}
use para_kv.Io.{File, Transfer, pwrite_all}
use para_kv.Segment.Bitmap.{set_slot_bit, clear_slot_bit, is_slot_occupied}
use para_kv.Segment.Base.{Segment, update_state, get_slot_offset}
use para_kv.Segment.Base.Agrees.{
  Agrees, Agrees-insert, Agrees-set_clear, Agrees-clear_set, Agrees-delete, occupied-lt,
}
use para_kv.Segment.File.{
  pwrite, flush_bitmap, write_payload, then_value, insert_flushed, insert_payload, insert,
  delete_flushed, delete_occupied, delete,
}

abbrev pub IsValid : Segment → Type 0
IsValid s = Agrees s.bitmap s.total_slots s.used_slots s.deleted_slots s.append_cursor s.state

then_value-shape :
    (s : Segment) (e : Status) (f : File) (sc : List Transfer) (value : Bytes) (off : ℕ)
    → (st : Status) × (f' : File) × (sc' : List Transfer) × (then_value value off
          (e, record s { file = f; script = sc })
        ≡ (st, record s { file = f'; script = sc' }))
unfolding pwrite
then_value-shape s ok f sc value off =
    let r = pwrite_all sc f (take s.config.value_size value) ((off + s.config.key_size) % 2 ^ 64) in
    (r.status, r.file, r.script, refl)
then_value-shape s e f sc value off = (e, f, sc, refl)

-- What `write_payload` returns: a status, and the state with another file.
pub write_payload-shape :
    (s : Segment) (slot : ℕ) (key value : Bytes)
    → (st : Status) × (f : File) × (sc : List Transfer) × (write_payload s slot key value
        ≡ (st, record s { file = f; script = sc }))
unfolding write_payload
write_payload-shape s slot key value =
    let r = pwrite_all s.script s.file (take s.config.key_size key) (get_slot_offset s slot) in
    then_value-shape s r.status r.file r.script value (get_slot_offset s slot)

-- An insertion returns early and changes nothing, or it takes the slot at the cursor.
pub insert-cases :
    (s : Segment) (key value : Bytes)
    → ((insert s (some key) (some value)).2 ≡ s) × ((insert s (some key) (some value)).0 ≢ ok)
      ⊎ (s.append_cursor < s.total_slots)
        × (insert s (some key) (some value)
            ≡ insert_payload s.append_cursor (write_payload s s.append_cursor key value))
unfolding insert
insert-cases s key value = elim (Bool-cases s.is_open) [
  | inr closed ↦ simp closed (inl (refl, differ))
  | inl open_ ↦ elim (Bool-cases (ltb s.append_cursor s.total_slots)) [
    | inr none_left ↦ simp (open_, none_left) (inl (refl, full_differs))
    | inl room ↦ elim (Bool-cases (ltb s.append_cursor (2 ^ 31))) [
      | inr negative ↦ simp (open_, room, negative) (inl (refl, full_differs))
      | inl small ↦ simp (open_, room, small) (inr (ltb→lt _ _ room, refl))
    ]
  ]
]
  where
    differ : io_error ≢ ok
    differ e = cc

    full_differs : full ≢ ok
    full_differs e = cc

insert_flushed-IsValid :
    (s : Segment) (st : Status) (f : File) (sc : List Transfer)
    → IsValid s
    → s.append_cursor < s.total_slots
    → IsValid
        (insert_flushed s.append_cursor (
          st,
          record s { bitmap = set_slot_bit s.bitmap s.append_cursor; file = f; script = sc },
        )).2
unfolding update_state
insert_flushed-IsValid s ok f sc v room = Agrees-insert v room
insert_flushed-IsValid s _ f sc v room =
    Agrees-set_clear s.append_cursor v room (v.fresh s.append_cursor (omega arith))

insert_payload-IsValid :
    (s : Segment) (st : Status) (f : File) (sc : List Transfer)
    → IsValid s
    → s.append_cursor < s.total_slots
    → IsValid (insert_payload s.append_cursor (st, record s { file = f; script = sc })).2
unfolding flush_bitmap
insert_payload-IsValid s ok f sc v room = insert_flushed-IsValid s _ _ _ v room
insert_payload-IsValid s _ f sc v room = v

-- From a segment whose counters agree with its bitmap, `Insert` leads to such a segment, whatever
-- the arguments and whatever the writes answer.
pub insert-IsValid :
    (s : Segment) (key value : Option Bytes) → IsValid s → IsValid (insert s key value).2
insert-IsValid s (some key) (some value) v = elim (insert-cases s key value) [
  | inl (same, _) ↦ subst IsValid (sym same) v
  | inr (room, e) ↦
      let (st, f, sc, shape) = write_payload-shape s s.append_cursor key value in
      subst (λ (r : Status × ℕ × Segment). IsValid r.2)
        (sym (e ∙ ap (insert_payload s.append_cursor) shape))
        (insert_payload-IsValid s st f sc v room)
]
insert-IsValid s (some key) none v = unfold insert in v
insert-IsValid s none value v = unfold insert in v

delete_flushed-IsValid :
    (s : Segment) (slot : ℕ) (st : Status) (f : File) (sc : List Transfer)
    → IsValid s
    → is_slot_occupied s.bitmap slot ≡ true
    → IsValid
        (delete_flushed slot
          (st, record s { bitmap = clear_slot_bit s.bitmap slot; file = f; script = sc })).1
unfolding update_state
delete_flushed-IsValid s slot ok f sc v on = Agrees-delete slot v on
delete_flushed-IsValid s slot _ f sc v on =
    Agrees-clear_set slot v (omega (arith, occupied-lt slot v on, v.within)) on

-- A deletion returns early and changes nothing, or it gives up an occupied slot.
pub delete-cases :
    (s : Segment) (slot : ℕ)
    → ((delete s slot).1 ≡ s) × ((delete s slot).0 ≢ ok)
      ⊎ (is_slot_occupied s.bitmap slot ≡ true) × (delete s slot ≡ delete_occupied s slot)
unfolding delete
delete-cases s slot = elim (Bool-cases (leb s.total_slots slot)) [
  | inl out ↦ simp out (inl (refl, invalid_differs))
  | inr within ↦ elim (Bool-cases s.is_open) [
    | inr closed ↦ simp (within, closed) (inl (refl, error_differs))
    | inl open_ ↦ elim (Bool-cases (is_slot_occupied s.bitmap slot)) [
      | inr free ↦ simp (within, open_, free) (inl (refl, missing_differs))
      | inl taken ↦ simp (within, open_, taken) (inr (refl, refl))
    ]
  ]
]
  where
    invalid_differs : invalid_argument ≢ ok
    invalid_differs e = cc

    error_differs : io_error ≢ ok
    error_differs e = cc

    missing_differs : not_found ≢ ok
    missing_differs e = cc

delete_occupied-IsValid :
    (s : Segment) (slot : ℕ)
    → IsValid s
    → is_slot_occupied s.bitmap slot ≡ true
    → IsValid (delete_occupied s slot).1
unfolding delete_occupied
delete_occupied-IsValid s slot v on = delete_flushed-IsValid s slot _ _ _ v on

-- From a segment whose counters agree with its bitmap, `Delete` leads to such a segment, whatever
-- the slot and whatever the writes answer.
pub delete-IsValid : (s : Segment) (slot : ℕ) → IsValid s → IsValid (delete s slot).1
delete-IsValid s slot v = elim (delete-cases s slot) [
  | inl (same, _) ↦ subst IsValid (sym same) v
  | inr (taken, e) ↦
      subst (λ (r : Status × Segment). IsValid r.1) (sym e) (delete_occupied-IsValid s slot v taken)
]
