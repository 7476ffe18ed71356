-- ===== src/Segment/File/Stored.antt =====
-- What is stored in the slots of a segment: `Insert` adds one pair and disturbs no other
-- (parakv/core/segment/segment_file.cc).
use mathlib.Core.Path.{subst}
use para_kv.Prelude.{
  ℕ, ◌+◌, ◌≤◌, ◌<◌, ◌≡◌, sym, ap, ◌∙◌, inl, inr, true, Option, none, some, length, arith,
}
use para_kv.Prelude.Bytes.{Bytes}
use para_kv.Status.{Status, ok}
use para_kv.Io.{File, read_range}
use para_kv.Segment.Bitmap.{is_slot_occupied}
use para_kv.Segment.Base.{Segment}
use para_kv.Segment.Base.Agrees.{occupied-lt}
use para_kv.Segment.File.{write_payload, insert_payload, insert}
use para_kv.Segment.File.Valid.{IsValid, write_payload-shape, insert-cases}
use para_kv.Segment.File.Payload.{
  HasLayout, HoldsPayload, slot_start, slots_apart, write_payload-apart, write_payload-holds,
}
use para_kv.Segment.File.Insertion.{
  insert_payload-apart, insert_payload-keeps, insert_payload-SameLayout, HoldsPayload-SameLayout,
  insert_payload-done,
}

-- A slot is occupied, and the file holds this key and value in it.
abbrev pub IsStored : Segment → ℕ → Bytes → Bytes → Type 0
IsStored s slot key value =
    (is_slot_occupied s.bitmap slot ≡ true)
    × HoldsPayload s.file (slot_start s slot) s.config.key_size s.config.value_size key value

module _ (s : Segment) (v : IsValid s) (l : HasLayout s) where
  insert_at-keeps :
      (key value : Bytes) (j : ℕ) (k w : Bytes)
      → s.append_cursor < s.total_slots
      → IsStored s j k w
      → IsStored
          (insert_payload s.append_cursor (write_payload s s.append_cursor key value)).2
          j
          k
          w
  insert_at-keeps key value j k w room (on, held) =
      let (st, f, sc, shape) = write_payload-shape s s.append_cursor key value in
      let t = (insert_payload s.append_cursor (st, record s { file = f; script = sc })).2 in
      let file : (write_payload s s.append_cursor key value).1.file ≡ f =
        ap (λ (r : Status × Segment). r.1.file) shape in
      let before = slots_apart s.slot_size j s.append_cursor (occupied-lt j v on) in
      let kept =
        λ (at n : ℕ) (from : s.slot_data_offset ≤ at) (to : at + n ≤ slot_start s s.append_cursor).
          insert_payload-apart s s.append_cursor st f sc at n (omega (arith, l.data_start, from))
          ∙ ap (λ (g : File). read_range g at n) (sym file)
          ∙ write_payload-apart s s.append_cursor key value at n l room (inl to) in
      subst (λ (r : Status × Segment). IsStored (insert_payload s.append_cursor r).2 j k w)
        (sym shape)
        (
          insert_payload-keeps s st f sc j v room on,
          HoldsPayload-SameLayout t s j k w (insert_payload-SameLayout s s.append_cursor st f sc) (
            kept (slot_start s j) s.config.key_size (omega arith)
                  (omega (arith, before, l.slot_width))
                ∙ held.0,
            kept (slot_start s j + s.config.key_size) s.config.value_size (omega arith)
                  (omega (arith, before, l.slot_width))
                ∙ held.1,
          ),
        )

  -- Whatever an insertion answers, a pair that was stored before is stored after it, at its slot.
  pub insert-keeps-IsStored :
      (key value : Option Bytes) (j : ℕ) (k w : Bytes)
      → IsStored s j k w
      → IsStored (insert s key value).2 j k w
  insert-keeps-IsStored (some key) (some value) j k w h = elim (insert-cases s key value) [
    | inl (same, _) ↦ subst (λ (t : Segment). IsStored t j k w) (sym same) h
    | inr (room, e) ↦
        subst (λ (r : Status × ℕ × Segment). IsStored r.2 j k w) (sym e)
          (insert_at-keeps key value j k w room h)
  ]
  insert-keeps-IsStored (some key) none j k w h = unfold insert in h
  insert-keeps-IsStored none value j k w h = unfold insert in h

  insert_at-IsStored :
      (key value : Bytes)
      → s.append_cursor < s.total_slots
      → length key ≡ s.config.key_size
      → length value ≡ s.config.value_size
      → (insert_payload s.append_cursor (write_payload s s.append_cursor key value)).0 ≡ ok
      → ((insert_payload s.append_cursor (write_payload s s.append_cursor key value)).1
          ≡ s.append_cursor)
        × IsStored
            (insert_payload s.append_cursor (write_payload s s.append_cursor key value)).2
            s.append_cursor
            key
            value
  insert_at-IsStored key value room lk lv done =
      let c = s.append_cursor in
      let (st, f, sc, shape) = write_payload-shape s c key value in
      let t = (insert_payload c (st, record s { file = f; script = sc })).2 in
      let file : (write_payload s c key value).1.file ≡ f =
        ap (λ (r : Status × Segment). r.1.file) shape in
      let (fine, slot, on) =
        insert_payload-done s st f sc v room
          (ap (λ (r : Status × Segment). (insert_payload c r).0) (sym shape) ∙ done) in
      let held =
        write_payload-holds s c key value l room lk lv
          (ap (λ (r : Status × Segment). r.0) shape ∙ fine) in
      let same = λ (at n : ℕ) (from : s.slot_data_offset ≤ at).
        insert_payload-apart s c st f sc at n (omega (arith, l.data_start, from))
        ∙ ap (λ (g : File). read_range g at n) (sym file) in
      subst
        (λ (r : Status × Segment).
          ((insert_payload c r).1 ≡ c) × IsStored (insert_payload c r).2 c key value)
        (sym shape)
        (
          slot,
          (
            on,
            HoldsPayload-SameLayout t s c key value (insert_payload-SameLayout s c st f sc) (
              same (slot_start s c) s.config.key_size (omega arith) ∙ held.0,
              same (slot_start s c + s.config.key_size) s.config.value_size (omega arith) ∙ held.1,
            ),
          ),
        )

  -- For a segment whose counters agree with its bitmap, with its slots behind the bitmap, each wide
  -- enough for a key and a value, and with its last slot's end below 2^64: a successful insertion of
  -- a key and a value of the configured sizes assigns the slot at the cursor, and the pair is stored
  -- there.
  pub insert-IsStored :
      (key value : Bytes)
      → length key ≡ s.config.key_size
      → length value ≡ s.config.value_size
      → (insert s (some key) (some value)).0 ≡ ok
      → ((insert s (some key) (some value)).1 ≡ s.append_cursor)
        × IsStored (insert s (some key) (some value)).2 s.append_cursor key value
  insert-IsStored key value lk lv done = elim (insert-cases s key value) [
    | inl (_, failed) ↦ absurd (failed done)
    | inr (room, e) ↦
        subst
          (λ (r : Status × ℕ × Segment).
            (r.1 ≡ s.append_cursor) × IsStored r.2 s.append_cursor key value)
          (sym e)
          (insert_at-IsStored key value room lk lv
            (ap (λ (r : Status × ℕ × Segment). r.0) (sym e) ∙ done))
  ]
